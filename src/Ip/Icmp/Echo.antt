-- ===== src/Ip/Icmp/Echo.antt =====
-- The answer of process_icmp of lib/icmp.c to an echo request.
use wrpc_sw.Prelude.{
  ℕ, zero, suc, ◌+◌, ◌-◌, ◌*◌, ◌/◌, ◌%◌, ◌^◌, ◌≤◌, ◌<◌, min, ◌≡◌, refl, ap, ap₂, ◌∙◌, ◌⊎◌, inl, inr,
  List, [], ◌∷◌, ◌++◌, take, drop, length, arith,
}
use wrpc_sw.Ip.Bytes.{get, put, byte, be16, same_self, AllBytes}
use wrpc_sw.Ip.Checksum.{sum_shorts, fold_sum, ipv4_checksum, fold_sum-verifies, fold_sum-lt}
use wrpc_sw.Ip.Node.{Node}
use wrpc_sw.Ip.Udp.Layout.{Tuple, bytes, sum_shorts-le, take_front}
use wrpc_sw.Ip.Icmp.{process_icmp}

-- The parts of a request that no answer depends on: type of service, identification and flags, time to
-- live, checksums and code.
pub record Rest : Type 0 where
  pub tos : ℕ
  pub id_flags : Tuple 4
  pub ttl : ℕ
  pub checksum : Tuple 2
  pub code : ℕ
  pub icmp_checksum : Tuple 2

-- An echo request from s to d.
abbrev pub echo_request : Rest → Tuple 4 → Tuple 4 → List ℕ → List ℕ
echo_request r s d body =
    (0x45
      ∷ r.tos
      ∷ (be16 (24 + length body)
          ++ (bytes 4 r.id_flags
              ++ (r.ttl
                  ∷ 1
                  ∷ (bytes 2 r.checksum
                      ++ (bytes 4 s ++ (bytes 4 d ++ (8 ∷ r.code ∷ bytes 2 r.icmp_checksum))))))))
    ++ body

sum_shorts_exact :
    (body tail : List ℕ) (m : ℕ)
    → m ≡ (length body + 1) / 2
    → (length body % 2 ≡ 0) ⊎ (byte 0 tail ≡ 0)
    → sum_shorts m (body ++ tail) ≡ sum_shorts m body
sum_shorts_exact [] tail m e k = let z : m ≡ 0 = omega (arith, e) in rw z refl
sum_shorts_exact (x ∷ []) tail zero e k = absurd (omega (arith, e))
sum_shorts_exact (x ∷ []) [] (suc m) e k = refl
sum_shorts_exact (x ∷ []) (y ∷ tail) (suc m) e (inl h) = absurd (omega (arith, h))
sum_shorts_exact (x ∷ []) (y ∷ tail) (suc m) e (inr h) =
    let z : m ≡ 0 = omega (arith, e) in rw z (omega (arith, h))
sum_shorts_exact (x ∷ y ∷ body) tail zero e k = absurd (omega (arith, e))
sum_shorts_exact (x ∷ y ∷ body) tail (suc m) e k =
    ap (λ n. x * 2 ^ 8 + y + n) (sum_shorts_exact body tail m (omega (arith, e)) (shorter k))
  where
    shorter :
        (suc (suc (length body)) % 2 ≡ 0) ⊎ (byte 0 tail ≡ 0)
        → (length body % 2 ≡ 0) ⊎ (byte 0 tail ≡ 0)
    shorter (inl h) = inl (omega (arith, h))
    shorter (inr h) = inr h

-- The node at the address d.
abbrev pub at_ip : Tuple 4 → Node → Node
at_ip d n = record n { my_ip = bytes 4 d }

module _ (n : Node) (r : Rest) (s d : Tuple 4) (body : List ℕ) (h : length body ≤ 64) where
  abbrev half : ℕ
  half = (length body + 1) / 2

  -- The reply's headers around an ICMP checksum.
  abbrev headers : ℕ → List ℕ
  headers ck =
      let fields =
        0x45
        ∷ 0
        ∷ (be16 (24 + length body)
            ++ (0 ∷ 0 ∷ 0 ∷ 0 ∷ 63 ∷ 1 ∷ 0 ∷ 0 ∷ (bytes 4 d ++ bytes 4 s))) in
      put 10 (be16 (ipv4_checksum fields 10)) fields ++ (0 ∷ 0 ∷ be16 ck)

  process_icmp-echo_request :
      (tail : List ℕ)
      → process_icmp (at_ip d n) (echo_request r s d body ++ tail) ≡ (
        24 + length body,
        headers (fold_sum (sum_shorts half (body ++ tail) % 2 ^ 32)) ++ (body ++ tail),
      )
  unfolding process_icmp ipv4_checksum
  process_icmp-echo_request tail =
      let total : min ((24 + length body) / 2 ^ 8 % 2 ^ 8 * 2 ^ 8 + (24 + length body) % 2 ^ 8) 88
          ≡ 24 + length body =
        omega arith in
      let shorts : (24 + length body + 4 + 1 - 24) / 2 ≡ suc (suc half) = omega arith in
      let zeros : 0 + (0 + sum_shorts half (body ++ tail)) ≡ sum_shorts half (body ++ tail) =
        omega arith in
      rw (same_self (bytes 4 d), total, shorts, zeros) refl

  ip_verifies :
      (ck : ℕ) (rest : List ℕ)
      → AllBytes (bytes 4 s)
      → AllBytes (bytes 4 d)
      → ipv4_checksum (headers ck ++ rest) 10 ≡ 0
  unfolding ipv4_checksum
  ip_verifies ck rest a b =
      let zeroed =
        0x45
        ∷ 0
        ∷ (be16 (24 + length body)
            ++ (0 ∷ 0 ∷ 0 ∷ 0 ∷ 63 ∷ 1 ∷ 0 ∷ 0 ∷ (bytes 4 d ++ bytes 4 s))) in
      let sum = sum_shorts 10 zeroed in
      let small : sum + 2 ^ 16 ≤ 2 ^ 32 = omega (arith, a, b) in
      let own = ipv4_checksum zeroed 10 in
      let lt : own < 2 ^ 16 = fold_sum-lt (sum % 2 ^ 32) in
      let total : sum_shorts 10 (headers ck ++ rest) % 2 ^ 32 ≡ sum + own =
        omega (arith, lt, a, b) in
      let same_own : own ≡ fold_sum sum = ap fold_sum (omega arith) in
      ap fold_sum (total ∙ ap (λ c. sum + c) same_own) ∙ fold_sum-verifies sum small

  icmp_verifies :
      (tail : List ℕ)
      → AllBytes body
      → (length body % 2 ≡ 0) ⊎ (byte 0 tail ≡ 0)
      → let ck = fold_sum (sum_shorts half (body ++ tail) % 2 ^ 32) in
        ipv4_checksum
          (drop 20 (take (24 + length body) (headers ck ++ (body ++ tail))))
          ((24 + length body - 20 + 1) / 2)
        ≡ 0
  unfolding ipv4_checksum
  icmp_verifies tail c k =
      let sum = sum_shorts half body in
      let small : sum + 2 ^ 16 ≤ 2 ^ 32 = omega (arith, sum_shorts-le body half c) in
      let ck = fold_sum (sum_shorts half (body ++ tail) % 2 ^ 32) in
      let ck_is : ck ≡ fold_sum sum =
        ap fold_sum (omega (arith, small, sum_shorts_exact body tail half refl k)) in
      let shorts : (24 + length body - 20 + 1) / 2 ≡ suc (suc half) = omega arith in
      let total : sum_shorts (suc (suc half)) (drop 20 (headers (fold_sum sum) ++ body)) % 2 ^ 32
          ≡ sum + fold_sum sum =
        omega (arith, fold_sum-lt sum, small) in
      ap₂ (λ m b. ipv4_checksum (drop 20 b) m) shorts
        (take_front (headers ck) body tail (24 + length body) refl)
      ∙ ap (λ x. ipv4_checksum (drop 20 (headers x ++ body)) (suc (suc half))) ck_is
      ∙ ap fold_sum total
      ∙ fold_sum-verifies sum small

  -- The answer to an echo request of up to 64 bytes from s is a packet to s with the same body, and
  -- both its checksums verify, if the number of bytes is even or the byte of the buffer behind the
  -- body is 0.
  pub process_icmp-verifies :
      (tail : List ℕ)
      → AllBytes (bytes 4 s)
      → AllBytes (bytes 4 d)
      → AllBytes body
      → (length body % 2 ≡ 0) ⊎ (byte 0 tail ≡ 0)
      → let (len, packet) = process_icmp (at_ip d n) (echo_request r s d body ++ tail) in
        (len ≡ 24 + length body)
        × (get 12 8 packet ≡ bytes 4 d ++ bytes 4 s)
        × (drop 24 packet ≡ body ++ tail)
        × (ipv4_checksum packet 10 ≡ 0)
        × (ipv4_checksum (drop 20 (take len packet)) ((len - 20 + 1) / 2) ≡ 0)
  unfolding ipv4_checksum
  process_icmp-verifies tail a b c k = rw (process_icmp-echo_request tail) (
    refl,
    refl,
    refl,
    ip_verifies (fold_sum (sum_shorts half (body ++ tail) % 2 ^ 32)) (body ++ tail) a b,
    icmp_verifies tail c k,
  )
