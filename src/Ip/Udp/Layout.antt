-- ===== src/Ip/Udp/Layout.antt =====
-- The layout of a packet that fill_udp of lib/udp.c makes, and sums over its parts.
use wrpc_sw.Prelude.{
  ℕ, zero, suc, ◌+◌, ◌-◌, ◌*◌, ◌/◌, ◌%◌, ◌^◌, ◌≤◌, ◌<◌, ◌≡◌, refl, ap, ◌∙◌, List, [], ◌∷◌, ◌++◌,
  take, set, length, ◌==◌, if◌then◌else◌, arith, Bool-cases, inl, inr,
}
use wrpc_sw.Ip.Bytes.{be16, AllBytes}
use wrpc_sw.Ip.Checksum.{
  sum_shorts, fold_sum, ipv4_checksum, fold_sum-verifies, fold_sum-ffff, fold_sum-lt,
}
use wrpc_sw.Ip.Udp.{UdpAddr, ip_header}

-- Lists of a fixed length, as tuples.
abbrev pub Tuple : ℕ → Type 0
Tuple zero = Unit
Tuple (suc n) = ℕ × Tuple n

abbrev pub bytes : (n : ℕ) → Tuple n → List ℕ
bytes zero v = []
bytes (suc n) (x, v) = x ∷ bytes n v

-- A list that is as long as the buffer's part in front of it says.
pub set-append : (xs ys : List ℕ) (k v : ℕ) → set (xs ++ ys) (length xs + k) v ≡ xs ++ set ys k v
set-append [] ys k v = let z : 0 + k ≡ k = omega arith in rw z refl
set-append (x ∷ xs) ys k v =
    let z : suc (length xs) + k ≡ suc (length xs + k) = omega arith in
    rw z (ap (λ t. x ∷ t) (set-append xs ys k v))

abbrev pub addr_of : Tuple 4 → Tuple 4 → Tuple 2 → Tuple 2 → UdpAddr
addr_of s d p q = record {
  saddr = bytes 4 s;
  daddr = bytes 4 d;
  sport = bytes 2 p;
  dport = bytes 2 q;
}

-- The pseudo header of the receiver.
abbrev pub pseudo_header : ℕ → Tuple 4 → Tuple 4 → List ℕ
pseudo_header len s d = bytes 4 s ++ (bytes 4 d ++ (0 ∷ 0x11 ∷ be16 (len - 20)))

-- The IP header's checksum verifies.
pub ip_header-verifies :
    (len : ℕ) (s d : Tuple 4) (p q : Tuple 2) (buf : List ℕ)
    → AllBytes (bytes 4 s)
    → AllBytes (bytes 4 d)
    → ipv4_checksum (ip_header len (addr_of s d p q) buf) 10 ≡ 0
unfolding ipv4_checksum
ip_header-verifies len s d p q buf a b =
    let zeroed =
      0x45 ∷ 0 ∷ (be16 len ++ (0 ∷ 0 ∷ 0 ∷ 0 ∷ 63 ∷ 17 ∷ 0 ∷ 0 ∷ (bytes 4 s ++ bytes 4 d))) in
    let sum = sum_shorts 10 zeroed in
    let small : sum + 2 ^ 16 ≤ 2 ^ 32 = omega (arith, a, b) in
    let ck = ipv4_checksum zeroed 10 in
    let lt : ck < 2 ^ 16 = fold_sum-lt (sum % 2 ^ 32) in
    let total : sum_shorts 10 (ip_header len (addr_of s d p q) buf) % 2 ^ 32 ≡ sum + ck =
      omega (arith, lt, a, b) in
    let same_ck : ck ≡ fold_sum sum = ap fold_sum (omega arith) in
    ap fold_sum (total ∙ ap (λ c. sum + c) same_ck) ∙ fold_sum-verifies sum small

-- The sum of a payload, the odd byte at its end padded with 0, whatever stands behind the padding.
pub sum_shorts_pad :
    (payload tail : List ℕ) (m : ℕ)
    → m ≡ (length payload + 1) / 2
    → sum_shorts m (payload ++ set tail 0 0) ≡ sum_shorts m payload
sum_shorts_pad [] tail m e = let z : m ≡ 0 = omega (arith, e) in rw z refl
sum_shorts_pad (x ∷ []) [] m e = refl
sum_shorts_pad (x ∷ []) (y ∷ tail) m e = let z : m ≡ 1 = omega (arith, e) in rw z (omega arith)
sum_shorts_pad (x ∷ y ∷ payload) tail zero e = absurd (omega (arith, e))
sum_shorts_pad (x ∷ y ∷ payload) tail (suc m) e =
    ap (λ n. x * 2 ^ 8 + y + n) (sum_shorts_pad payload tail m (omega (arith, e)))

pub sum_shorts-le :
    (payload : List ℕ) (m : ℕ) → AllBytes payload → sum_shorts m payload ≤ m * 0xffff
sum_shorts-le payload zero a = omega arith
sum_shorts-le [] (suc m) a = omega arith
sum_shorts-le (x ∷ []) (suc m) a = omega (arith, a)
sum_shorts-le (x ∷ y ∷ payload) (suc m) (a, (b, c)) = omega (arith, sum_shorts-le payload m c)

-- A checksum of 0 is sent as 0xffff.
pub sent_verifies :
    (sum : ℕ)
    → 0 < sum
    → sum + 2 ^ 16 ≤ 2 ^ 32
    → fold_sum (sum + (if fold_sum sum == 0 then 0xffff else fold_sum sum)) ≡ 0
sent_verifies sum z h = elim (Bool-cases (fold_sum sum == 0)) [
  | inl e ↦ rw e (fold_sum-ffff sum z h (ground (arith, e)))
  | inr e ↦ rw e (fold_sum-verifies sum h)
]

pub sent-lt : (sum : ℕ) → (if fold_sum sum == 0 then 0xffff else fold_sum sum) < 2 ^ 16
sent-lt sum = ground (arith, fold_sum-lt sum)

pub set_behind :
    (h payload tail : List ℕ) (len v : ℕ)
    → len ≡ length h + length payload
    → set (h ++ (payload ++ tail)) len v ≡ h ++ (payload ++ set tail 0 v)
set_behind h payload tail len v e =
    let place : len ≡ length h + (length payload + 0) = omega (arith, e) in
    rw place (
      set-append h (payload ++ tail) (length payload + 0) v
      ∙ ap (λ t. h ++ t) (set-append payload tail 0 v))

pub take_front :
    (h payload tail : List ℕ) (len : ℕ)
    → len ≡ length h + length payload
    → take len (h ++ (payload ++ tail)) ≡ h ++ payload
take_front [] [] tail zero e = refl
take_front [] [] tail (suc len) e = absurd (omega (arith, e))
take_front [] (x ∷ payload) tail zero e = absurd (omega (arith, e))
take_front [] (x ∷ payload) tail (suc len) e =
    ap (λ t. x ∷ t) (take_front [] payload tail len (omega (arith, e)))
take_front (x ∷ h) payload tail zero e = absurd (omega (arith, e))
take_front (x ∷ h) payload tail (suc len) e =
    ap (λ t. x ∷ t) (take_front h payload tail len (omega (arith, e)))
