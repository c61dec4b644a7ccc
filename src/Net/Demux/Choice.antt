-- ===== src/Net/Demux/Choice.antt =====
-- Which socket of lib/net.c gets a frame.
use wrpc_sw.Prelude.{
  ℕ, suc, ◌≡◌, refl, ap, ◌∙◌, Bool, true, false, not, ◌&&◌, Option, none, some, List, [], ◌∷◌, ◌==◌,
  if◌then◌else◌, Bool-cases, inl, inr, arith,
}
use wrpc_sw.Net.Demux.{Socket, match_sockets, or_else, choose_socket}

-- Bound to the device, the ethertype and the port, which is 0 for what is not UDP.
abbrev pub is_bound : (nif ethtype port : ℕ) → Socket → Bool
is_bound nif ethtype port s = ((s.nif == nif) && (ethtype == s.ethertype)) && (s.udpport == port)

-- The last slot, from i on, whose socket is bound to the address; before it, what was found earlier.
abbrev pub last_bound : (nif ethtype port i : ℕ) → Option ℕ → List (Option Socket) → Option ℕ
last_bound nif ethtype port i found [] = found
last_bound nif ethtype port i found (none ∷ socks) = last_bound nif ethtype port (suc i) found socks
last_bound nif ethtype port i found (some s ∷ socks) =
    last_bound nif ethtype port (suc i) (if is_bound nif ethtype port s then some i else found)
      socks

never : (b : Bool) → b && false ≡ false
never true = refl
never false = refl

match_raw :
    (nif ethtype i : ℕ) (raws : Option ℕ) (socks : List (Option Socket))
    → match_sockets nif ethtype 0 i raws none socks ≡ (last_bound nif ethtype 0 i raws socks, none)
unfolding match_sockets
match_raw nif ethtype i raws [] = refl
match_raw nif ethtype i raws (none ∷ socks) = match_raw nif ethtype (suc i) raws socks
match_raw nif ethtype i raws (some s ∷ socks) =
    let raws' = if is_bound nif ethtype 0 s then some i else raws in
    ap (λ b. match_sockets nif ethtype 0 (suc i) raws' (if b then some i else none) socks)
      (never ((s.nif == nif) && (ethtype == s.ethertype)))
    ∙ match_raw nif ethtype (suc i) raws' socks

match_udp :
    (nif ethtype port i : ℕ) (udps : Option ℕ) (socks : List (Option Socket))
    → port == 0 ≡ false
    → match_sockets nif ethtype port i none udps socks
      ≡ (none, last_bound nif ethtype port i udps socks)
unfolding match_sockets
match_udp nif ethtype port i udps [] e = refl
match_udp nif ethtype port i udps (none ∷ socks) e = match_udp nif ethtype port (suc i) udps socks e
match_udp nif ethtype port i udps (some s ∷ socks) e =
    let here = (s.nif == nif) && (ethtype == s.ethertype) in
    let udps' = if is_bound nif ethtype port s then some i else udps in
    ap
      (λ z.
        match_sockets nif ethtype port (suc i)
          (if here && (z && (s.udpport == 0)) then some i else none)
          (if here && (not z && (s.udpport == port)) then some i else udps) socks)
      e
    ∙ ap (λ b. match_sockets nif ethtype port (suc i) (if b then some i else none) udps' socks)
        (never here)
    ∙ match_udp nif ethtype port (suc i) udps' socks e

-- A frame goes to the last socket that is bound to its device, its ethertype and its UDP port, and a
-- frame that is not UDP to the last one bound without a port; without such a socket it goes to none.
pub choose_socket_lem :
    (nif ethtype port : ℕ) (socks : List (Option Socket))
    → choose_socket nif ethtype port socks ≡ last_bound nif ethtype port 0 none socks
unfolding choose_socket
choose_socket_lem nif ethtype port socks = elim (Bool-cases (port == 0)) [
  | inl e ↦ let z : port ≡ 0 = ground (arith, e) in rw (z, match_raw nif ethtype 0 none socks) refl
  | inr e ↦
      rw (match_udp nif ethtype port 0 none socks e)
        (udp_first (last_bound nif ethtype port 0 none socks))
]
  where
    udp_first : (found : Option ℕ) → or_else found none ≡ found
    udp_first none = refl
    udp_first (some i) = refl
