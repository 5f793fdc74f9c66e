-- ===== src/HappyEyeballs/Reply.antt =====
-- The reply on the control port as a driver reads it, by happy_eyeballs/README.md.
use drivers_evergreen_tools.Common.{
  ℕ, ◌+◌, ◌*◌, ◌/◌, ◌%◌, ◌<◌, ◌≡◌, refl, lt→ltb, arith, List, [], ◌∷◌, Option, none, some, ◌==◌,
  if◌then◌else◌,
}
use drivers_evergreen_tools.HappyEyeballs.{
  Family, ipv4, ipv6, ports, control_of, to_bytes, both_ports, control_reply,
}

-- The success signal and two big-endian ports; any other reply is an error.
unfoldable pub read_reply : List ℕ → Option (ℕ × ℕ)
read_reply (one ∷ hi ∷ lo ∷ hi' ∷ lo' ∷ []) =
    if one == 1 then some (hi * 256 + lo, hi' * 256 + lo') else none
read_reply _ = none

-- What a driver sends for a pair with this slow family.
unfoldable pub request : Family → ℕ
request ipv4 = 4
request ipv6 = 6

port_lem : (n : ℕ) → (n / 256) * 256 + n % 256 ≡ n
port_lem n = omega arith

-- For either family, a driver that asks for it to be the slow one and reads the reply gets the two
-- ports that were bound, the one of IPv4 first, where the ports are numbers of 16 bits.
pub read_reply-control_reply :
    (slow : Family) (ipv4_port ipv6_port : ℕ)
    → ipv4_port < 65536
    → ipv6_port < 65536
    → (reply : List ℕ) × (control_of (request slow) ≡ ports slow)
      × (control_reply (control_of (request slow)) ipv4_port ipv6_port ≡ some reply)
      × (read_reply reply ≡ some (ipv4_port, ipv6_port))
unfolding read_reply request control_of control_reply both_ports to_bytes
read_reply-control_reply slow p q hp hq = by slow
  where
    reply_to : List ℕ
    reply_to = 1 ∷ p / 256 ∷ p % 256 ∷ q / 256 ∷ q % 256 ∷ []

    is_read : read_reply reply_to ≡ some (p, q)
    is_read = rw (port_lem p, port_lem q) refl

    written : both_ports (to_bytes p) (to_bytes q) ≡ some reply_to
    written = rw (lt→ltb p 65536 hp, lt→ltb q 65536 hq) refl

    by :
        (slow : Family)
        → (reply : List ℕ) × (control_of (request slow) ≡ ports slow)
          × (control_reply (control_of (request slow)) p q ≡ some reply)
          × (read_reply reply ≡ some (p, q))
    by ipv4 = (reply_to, refl, written, is_read)
    by ipv6 = (reply_to, refl, written, is_read)
