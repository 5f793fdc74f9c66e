-- ===== src/Socks/Handler/Reply.antt =====
-- What the client is told about the connection.
use drivers_evergreen_tools.Common.{
  ℕ, ◌≡◌, refl, List, [], ◌∷◌, ◌++◌, Option, none, some, false, arith, length, All, Result, ok,
  raise, ◌≢◌, ◌+◌, ◌*◌, suc, zero, ap, sym, Bool-cases, inl, inr, ◌∙◌,
}
use drivers_evergreen_tools.Common.Exec.{◌>>=◌}
use drivers_evergreen_tools.Common.Text.{text_eq, text_eq_iff}
use drivers_evergreen_tools.Socks.Remap.{
  Host, raw, str, HostPort, Mapping, Address, host_eq, same, remap,
}
use drivers_evergreen_tools.Socks.Connect.{
  Socket, create_outgoing_lem, first_accepted, last_refused, outcome,
}
use drivers_evergreen_tools.Socks.Handler.{
  Stop, returned, Session, Network, send, answer, connect, connect_to, success_reply, ipv6_text,
}

-- The result and the bytes sent for what connecting gave.
abbrev pub told : Option Socket → Session → Result Stop Socket × Session
told none s = (raise returned, record s { sent = s.sent ++ 5 ∷ 1 ∷ 0 ∷ [] })
told (some socket) s = (ok socket, record s { sent = s.sent ++ success_reply })

told-answer : (o : Option Socket) (s : Session) → answer o s ≡ told o s
unfolding answer send ◌>>=◌
told-answer none s = refl
told-answer (some socket) s = refl

-- The reply follows the addresses that the name resolves to: success with an open socket to the
-- first that accepts, and a failure only if every one of them lacks a socket. A name that does not
-- resolve ends the session with an exception and no reply.
pub connect_lem :
    (network : Network) (dst : HostPort) (addrs : List Address) (s : Session)
    → network.resolve dst.host dst.port ≡ some addrs
    → connect network dst s
      ≡ told
          (outcome network.attempt
            (first_accepted network.attempt addrs)
            (last_refused network.attempt none addrs))
          s
unfolding connect
connect_lem network dst addrs s e = rw (e, connect_to) (rw create_outgoing_lem (told-answer _ s))

-- A connection that every address refuses is reported as a success: where no address accepts and
-- some address `a` is the last to refuse, the client gets the success reply, and the session goes on
-- to proxy between it and a closed socket.
pub connect_refused :
    (network : Network) (dst : HostPort) (addrs : List Address) (a : Address) (s : Session)
    → network.resolve dst.host dst.port ≡ some addrs
    → first_accepted network.attempt addrs ≡ none
    → last_refused network.attempt none addrs ≡ some a
    → connect network dst s
      ≡ (ok (record { peer = a; is_open = false }), record s { sent = s.sent ++ success_reply })
connect_refused network dst addrs a s e f l = connect_lem network dst addrs s e ∙ rw (f, l)

length-ipv6_text : (k : ℕ) (bs : List ℕ) → length bs ≡ 2 * k + 2 → length (ipv6_text bs) ≡ 5 * k + 4
unfolding ipv6_text
length-ipv6_text k [] h = absurd (omega arith)
length-ipv6_text k (a ∷ []) h = absurd (omega arith)
length-ipv6_text zero (a ∷ b ∷ []) h = refl
length-ipv6_text (suc k) (a ∷ b ∷ []) h = absurd (omega arith)
length-ipv6_text zero (a ∷ b ∷ c ∷ bs) h = absurd (omega arith)
length-ipv6_text (suc k) (a ∷ b ∷ c ∷ bs) h =
    omega (arith, length-ipv6_text k (c ∷ bs) (omega arith))

-- The text of a source, if it has one, is no full-length IPv6 address.
abbrev IsAbridged : Host → Type 0
IsAbridged (raw _) = Unit
IsAbridged (str t) = length t ≢ 39

other_host :
    (bs : List ℕ) (h : Host)
    → length bs ≡ 16
    → IsAbridged h
    → host_eq (str (ipv6_text bs)) h ≡ false
unfolding host_eq
other_host bs (raw _) e k = refl
other_host bs (str t) e k = elim (Bool-cases (text_eq (ipv6_text bs) t)) [
  | inl same ↦
      let p : ipv6_text bs ≡ t = (text_eq_iff _ t).0 same in
      absurd (k (ap (length {0}) (sym p) ∙ length-ipv6_text 7 bs e))
  | inr differ ↦ differ
]

-- A request for an IPv6 address is never remapped unless the text of some source is itself a
-- full-length address: the request's text has all its 39 characters, leading zeros included, and
-- `getaddrinfo` writes a shorter text for an address that has any.
pub remap-ipv6 :
    (bs : List ℕ) (port : ℕ) (mappings : List Mapping)
    → length bs ≡ 16
    → All (λ m. IsAbridged m.src.host) mappings
    → remap mappings (record { host = str (ipv6_text bs); port = port })
      ≡ record { host = str (ipv6_text bs); port = port }
unfolding remap
remap-ipv6 bs port [] e h = refl
remap-ipv6 bs port (m ∷ ms) e h =
    ground (arith, other_host bs m.src.host e h.0, remap-ipv6 bs port ms e h.1)
