-- ===== src/Socks/Connect.antt =====
-- `create_outgoing_tcp_connection`. What each address does is a parameter.
use drivers_evergreen_tools.Common.{
  ◌≡◌, refl, Bool, true, false, List, [], ◌∷◌, Option, none, some, arith,
}
use drivers_evergreen_tools.Socks.Remap.{Address}

-- `socket.socket` fails; `connect` fails; the connection stands.
pub data Attempt : Type 0 where
  no_socket refused accepted : Attempt

pub record Socket : Type 0 where
  pub peer : Address
  pub is_open : Bool

module _ (attempt : Address → Attempt) where
  connect_loop : Option Socket → List Address → Option Socket
  connect_loop outgoing [] = outgoing
  connect_loop outgoing (a ∷ rest) = elim (attempt a) [
    | no_socket ↦ connect_loop outgoing rest
    | refused ↦ connect_loop (some (record { peer = a; is_open = false })) rest
    | accepted ↦ some (record { peer = a; is_open = true })
  ]

  -- The loop over the results of `getaddrinfo`.
  unfoldable pub create_outgoing : List Address → Option Socket
  unfolding connect_loop
  create_outgoing addrs = connect_loop none addrs

  -- The first address that takes the connection.
  abbrev pub first_accepted : List Address → Option Address
  first_accepted [] = none
  first_accepted (a ∷ rest) = elim (attempt a) [
    | no_socket ↦ first_accepted rest
    | refused ↦ first_accepted rest
    | accepted ↦ some a
  ]

  -- The last address that refused it.
  abbrev pub last_refused : Option Address → List Address → Option Address
  last_refused best [] = best
  last_refused best (a ∷ rest) = elim (attempt a) [
    | no_socket ↦ last_refused best rest
    | refused ↦ last_refused (some a) rest
    | accepted ↦ last_refused best rest
  ]

  abbrev closed_socket : Option Address → Option Socket
  closed_socket none = none
  closed_socket (some a) = some (record { peer = a; is_open = false })

  abbrev pub outcome : Option Address → Option Address → Option Socket
  outcome (some a) refusal = some (record { peer = a; is_open = true })
  outcome none refusal = closed_socket refusal

  connect_loop_lem :
      (best : Option Address) (addrs : List Address)
      → connect_loop (closed_socket best) addrs
        ≡ outcome (first_accepted addrs) (last_refused best addrs)
  unfolding connect_loop
  connect_loop_lem best [] = refl
  connect_loop_lem best (a ∷ rest) =
      ground (arith, connect_loop_lem best rest, connect_loop_lem (some a) rest)

  -- The result is an open socket to the first address that accepts. Where none does, it is not None
  -- if some address refused, but a closed socket to the last one that did.
  pub create_outgoing_lem :
      (addrs : List Address)
      → create_outgoing addrs ≡ outcome (first_accepted addrs) (last_refused none addrs)
  unfolding create_outgoing
  create_outgoing_lem addrs = connect_loop_lem none addrs
