-- ===== src/Socks/Handler.antt =====
-- `Socks5Handler.handle`, up to the proxying. A session reads the client's stream, and sends bytes.
pub mod Segments
pub mod Reads
pub mod Auth
pub mod Reply
use drivers_evergreen_tools.Common.{
  ℕ, ◌+◌, ◌*◌, ◌/◌, ◌%◌, ltb, Bool, true, false, not, ◌&&◌, List, [], ◌∷◌, ◌++◌, Option, none, some,
  ◌==◌, if◌then◌else◌, any, Result, ok, raise,
}
use drivers_evergreen_tools.Common.Exec.{Exec, pure, stop, ◌>>=◌, ◌>>◌}
use drivers_evergreen_tools.Common.Text.{Text, text_eq}
use drivers_evergreen_tools.Common.Text.Decimal.{show}
use drivers_evergreen_tools.Common.Text.Utf8.{decode}
use drivers_evergreen_tools.Socks.Stream.{Stream, recv, read_counted, read_exact}
use drivers_evergreen_tools.Socks.Remap.{
  Host, raw, str, HostPort, Mapping, Address, Resolver, remap,
}
use drivers_evergreen_tools.Socks.Connect.{Socket, Attempt, create_outgoing}

-- Why a session ends before the proxying: `handle` returns, or an exception leaves it. The client's
-- socket is closed in each case, by `finish`.
pub data Stop : Type 0 where
  returned os_error type_error unicode_error gai_error : Stop

pub record Session : Type 0 where
  pub input : Stream
  pub sent : List ℕ

abbrev pub Action : Type 0 → Type 0
Action A = Exec Session Stop A

-- What a session can reach: `getaddrinfo`, and what connecting to an address does.
pub record Network : Type 0 where
  pub resolve : Resolver
  pub attempt : Address → Attempt

abbrev received : Option (List ℕ) → Session → Result Stop (List ℕ) × Session
received none s = (raise os_error, s)
received (some chunk) s = (ok chunk, s)

-- `self.request.recv(1)`
unfoldable pub recv_one : Action (List ℕ)
recv_one s = let (got, input) = recv 1 s.input in received got (record s { input = input })

-- `self.read_exact(n)` for the bytes of a `recv(1)`, and for a number.
unfoldable pub read_bytes : List ℕ → Action (Option (List ℕ))
read_bytes n s = let (got, input) = read_counted n s.input in (ok got, record s { input = input })

unfoldable pub read_number : ℕ → Action (Option (List ℕ))
read_number n s = let (got, input) = read_exact n s.input in (ok got, record s { input = input })

-- `self.request.sendall(data)`
unfoldable pub send : List ℕ → Action (Unit {0})
send out s = (ok tt, record s { sent = s.sent ++ out })

-- `chunk == b"\x.."` for one byte
abbrev pub is_byte : ℕ → List ℕ → Bool
is_byte b [] = false
is_byte b (c ∷ []) = c == b
is_byte b (c ∷ d ∷ s) = false

-- `if not test: return`
unfoldable pub require : Bool → Action (Unit {0})
unfolding pure stop
require true = pure tt
require false = stop returned

-- `if value is None: return`
unfoldable pub present : {A : Type 0} → Option A → Action A
unfolding pure stop
present none = stop returned
present (some a) = pure a

-- `value.decode("utf8")`
text_or_error : Option Text → Action Text
text_or_error none = stop unicode_error
text_or_error (some t) = pure t

unfoldable pub decoded : List ℕ → Action Text
unfolding text_or_error pure stop
decoded s = text_or_error (decode s)

abbrev pub success_reply : List ℕ
success_reply = 5 ∷ 0 ∷ 0 ∷ 1 ∷ 127 ∷ 0 ∷ 0 ∷ 1 ∷ 16 ∷ 0 ∷ []

abbrev pub required_method : Option Text → ℕ
required_method none = 0
required_method (some _) = 2

-- `method in methods`, answered by the choice or by a refusal.
unfoldable pub choose_method : ℕ → List ℕ → Action (Unit {0})
choose_method method methods =
    if any (λ m. m == method) methods
    then send (5 ∷ method ∷ [])
    else send (5 ∷ 255 ∷ []) >> stop returned

-- The client greeting.
unfoldable pub greet : Option Text → Action (Unit {0})
greet auth = do
  version ← recv_one
  require (is_byte 5 version)
  n_auth ← recv_one
  methods ← read_bytes n_auth
  methods ← present methods
  choose_method (required_method auth) methods

-- The comparison of `handle`, once the four parts are read.
unfoldable pub compare_parts : Text → Option (List ℕ) → Option (List ℕ) → Action (Unit {0})
compare_parts auth username password = do
  username ← present username
  password ← present password
  username ← decoded username
  password ← decoded password
  require (text_eq (username ++ b':' ∷ password) auth)
  send (1 ∷ 0 ∷ [])

-- Username and password, where the server wants them.
unfoldable pub check_credentials : Option Text → Action (Unit {0})
check_credentials none = pure tt
check_credentials (some auth) = do
  version ← recv_one
  require (is_byte 1 version)
  username_len ← recv_one
  username ← read_bytes username_len
  password_len ← recv_one
  password ← read_bytes password_len
  compare_parts auth username password

-- `".".join(["{}"] * 4).format(*raw)`
abbrev ipv4_text : List ℕ → Text
ipv4_text [] = []
ipv4_text (b ∷ []) = show b
ipv4_text (b ∷ c ∷ bs) = show b ++ b'.' ∷ ipv4_text (c ∷ bs)

abbrev hex_digit : ℕ → ℕ
hex_digit d = if ltb d 10 then d + b'0' else d + 87

abbrev hex : ℕ → Text
hex b = hex_digit (b / 16) ∷ hex_digit (b % 16) ∷ []

-- `":".join(["{:0>2x}{:0>2x}"] * 8).format(*raw)`
unfoldable pub ipv6_text : List ℕ → Text
ipv6_text [] = []
ipv6_text (a ∷ []) = hex a
ipv6_text (a ∷ b ∷ []) = hex a ++ hex b
ipv6_text (a ∷ b ∷ c ∷ bs) = hex a ++ hex b ++ b':' ∷ ipv6_text (c ∷ bs)

abbrev text_host : (List ℕ → Text) → List ℕ → Host
text_host format bytes = str (format bytes)

-- The destination by its address type.
unfoldable pub read_host : List ℕ → Action Host
read_host addrtype =
    if is_byte 1 addrtype
    then (do got ← read_number 4; bytes ← present got; pure (text_host ipv4_text bytes))
    else if is_byte 3 addrtype
    then (do
      domain_len ← recv_one
      got ← read_bytes domain_len
      bytes ← present got
      pure (raw bytes))
    else if is_byte 4 addrtype
    then (do got ← read_number 16; bytes ← present got; pure (text_host ipv6_text bytes))
    else stop returned

-- `portraw[0] * 256 + portraw[1]`, which fails on None.
unfoldable pub port_of : Option (List ℕ) → Action ℕ
unfolding pure stop
port_of (some (hi ∷ lo ∷ _)) = pure (hi * 256 + lo)
port_of _ = stop type_error

-- The request line.
unfoldable pub read_request : Action HostPort
read_request = do
  version ← recv_one
  require (is_byte 5 version)
  command ← recv_one
  require (is_byte 1 command)
  reserved ← recv_one
  require (is_byte 0 reserved)
  addrtype ← recv_one
  host ← read_host addrtype
  portraw ← read_number 2
  port ← port_of portraw
  pure (record { host = host; port = port })

answer : Option Socket → Action Socket
answer none = send (5 ∷ 1 ∷ 0 ∷ []) >> stop returned
answer (some socket) = send success_reply >> pure socket

module _ (network : Network) where
  connect_to : Option (List Address) → Action Socket
  connect_to none = stop gai_error
  connect_to (some addrs) = answer (create_outgoing network.attempt addrs)

  -- `create_outgoing_tcp_connection` with its `getaddrinfo`, and the reply.
  unfoldable pub connect : HostPort → Action Socket
  unfolding answer connect_to
  connect dst = connect_to (network.resolve dst.host dst.port)

  -- `handle` up to `raw_proxy`, which takes the socket that it returns.
  unfoldable pub handle : Option Text → List Mapping → Action Socket
  handle auth mappings = do
    greet auth
    check_credentials auth
    request ← read_request
    connect (remap mappings request)
