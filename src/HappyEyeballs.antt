-- ===== src/HappyEyeballs.antt =====
-- The test server for Happy Eyeballs: `on_control_connected`, `test_listen` and
-- `on_test_connected` of happy_eyeballs/server.py. A session of the two test ports is a step
-- relation; its time is in milliseconds from when the ports are bound.
pub mod Reply
pub mod Timing
pub mod Tests
use drivers_evergreen_tools.Common.{
  ℕ, suc, ◌+◌, ◌≤◌, ◌≡◌, ◌≢◌, ◌/◌, ◌%◌, Bool, true, false, List, [], ◌∷◌, ◌++◌, Option, none, some,
  ltb, ◌==◌, if◌then◌else◌,
}

pub data Family : Type 0 where
  ipv4 ipv6 : Family

-- What a connection to the control port asks for.
pub data Control : Type 0 where
  ports : Family → Control
  ready : Control
  shut_down : Control
  unexpected : ℕ → Control

unfoldable pub control_of : ℕ → Control
control_of byte =
    if byte == 4
    then ports ipv4
    else if byte == 6
    then ports ipv6
    else if byte == 240
    then ready
    else if byte == 255
    then shut_down
    else unexpected byte

-- to_bytes(2, "big"), which raises on a number that is too large.
unfoldable pub to_bytes : ℕ → Option (List ℕ)
to_bytes n = if ltb n 65536 then some (n / 256 ∷ n % 256 ∷ []) else none

both_ports : Option (List ℕ) → Option (List ℕ) → Option (List ℕ)
both_ports none _ = none
both_ports (some _) none = none
both_ports (some first) (some second) = some (1 ∷ first ++ second)

-- What is written on the control connection before it is closed; none for an exception.
unfoldable pub control_reply : Control → ℕ → ℕ → Option (List ℕ)
unfolding both_ports to_bytes
control_reply (ports slow) ipv4_port ipv6_port =
    both_ports (to_bytes ipv4_port) (to_bytes ipv6_port)
control_reply ready _ _ = some (1 ∷ [])
control_reply shut_down _ _ = some []
control_reply (unexpected _) _ _ = some []

pub data Effect : Type 0 where
  -- The event of the shutdown is set.
  shutdown : Effect
  -- sys.exit(1)
  exit : Effect
  -- The test ports serve.
  tests : Family → Effect
  nothing : Effect

unfoldable pub control_effect : Control → Effect
control_effect (ports slow) = tests slow
control_effect ready = nothing
control_effect shut_down = shutdown
control_effect (unexpected _) = exit

-- A test server is bound and sleeps; it accepts connections; it is closed.
pub data Phase : Type 0 where
  sleeping serving closed : Phase

pub record Contact : Type 0 where
  pub family : Family
  pub at : ℕ
  pub payload : ℕ

pub record Session : Type 0 where
  pub now : ℕ
  pub phase : Family → Phase
  -- The event `connected` is set.
  pub connected : Bool
  pub contacts : List Contact

abbrev pub same_family : Family → Family → Bool
same_family ipv4 ipv4 = true
same_family ipv4 ipv6 = false
same_family ipv6 ipv4 = false
same_family ipv6 ipv6 = true

unfoldable pub delay : Family → Family → ℕ
delay slow family = if same_family family slow then 2000 else 1000

unfoldable pub payload_of : Family → ℕ
payload_of ipv4 = 4
payload_of ipv6 = 6

abbrev pub set_phase : Family → Phase → Session → Session
set_phase family p s = record s {
  phase = λ other. if same_family other family then p else s.phase other;
}

abbrev pub contact : Family → Session → Session
contact family s = record s {
  contacts = s.contacts ++ record { family = family; at = s.now; payload = payload_of family } ∷ [];
}

abbrev pub initial : Session
initial = record { now = 0; phase = λ family. sleeping; connected = false; contacts = [] }

pub data Step (slow : Family) : Session → Session → Type 0 where
  -- Time passes.
  ticks : (s : Session) → Step slow s (record s { now = suc s.now })
  -- The sleep of `test_listen` is over: `start_serving`. It may be late.
  starts :
      (s : Session) (family : Family)
      → s.phase family ≡ sleeping
      → delay slow family ≤ s.now
      → Step slow s (set_phase family serving s)
  -- A client connects and is written the payload, by `on_test_connected`.
  accepts :
      (s : Session) (family : Family) → s.phase family ≡ serving → Step slow s (contact family s)
  -- The connection is closed, and the event set.
  sets : (s : Session) → s.contacts ≢ [] → Step slow s (record s { connected = true })
  -- `connected.wait()` returns, and the server is left.
  stops :
      (s : Session) (family : Family)
      → s.phase family ≡ serving
      → s.connected ≡ true
      → Step slow s (set_phase family closed s)

-- The sessions that a request for a slow family can come to.
pub data Reachable (slow : Family) : Session → Type 0 where
  start : Reachable slow initial
  step : {s s' : Session} → Reachable slow s → Step slow s s' → Reachable slow s'
