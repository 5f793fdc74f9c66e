-- ===== src/HappyEyeballs/Tests.antt =====
-- Replies and sessions of the test server.
use drivers_evergreen_tools.Common.{ℕ, zero, suc, ◌≡◌, refl, arith, false, List, [], some}
use drivers_evergreen_tools.HappyEyeballs.{
  ipv4, ipv6, ports, exit, control_of, control_reply, control_effect, sleeping, serving, Session,
  set_phase, contact, delay, Reachable, start, step, ticks, starts, accepts,
}
use drivers_evergreen_tools.HappyEyeballs.Reply.{request, read_reply, read_reply-control_reply}
use drivers_evergreen_tools.HappyEyeballs.Timing.{IsSound, Reachable-IsSound}

stray_byte : control_effect (control_of 5) ≡ exit
unfolding control_of control_effect
stray_byte = refl

read_reply-control_reply_example :
    (reply : List ℕ) × (control_of (request ipv6) ≡ ports ipv6)
    × (control_reply (control_of (request ipv6)) 51000 51001 ≡ some reply)
    × (read_reply reply ≡ some (51000, 51001))
read_reply-control_reply_example =
    read_reply-control_reply ipv6 51000 51001 (omega arith) (omega arith)

abbrev at_time : ℕ → Session
at_time n = record { now = n; phase = λ family. sleeping; connected = false; contacts = [] }

waits : (n : ℕ) → Reachable ipv6 (at_time n)
waits zero = start
waits (suc n) = step (waits n) (ticks (at_time n))

-- Both families serve, where the client of IPv4 comes late.
abbrev both : Session
both = set_phase ipv6 serving (set_phase ipv4 serving (at_time 2000))

abbrev both_met : Session
both_met = contact ipv6 (contact ipv4 both)

both_met-Reachable : Reachable ipv6 both_met
unfolding delay
both_met-Reachable =
    step
      (step
        (step (step (waits 2000) (starts (at_time 2000) ipv4 refl (omega arith)))
          (starts (set_phase ipv4 serving (at_time 2000)) ipv6 refl (omega arith)))
        (accepts both ipv4 refl))
      (accepts (contact ipv4 both) ipv6 refl)

Reachable-IsSound_example : IsSound ipv6 both_met
Reachable-IsSound_example = Reachable-IsSound ipv6 both_met both_met-Reachable
