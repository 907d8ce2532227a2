-- ===== src/SwitchAdmission/Shares.antt =====
-- The descriptors of a switch are shared out within what is free, and a paused listener wakes in time.
use tuntom.Base.{arith, false, min, some, true, ℕ, ◌*◌, ◌+◌, ◌-◌, ◌/◌, ◌<◌, ◌≡◌, ◌≢◌, ◌≤◌}
use native.Mathlib.Nat.{div-mul-le_self, le-div_iff_mul-le, mul-le-mul_right}
use tuntom.SwitchAdmission.{
  SwitchCapacity, limited_to, fd_reserve, AcceptBackoff, ready, poll_timeout_ms, failed,
  would_block, interrupted, deadline_timeout_ms, retry_interval,
}

pending_share : (pending budget each : ℕ) → min pending ((budget - 1) / each) * each ≤ budget - 1
pending_share pending budget each = grind (
  arith,
  mul-le-mul_right {m = min pending ((budget - 1) / each)} {n = (budget - 1) / each} each
      (omega arith),
  div-mul-le_self (budget - 1) each,
)

-- A budget of more than one registration is enough for one.
one_share : (budget each : ℕ) → 0 < each → each + 1 ≤ budget → 1 ≤ (budget - 1) / each
one_share budget each h k =
    (le-div_iff_mul-le {k = each} {x = 1} {y = budget - 1} h).1 (omega arith)

-- A capacity that is limited to the free descriptors leaves the reserve, is at most what was wanted, and
-- has a port and, where one was wanted, a pending registration. Some port was wanted.
pub limited_to_lem :
    (c d : SwitchCapacity) (free each : ℕ)
    → limited_to c free each ≡ some d
    → 0 < c.ports
    → (d.ports + d.pending * each + fd_reserve ≤ free)
      × (0 < d.ports)
      × (d.ports ≤ c.ports)
      × (d.pending ≤ c.pending)
      × (min 1 c.pending ≤ d.pending)
unfolding limited_to
limited_to_lem c d free each e h = (
  ground (arith, pending_share c.pending (free - fd_reserve) each),
  ground (arith, pending_share c.pending (free - fd_reserve) each),
  ground arith,
  ground arith,
  ground (arith, one_share (free - fd_reserve) each),
)

-- After an error that pauses a listener it is not ready for a second, and a poll of the timeout that it
-- names, if not cut short, ends when it is.
pub backoff_lem :
    (b : AcceptBackoff) (error now later maximum : ℕ)
    → error ≢ would_block
    → error ≢ interrupted
    → now ≤ later
    → later < now + retry_interval
    → (ready (failed b error now) later ≡ false)
      × (poll_timeout_ms (failed b error now) later maximum < maximum
          → ready
              (failed b error now)
              (later + poll_timeout_ms (failed b error now) later maximum * 1000000)
            ≡ true)
unfolding ready failed poll_timeout_ms deadline_timeout_ms
backoff_lem b error now later maximum h k l m = (ground arith, λ t. ground (arith, t))
