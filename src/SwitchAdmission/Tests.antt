-- ===== src/SwitchAdmission/Tests.antt =====
-- Forty descriptors, a refused connection, and the theorems at them.
use tuntom.Base.{arith, false, min, refl, some, true, ◌*◌, ◌+◌, ◌<◌, ◌≡◌, ◌≤◌}
use tuntom.SwitchAdmission.{
  SwitchCapacity, AcceptBackoff, limited_to, fd_reserve, failed, ready, poll_timeout_ms,
}
use tuntom.SwitchAdmission.Shares.{limited_to_lem, backoff_lem}

abbrev wanted : SwitchCapacity
wanted = record { ports = 256; pending = 16 }

abbrev shared_out : SwitchCapacity
shared_out = record { ports = 8; pending = 16 }

limited_to_runs : limited_to wanted 40 1 ≡ some shared_out
unfolding limited_to
limited_to_runs = refl

limited_to_lem_example :
    (8 + 16 * 1 + fd_reserve ≤ 40) × (0 < 8) × (8 ≤ 256) × (16 ≤ 16) × (min 1 16 ≤ 16)
limited_to_lem_example = limited_to_lem wanted shared_out 40 1 limited_to_runs (omega arith)

abbrev fresh : AcceptBackoff
fresh = record { retry_after = 0; errors = 0; last_error = 0 }

backoff_lem_example :
    (ready (failed fresh 24 100) 200 ≡ false)
    × (poll_timeout_ms (failed fresh 24 100) 200 5000 < 5000
        → ready
            (failed fresh 24 100)
            (200 + poll_timeout_ms (failed fresh 24 100) 200 5000 * 1000000)
          ≡ true)
backoff_lem_example =
    backoff_lem fresh 24 100 200 5000 (λ e. absurd (omega (arith, e)))
      (λ e. absurd (omega (arith, e))) (omega arith) (omega arith)
