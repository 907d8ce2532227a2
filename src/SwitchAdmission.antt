-- ===== src/SwitchAdmission.antt =====
-- src/accept_backoff.hpp and `SwitchCapacity::limited_to` of src/switch_admission.hpp. Times are
-- nanoseconds of the clock.
pub mod Shares
mod Tests
use tuntom.Base.{
  Bool, Option, if◌then◌else◌, leb, ltb, min, none, some, ℕ, ◌%◌, ◌*◌, ◌+◌, ◌-◌, ◌/◌, ◌==◌, ◌^◌,
  ◌||◌,
}

-- `std::chrono::ceil<milliseconds>` of the time left, at most the maximum.
unfoldable pub deadline_timeout_ms : ℕ → ℕ → ℕ → ℕ
deadline_timeout_ms now deadline maximum =
    if leb deadline now then 0 else min maximum ((deadline - now + 999999) / 1000000)

-- `std::chrono::seconds(1)`
abbrev pub retry_interval : ℕ
retry_interval = 1000000000

pub record AcceptBackoff : Type 0 where
  pub retry_after : ℕ
  pub errors : ℕ
  pub last_error : ℕ

unfoldable pub ready : AcceptBackoff → ℕ → Bool
ready b now = leb b.retry_after now

unfoldable pub poll_timeout_ms : AcceptBackoff → ℕ → ℕ → ℕ
unfolding ready deadline_timeout_ms
poll_timeout_ms b now maximum =
    if ready b now then maximum else deadline_timeout_ms now b.retry_after maximum

-- `EAGAIN`, which `EWOULDBLOCK` is too, and `EINTR`.
abbrev pub would_block : ℕ
would_block = 11

abbrev pub interrupted : ℕ
interrupted = 4

unfoldable pub failed : AcceptBackoff → ℕ → ℕ → AcceptBackoff
failed b error now = if error == would_block || error == interrupted then b else record {
  retry_after = now + retry_interval;
  errors = (b.errors + 1) % 2 ^ 64;
  last_error = error;
}

abbrev pub fd_reserve : ℕ
fd_reserve = 16

pub record SwitchCapacity : Type 0 where
  pub ports : ℕ
  pub pending : ℕ

-- `none` is the exception. The counts of descriptors are far from wrapping.
unfoldable pub limited_to : SwitchCapacity → ℕ → ℕ → Option SwitchCapacity
limited_to c free_fds pending_fds =
    if pending_fds == 0 || ltb free_fds (fd_reserve + pending_fds + 1)
    then none
    else (let budget = free_fds - fd_reserve in
        let effective_pending = min c.pending ((budget - 1) / pending_fds) in
        some (record {
          ports = min c.ports (budget - effective_pending * pending_fds);
          pending = effective_pending;
        }))
