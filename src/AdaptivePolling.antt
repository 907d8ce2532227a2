-- ===== src/AdaptivePolling.antt =====
-- src/adaptive_polling.hpp: when the event loop works in batches. Times are nanoseconds of the clock.
pub mod Hysteresis
mod Tests
use tuntom.Base.{
  Bool, List, [], false, if◌then◌else◌, leb, not, true, ℕ, ◌%◌, ◌&&◌, ◌*◌, ◌+◌, ◌-◌, ◌==◌, ◌^◌,
  ◌||◌, ◌∷◌,
}

abbrev pub immediate_poll : ℕ
immediate_poll = 5000

abbrev pub idle_poll : ℕ
idle_poll = 50000

abbrev pub backlog_grace : ℕ
backlog_grace = 32 * 1000000

abbrev pub entry_streak : ℕ
entry_streak = 8

pub record AdaptivePolling : Type 0 where
  pub overloaded : Bool
  pub backlog_seen : Bool
  pub busy_streak : ℕ
  pub overload_entries : ℕ
  pub backlog_confirmations : ℕ
  pub slice_limit_hits : ℕ
  pub last_backlog : ℕ

abbrev pub start : AdaptivePolling
start = record {
  overloaded = false;
  backlog_seen = false;
  busy_streak = 0;
  overload_entries = 0;
  backlog_confirmations = 0;
  slice_limit_hits = 0;
  last_backlog = 0;
}

unfoldable pub leave_overload : AdaptivePolling → AdaptivePolling
leave_overload p = record p { overloaded = false; busy_streak = 0; backlog_seen = false }

unfoldable pub observe_poll : AdaptivePolling → ℕ → AdaptivePolling
unfolding leave_overload
observe_poll p waited =
    if leb idle_poll waited
    then leave_overload p
    else if leb waited immediate_poll
    then (if p.busy_streak == 2 ^ 32 - 1 then p else record p { busy_streak = p.busy_streak + 1 })
    else record p { busy_streak = 0 }

unfoldable pub should_check_backlog : AdaptivePolling → Bool
should_check_backlog p = p.overloaded || leb entry_streak p.busy_streak

unfoldable pub confirm_backlog : AdaptivePolling → ℕ → AdaptivePolling
confirm_backlog p now = record p {
  backlog_confirmations = (p.backlog_confirmations + 1) % 2 ^ 64;
  last_backlog = now;
  backlog_seen = true;
}

unfoldable pub enter_overload : AdaptivePolling → AdaptivePolling
enter_overload p = record p {
  overloaded = true;
  overload_entries = (p.overload_entries + 1) % 2 ^ 64;
}

unfoldable pub observe_backlog : AdaptivePolling → Bool → ℕ → AdaptivePolling
unfolding leave_overload confirm_backlog enter_overload
observe_backlog p ready now =
    let confirmed = confirm_backlog p now in
    if ready
    then (if not p.overloaded && leb entry_streak p.busy_streak
        then enter_overload confirmed
        else confirmed)
    else if p.overloaded && p.backlog_seen && leb (p.last_backlog + backlog_grace) now
    then leave_overload p
    else p

unfoldable pub batch_size : AdaptivePolling → ℕ
batch_size p =
    if not p.overloaded
    then 1
    else if leb 128 p.busy_streak
    then 16
    else if leb 32 p.busy_streak
    then 8
    else 4

unfoldable pub note_slice_limit : AdaptivePolling → AdaptivePolling
note_slice_limit p = record p { slice_limit_hits = (p.slice_limit_hits + 1) % 2 ^ 64 }

-- What the event loop tells the polling, in its order.
pub data Event : Type 0 where
  poll : ℕ → Event
  backlog : Bool → ℕ → Event
  slice_limit : Event

unfoldable pub step : AdaptivePolling → Event → AdaptivePolling
unfolding observe_poll observe_backlog note_slice_limit
step p (poll waited) = observe_poll p waited
step p (backlog ready now) = observe_backlog p ready now
step p slice_limit = note_slice_limit p

unfoldable pub run : AdaptivePolling → List Event → AdaptivePolling
unfolding step
run p [] = p
run p (e ∷ rest) = run (step p e) rest
