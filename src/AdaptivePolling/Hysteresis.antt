-- ===== src/AdaptivePolling/Hysteresis.antt =====
-- Batches only after a streak of immediate polls, and what the polling keeps on the way.
use tuntom.Base.{
  Bool, List, [], arith, false, if◌then◌else◌, leb, true, ℕ, ◌&&◌, ◌+◌, ◌<◌, ◌^◌, ◌||◌, ◌∷◌, ◌≡◌,
  ◌≤◌,
}
use tuntom.AdaptivePolling.{
  AdaptivePolling, Event, poll, backlog, slice_limit, immediate_poll, entry_streak, start,
  observe_poll, observe_backlog, leave_overload, confirm_backlog, enter_overload, batch_size,
  note_slice_limit, step, run,
}

-- The immediate polls at the end of a history, the newest first, as far as no other poll is between.
unfoldable pub streak : List Event → ℕ
streak [] = 0
streak (poll waited ∷ rest) = if leb waited immediate_poll then streak rest + 1 else 0
streak (backlog ready now ∷ rest) = streak rest
streak (slice_limit ∷ rest) = streak rest

-- Some moment of the history, the newest first, had a streak and a backlog.
unfoldable pub proved : List Event → Bool
proved [] = false
proved (poll waited ∷ rest) = proved rest
proved (backlog ready now ∷ rest) = (ready && leb entry_streak (streak rest)) || proved rest
proved (slice_limit ∷ rest) = proved rest

pub record Follows (history : List Event) (p : AdaptivePolling) : Type 0 where
  pub counted : p.busy_streak ≤ streak history
  pub bounded : p.busy_streak < 2 ^ 32
  pub grounded : p.overloaded ≡ true → proved history ≡ true

pub start-Follows : Follows [] start
start-Follows = record { counted = omega arith; bounded = omega arith; grounded = λ e. cc }

step-Follows :
    (history : List Event) (p : AdaptivePolling) (e : Event)
    → Follows history p
    → Follows (e ∷ history) (step p e)
unfolding step streak proved observe_poll observe_backlog leave_overload confirm_backlog
    enter_overload note_slice_limit
step-Follows history p (poll waited) f = record {
  counted = ground (arith, f.counted);
  bounded = ground (arith, f.bounded);
  grounded = λ h. ground (arith, f.grounded, h);
}
step-Follows history p (backlog ready now) f = record {
  counted = ground (arith, f.counted);
  bounded = ground (arith, f.bounded);
  grounded = λ h. ground (arith, f.grounded, f.counted, h);
}
step-Follows history p slice_limit f = record {
  counted = f.counted;
  bounded = f.bounded;
  grounded = f.grounded;
}

-- The history of a sequence of events, the newest first.
unfoldable pub past : List Event → List Event → List Event
past [] history = history
past (e ∷ rest) history = past rest (e ∷ history)

run-Follows :
    (es history : List Event) (p : AdaptivePolling)
    → Follows history p
    → Follows (past es history) (run p es)
unfolding run past
run-Follows [] history p f = f
run-Follows (e ∷ rest) history p f =
    run-Follows rest (e ∷ history) (step p e) (step-Follows history p e f)

batch_streak :
    (p : AdaptivePolling) (history : List Event)
    → Follows history p
    → batch_size p ≡ 16
    → 128 ≤ streak history
unfolding batch_size
batch_streak p history f h = ground (arith, f.counted, h)

batch_bound : (p : AdaptivePolling) → batch_size p ≤ 16
unfolding batch_size
batch_bound p = ground arith

batch_overloaded : (p : AdaptivePolling) → 1 < batch_size p → p.overloaded ≡ true
unfolding batch_size
batch_overloaded p h = ground (arith, h)

-- From the start, whatever the event loop observes, batches of more than one are served only if at
-- some moment a backlog was confirmed after eight immediate polls with no other poll between them,
-- and batches of sixteen only if at least 128 immediate polls in a row are the latest polls.
pub batch_lem :
    (es : List Event)
    → (1 < batch_size (run start es) → proved (past es []) ≡ true)
      × (batch_size (run start es) ≡ 16 → 128 ≤ streak (past es []))
      × (batch_size (run start es) ≤ 16)
batch_lem es = (
  λ h. f.grounded (batch_overloaded (run start es) h),
  λ h. batch_streak (run start es) (past es []) f h,
  batch_bound (run start es),
)
  where
    f : Follows (past es []) (run start es)
    f = run-Follows es [] start start-Follows
