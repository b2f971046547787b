-- ===== src/Scheduler/Pool/Received.antt =====
-- The messages that the loop over the results in crates/dedupe-core/src/scheduler.rs receives.
use mathlib.Core.List.{append-nil}
use safe_duplicate_finder.Base.{◌≡◌, refl, Option, some, none, List, [], ◌∷◌, ◌++◌}
use safe_duplicate_finder.Error.{DedupeError, Result, ok, err}
use safe_duplicate_finder.Model.{WorkerConfig}
use safe_duplicate_finder.Scheduler.{VolumeJob, Collected, receive}
use safe_duplicate_finder.Scheduler.Pool.{
  Message, Pool, new_pool, Step, produce_check, produce, produce_cancelled, produce_refused, take,
  check_taken, cancel_taken, acquire_permit, cancel_waiting, check_permitted, cancel_permitted,
  work, send, leave, collect, cancel, set_paused, Run, here, after,
}

module _ {R : Type 0} where
  -- The failure that stands first in some messages.
  abbrev pub first_failure : List (Message R) → Option DedupeError
  first_failure [] = none
  first_failure ((i, ok r) ∷ ms) = first_failure ms
  first_failure ((i, err e) ∷ ms) = some e

  one_more :
      (ms : List (Message R)) (m : Message R) (c : Collected R)
      → c.first_error ≡ first_failure ms
      → (receive m c).first_error ≡ first_failure (ms ++ (m ∷ []))
  unfolding receive
  one_more [] (i, ok r) c h = simp (h, receive) refl
  one_more [] (i, err e) c h = simp (h, receive) refl
  one_more ((j, ok r) ∷ ms) m c h = one_more ms m c h
  one_more ((j, err e) ∷ ms) (i, ok r) c h = simp (h, receive) refl
  one_more ((j, err e) ∷ ms) (i, err x) c h = simp (h, receive) refl

module _ {T R : Type 0} (config : WorkerConfig) (Gives : T → Result R → Type 0) where
  -- The message that a step of the loop over the results receives.
  abbrev news : {p q : Pool T R} → Step config Gives p q → List (Message R)
  news (collect m rest e) = m ∷ []
  news _ = []

  -- The messages of a run in the order in which they were received.
  abbrev pub received : {p q : Pool T R} → Run config Gives p q → List (Message R)
  received here = []
  received (after run step) = received run ++ news step

  -- What the loop has kept is the first failure of those that it received.
  pub Run-first_failure :
      (jobs : List (VolumeJob T)) {p : Pool T R} (run : Run config Gives (new_pool config jobs) p)
      → p.collected.first_error ≡ first_failure (received run)
  unfolding new_pool
  Run-first_failure jobs here = refl
  Run-first_failure jobs (after run step) = by_step step (received run) (Run-first_failure jobs run)
    where
      by_step :
          {p q : Pool T R} (step : Step config Gives p q) (ms : List (Message R))
          → p.collected.first_error ≡ first_failure ms
          → q.collected.first_error ≡ first_failure (ms ++ news step)
      by_step {p} (collect m rest e) ms h = one_more ms m p.collected h
      by_step (produce_check t rest e y c u) ms h = rw (append-nil ms) h
      by_step (produce t rest e y l) ms h = rw (append-nil ms) h
      by_step (produce_cancelled t rest e y c l) ms h = rw (append-nil ms) h
      by_step (produce_refused t rest e y g) ms h = rw (append-nil ms) h
      by_step (take t rest front back e f) ms h = rw (append-nil ms) h
      by_step (check_taken t front back e c u) ms h = rw (append-nil ms) h
      by_step (cancel_taken t front back e c) ms h = rw (append-nil ms) h
      by_step (acquire_permit t front back e c u pos) ms h = rw (append-nil ms) h
      by_step (cancel_waiting t front back e c) ms h = rw (append-nil ms) h
      by_step (check_permitted t front back e c u) ms h = rw (append-nil ms) h
      by_step (cancel_permitted t front back e c) ms h = rw (append-nil ms) h
      by_step (work t r front back e g) ms h = rw (append-nil ms) h
      by_step (send n front back e l) ms h = rw (append-nil ms) h
      by_step (leave front back e x y) ms h = rw (append-nil ms) h
      by_step (cancel) ms h = rw (append-nil ms) h
      by_step (set_paused b) ms h = rw (append-nil ms) h
