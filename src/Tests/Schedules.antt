-- ===== src/Tests/Schedules.antt =====
-- The theorems on the pool with threads, applied to a run with one job.
use safe_duplicate_finder.Base.{
  ◌≤◌, ◌⊎◌, ℕ, ◌+◌, ◌≡◌, refl, some, none, false, List, [], ◌∷◌, arith,
}
use safe_duplicate_finder.Error.{Result, ok}
use safe_duplicate_finder.Model.{WorkerConfig}
use safe_duplicate_finder.Scheduler.{VolumeJob, set_at, receive, finish}
use safe_duplicate_finder.Scheduler.Pool.{
  working, gone, Pool, new_pool, enumerate_from, replicate, acquire, release, produce, take,
  produce_check, check_taken, acquire_permit, check_permitted, set_paused, work, send, leave,
  collect, Run, here, after, IsDone,
}
use safe_duplicate_finder.Scheduler.Pool.Permits.{holders, permits_kept}
use safe_duplicate_finder.Scheduler.Pool.Turns.{turns, steps_left, turns_bounded}
use safe_duplicate_finder.Scheduler.Pool.Progress.{CanMove, no_deadlock}
use safe_duplicate_finder.Scheduler.Pool.Received.{received}
use safe_duplicate_finder.Scheduler.Pool.Finished.{Ended, finish-Ended}

abbrev config : WorkerConfig
config = record { metadata_workers = 1; full_hash_workers_per_volume = 1; queue_capacity = 1 }

abbrev job : VolumeJob ℕ
job = record { volume_id = 1 ∷ []; value = 5 }

abbrev jobs : List (VolumeJob ℕ)
jobs = job ∷ []

-- The work of a job is to add one.
abbrev Gives : ℕ → Result ℕ → Type 0
Gives n r = r ≡ ok (n + 1)

abbrev first : Pool ℕ ℕ
first = new_pool config jobs

abbrev busy : Pool ℕ ℕ
busy = record first {
  pending = [];
  workers = working (0, job) ∷ [];
  available = acquire (1 ∷ []) first.available;
}

busy-Run : Run config Gives first busy
unfolding new_pool enumerate_from replicate
busy-Run =
    after
      (after
        (after
          (after
            (after
              (after (after here (produce_check (0, job) [] refl refl refl refl))
                (produce (0, job) [] refl refl (omega arith)))
              (take (0, job) [] [] [] refl refl))
            (check_taken (0, job) [] [] refl refl refl))
          (acquire_permit (0, job) [] [] refl refl refl (omega arith)))
        (check_permitted (0, job) [] [] refl refl refl))
      (set_paused false)

abbrev last : Pool ℕ ℕ
last = record busy {
  workers = gone ∷ [];
  available = release 1 (1 ∷ []) busy.available;
  collected = record { ordered = some 6 ∷ []; first_error = none };
}

last-Run : Run config Gives first last
unfolding new_pool set_at receive
last-Run =
    after
      (after
        (after (after busy-Run (work (0, job) (ok 6) [] [] refl refl))
          (send (0, ok 6) [] [] refl (omega arith)))
        (collect (0, ok 6) [] refl))
      (leave [] [] refl refl refl)

permits_kept_example : busy.available (1 ∷ []) + holders (1 ∷ []) busy.workers ≡ 1
permits_kept_example = permits_kept config Gives jobs busy-Run (1 ∷ [])

finish-Ended_example :
    Ended config Gives jobs (received config Gives last-Run) (finish last.collected)
unfolding new_pool
finish-Ended_example =
    finish-Ended config Gives jobs (omega arith) last-Run
      (record { producer = refl; all_gone = tt; received = refl })

turns_bounded_example : turns config Gives busy-Run + steps_left busy ≤ 10
turns_bounded_example = turns_bounded config Gives jobs busy-Run

no_deadlock_example : IsDone busy ⊎ CanMove config Gives (λ n. (ok (n + 1), refl)) busy
unfolding new_pool
no_deadlock_example = no_deadlock config Gives (λ n. (ok (n + 1), refl)) jobs busy-Run refl
