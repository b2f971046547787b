-- ===== src/Scheduler/Pool.antt =====
-- crates/dedupe-core/src/scheduler.rs: `run_volume_jobs` with all its threads. A step is one send or
-- receive on a channel, one checkpoint passed or failed, one permit taken or given back, or the work
-- on one job. A checkpoint is passed at its last look at the token, where it is neither paused nor
-- cancelled, as the lock of the pause state is held until then; it fails on a cancelled token, and
-- otherwise waits. The steps say what may happen: a thread that waits and misses the notification
-- of `cancel`, or that needs the lock of a limiter whose holder waits in its checkpoint, takes its
-- step later.
pub mod Permits
pub mod Sound
pub mod Accounted
pub mod Further
pub mod Gone
pub mod Received
pub mod Finished
pub mod Turns
pub mod Progress
use Prim.Native.Nat.{min}
use safe_duplicate_finder.Base.{
  ℕ, zero, suc, ◌+◌, ◌-◌, ◌<◌, ◌≡◌, Bool, true, false, ◌||◌, Option, none, some, List, [], ◌∷◌,
  ◌++◌, map, length, Text, text_eq, if◌then◌else◌,
}
use safe_duplicate_finder.Error.{DedupeError, cancelled, Result, ok, err}
use safe_duplicate_finder.Model.{WorkerConfig}
use safe_duplicate_finder.Scheduler.{VolumeJob, Collected, receive, nothing_yet, clamp}

-- A job with its index, and a message with the result of one.
abbrev pub Task : Type 0 → Type 0
Task T = ℕ × VolumeJob T

abbrev pub Message : Type 0 → Type 0
Message R = ℕ × Result R

pub data Worker (T R : Type 0) : Type 0 where
  idle : Worker T R  -- in `jobs.recv()`
  taken : Task T → Worker T R  -- at the first checkpoint of the closure
  waiting : Task T → Worker T R  -- in `VolumeLimiter::acquire`
  permitted : Task T → Worker T R  -- with the permit, at the second checkpoint of the closure
  working : Task T → Worker T R  -- with the permit, in `work`
  sending : Message R → Worker T R  -- in `results.send(..)`
  gone : Worker T R

pub record Pool (T R : Type 0) : Type 0 where
  pub pending : List (Task T)  -- what the producer has not sent
  pub ready : Bool  -- the producer has passed the checkpoint for the first of them
  pub queue : List (Task T)
  pub workers : List (Worker T R)
  pub messages : List (Message R)
  pub collected : Collected R
  pub available : Text → ℕ  -- the permits of each volume
  pub cancelled : Bool
  pub paused : Bool

unfoldable pub enumerate_from : {A : Type 0} → ℕ → List A → List (ℕ × A)
enumerate_from index [] = []
enumerate_from index (x ∷ xs) = (index, x) ∷ enumerate_from (suc index) xs

unfoldable pub replicate : {A : Type 0} → ℕ → A → List A
replicate zero x = []
replicate (suc n) x = x ∷ replicate n x

abbrev pub per_volume : WorkerConfig → ℕ
per_volume config = clamp config.full_hash_workers_per_volume 1 64

abbrev pub worker_count : {T : Type 0} → WorkerConfig → List (VolumeJob T) → ℕ
worker_count config jobs = min (clamp config.metadata_workers 1 64) (length jobs)

abbrev pub queue_capacity : WorkerConfig → ℕ
queue_capacity config = clamp config.queue_capacity 1 65536

unfoldable pub new_pool : {T R : Type 0} → WorkerConfig → List (VolumeJob T) → Pool T R
new_pool config jobs = record {
  pending = enumerate_from 0 jobs;
  ready = false;
  queue = [];
  workers = replicate (worker_count config jobs) idle;
  messages = [];
  collected = nothing_yet jobs;
  available = λ volume. per_volume config;
  cancelled = false;
  paused = false;
}

-- `VolumeLimiter::acquire`, when a permit is there, and `VolumeLimiter::release`
abbrev pub acquire : Text → (Text → ℕ) → Text → ℕ
acquire volume available v = if text_eq v volume then available v - 1 else available v

abbrev pub release : ℕ → Text → (Text → ℕ) → Text → ℕ
release capacity volume available v =
    if text_eq v volume then min (available v + 1) capacity else available v

-- A worker stops behind a failure.
abbrev pub after_sending : {T R : Type 0} → Message R → Worker T R
after_sending (index, ok value) = idle
after_sending (index, err error) = gone

-- The first failure that is received cancels the token.
abbrev pub cancels : {R : Type 0} → Message R → Option DedupeError → Bool
cancels (index, err error) none = true
cancels _ _ = false

abbrev pub AllGone : {T R : Type 0} → List (Worker T R) → Type 0
AllGone [] = Unit
AllGone (gone ∷ workers) = AllGone workers
AllGone (_ ∷ workers) = ⊥

module _ {T R : Type 0} (config : WorkerConfig) (Gives : T → Result R → Type 0) where
  pub data Step (p : Pool T R) : Pool T R → Type 0 where
    -- the producer
    produce_check :
        (task : Task T) (rest : List (Task T))
        → p.pending ≡ task ∷ rest
        → p.ready ≡ false
        → p.cancelled ≡ false
        → p.paused ≡ false
        → Step p (record p { ready = true })
    produce :
        (task : Task T) (rest : List (Task T))
        → p.pending ≡ task ∷ rest
        → p.ready ≡ true
        → length p.queue < queue_capacity config
        → Step p (record p { pending = rest; ready = false; queue = p.queue ++ (task ∷ []) })
    produce_cancelled :
        (task : Task T) (rest : List (Task T))
        → p.pending ≡ task ∷ rest
        → p.ready ≡ false
        → p.cancelled ≡ true
        → length p.messages < queue_capacity config
        → Step p
            (record p { pending = []; messages = p.messages ++ ((task.0, err cancelled) ∷ []) })
    produce_refused :
        (task : Task T) (rest : List (Task T))
        → p.pending ≡ task ∷ rest
        → p.ready ≡ true
        → AllGone p.workers
        → Step p (record p { pending = []; ready = false })
    -- a worker, between those before and those behind it
    take :
        (task : Task T) (rest : List (Task T)) (front back : List (Worker T R))
        → p.workers ≡ front ++ (idle ∷ back)
        → p.queue ≡ task ∷ rest
        → Step p (record p { queue = rest; workers = front ++ (taken task ∷ back) })
    check_taken :
        (task : Task T) (front back : List (Worker T R))
        → p.workers ≡ front ++ (taken task ∷ back)
        → p.cancelled ≡ false
        → p.paused ≡ false
        → Step p (record p { workers = front ++ (waiting task ∷ back) })
    cancel_taken :
        (task : Task T) (front back : List (Worker T R))
        → p.workers ≡ front ++ (taken task ∷ back)
        → p.cancelled ≡ true
        → Step p (record p { workers = front ++ (sending (task.0, err cancelled) ∷ back) })
    acquire_permit :
        (task : Task T) (front back : List (Worker T R))
        → p.workers ≡ front ++ (waiting task ∷ back)
        → p.cancelled ≡ false
        → p.paused ≡ false
        → 0 < p.available (task.1.volume_id)
        → Step p (record p {
          workers = front ++ (permitted task ∷ back);
          available = acquire (task.1.volume_id) p.available;
        })
    cancel_waiting :
        (task : Task T) (front back : List (Worker T R))
        → p.workers ≡ front ++ (waiting task ∷ back)
        → p.cancelled ≡ true
        → Step p (record p { workers = front ++ (sending (task.0, err cancelled) ∷ back) })
    check_permitted :
        (task : Task T) (front back : List (Worker T R))
        → p.workers ≡ front ++ (permitted task ∷ back)
        → p.cancelled ≡ false
        → p.paused ≡ false
        → Step p (record p { workers = front ++ (working task ∷ back) })
    cancel_permitted :
        (task : Task T) (front back : List (Worker T R))
        → p.workers ≡ front ++ (permitted task ∷ back)
        → p.cancelled ≡ true
        → Step p (record p {
          workers = front ++ (sending (task.0, err cancelled) ∷ back);
          available = release (per_volume config) (task.1.volume_id) p.available;
        })
    work :
        (task : Task T) (r : Result R) (front back : List (Worker T R))
        → p.workers ≡ front ++ (working task ∷ back)
        → Gives (task.1.value) r
        → Step p (record p {
          workers = front ++ (sending (task.0, r) ∷ back);
          available = release (per_volume config) (task.1.volume_id) p.available;
        })
    send :
        (message : Message R) (front back : List (Worker T R))
        → p.workers ≡ front ++ (sending message ∷ back)
        → length p.messages < queue_capacity config
        → Step p (record p {
          workers = front ++ (after_sending message ∷ back);
          messages = p.messages ++ (message ∷ []);
        })
    leave :
        (front back : List (Worker T R))
        → p.workers ≡ front ++ (idle ∷ back)
        → p.pending ≡ []
        → p.queue ≡ []
        → Step p (record p { workers = front ++ (gone ∷ back) })
    -- the result loop, and calls of `cancel`, `pause` and `resume` from elsewhere
    collect :
        (message : Message R) (rest : List (Message R))
        → p.messages ≡ message ∷ rest
        → Step p (record p {
          messages = rest;
          collected = receive message p.collected;
          cancelled = p.cancelled || cancels message p.collected.first_error;
        })
    cancel : Step p (record p { cancelled = true })
    set_paused : (paused : Bool) → Step p (record p { paused = paused })

  pub data Run (p : Pool T R) : Pool T R → Type 0 where
    here : Run p p
    after : {q r : Pool T R} → Run p q → Step q r → Run p r

-- The channel of the results is closed and empty.
pub record IsDone {T R : Type 0} (p : Pool T R) : Type 0 where
  pub producer : p.pending ≡ []
  pub all_gone : AllGone p.workers
  pub received : p.messages ≡ []
