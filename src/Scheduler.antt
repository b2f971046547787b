-- ===== src/Scheduler.antt =====
-- crates/dedupe-core/src/scheduler.rs: the recommended numbers of workers, the jobs of a volume, and
-- the promise of `run_volume_jobs` that its callers use.
pub mod Slots
pub mod Pool
pub mod InTurn
use Prim.Native.Nat.{◌/◌, min, max}
use safe_duplicate_finder.Base.{ℕ, zero, suc, Option, none, some, List, [], ◌∷◌, map, Text}
use safe_duplicate_finder.Error.{DedupeError, Result, ok, err, state, task_lost}
use safe_duplicate_finder.Error as Error
use safe_duplicate_finder.Model.{WorkerConfig}
use safe_duplicate_finder.Ports.{Sys, Event}
use safe_duplicate_finder.Ports.Monad.{Action}
use safe_duplicate_finder.Ports.Hoare.{Post}
use safe_duplicate_finder.FullHash.Streaming.{Observed}

pub data StorageProfile : Type 0 where
  hdd sata_ssd nvme network unknown : StorageProfile

-- `x.clamp(low, high)`
abbrev pub clamp : ℕ → ℕ → ℕ → ℕ
clamp x low high = max low (min x high)

unfoldable pub workers_per_volume : StorageProfile → ℕ → ℕ
workers_per_volume hdd cpus = 1
workers_per_volume network cpus = 1
workers_per_volume unknown cpus = 1
workers_per_volume sata_ssd cpus = 2
workers_per_volume nvme cpus = min 4 (max (cpus / 3) 1)

unfoldable pub recommended : StorageProfile → ℕ → WorkerConfig
recommended profile logical_cpus = record {
  metadata_workers = clamp (logical_cpus / 2) 1 8;
  full_hash_workers_per_volume = workers_per_volume profile logical_cpus;
  queue_capacity = 1024;
}

pub record VolumeJob (T : Type 0) : Type 0 where
  pub volume_id : Text
  pub value : T

-- One result for each job, in the order of the jobs.
abbrev pub Results : {T R : Type 0} → (T → R → Type 0) → List (VolumeJob T) → List R → Type 0
Results Q [] [] = Unit
Results Q (job ∷ jobs) (r ∷ rs) = Q job.value r × Results Q jobs rs
Results Q _ _ = ⊥

-- The result loop's `ordered` and `first_error`.
pub record Collected (R : Type 0) : Type 0 where
  pub ordered : List (Option R)
  pub first_error : Option DedupeError

unfoldable pub set_at : {R : Type 0} → ℕ → R → List (Option R) → List (Option R)
set_at i value [] = []
set_at zero value (_ ∷ slots) = some value ∷ slots
set_at (suc i) value (slot ∷ slots) = slot ∷ set_at i value slots

-- One turn of the result loop.
unfoldable pub receive : {R : Type 0} → ℕ × Result R → Collected R → Collected R
receive (index, ok value) c = elim c.first_error [
  | none ↦ record { ordered = set_at index value c.ordered; first_error = none }
  | some _ ↦ c
]
receive (index, err error) c = elim c.first_error [
  | none ↦ record { ordered = c.ordered; first_error = some error }
  | some _ ↦ c
]

-- `ordered.into_iter().map(..).collect()`
unfoldable pub all_present : {R : Type 0} → List (Option R) → Result (List R)
all_present [] = ok []
all_present (none ∷ slots) = err (state task_lost)
all_present (some value ∷ slots) = Error.◌>>=◌ (all_present slots) (λ values. ok (value ∷ values))

unfoldable pub finish : {R : Type 0} → Collected R → Result (List R)
finish c = elim c.first_error [ some error ↦ err error | none ↦ all_present c.ordered ]

abbrev pub nothing_yet : {T R : Type 0} → List (VolumeJob T) → Collected R
nothing_yet jobs = record { ordered = map (λ _. none) jobs; first_error = none }

-- `run_volume_jobs` on one control token
pub record Runner (E : Type 0) : Type 1 where
  pub run_volume_jobs :
      {T R : Type 0}
      → List (VolumeJob T)
      → WorkerConfig
      → (T → Action (Sys E) R)
      → Action (Sys E) (List R)

-- What a job is known to give when it is started later in the run, and is kept while files are looked
-- at, is known of the results at the end of the run; and jobs that only look at files only look at
-- files together.
pub record RunnerLaws {E : Type 0} (runner : Runner E) : Type 1 where
  pub run_volume_jobs-Results :
      {T R : Type 0} (Q : T → R → List Event → Type 0) (jobs : List (VolumeJob T))
      (workers : WorkerConfig) (work : T → Action (Sys E) R) (s : Sys E)
      → ((t : T) (r : R) (u v : List Event) → Observed u v → Q t r u → Q t r v)
      → ((t : T) (s' : Sys E)
          → Observed s.trace s'.trace
          → Post
              (λ r s''. Q t r s''.trace × Observed s'.trace s''.trace)
              (λ e s''. Observed s'.trace s''.trace)
              (work t s'))
      → Post
          (λ rs s'. Results (λ t r. Q t r s'.trace) jobs rs × Observed s.trace s'.trace)
          (λ e s'. Observed s.trace s'.trace)
          (runner.run_volume_jobs jobs workers work s)
