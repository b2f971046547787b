-- ===== src/Scheduler/InTurn.antt =====
-- One schedule of `run_volume_jobs` of crates/dedupe-core/src/scheduler.rs on the state of the ports,
-- which every configuration allows: the producer, a worker and the loop over the results take turns,
-- so that a job is sent when the one before it has been received.
pub mod Promise
use safe_duplicate_finder.Base.{ℕ, zero, suc, List, [], ◌∷◌}
use safe_duplicate_finder.Error.{Result, ok, err}
use safe_duplicate_finder.Model.{WorkerConfig}
use safe_duplicate_finder.Ports.{Ports, Sys, checkpoint, cancel_control}
use safe_duplicate_finder.Ports.Monad.{Action, ◌>>=◌, ◌>>◌, pure, branch, when, lift_result}
use safe_duplicate_finder.Scheduler.{VolumeJob, Collected, receive, finish, nothing_yet, Runner}
use safe_duplicate_finder.Scheduler.Pool.{Message, cancels, worker_count}

module _ {E H T R : Type 0} (ports : Ports E H) (work : T → Action (Sys E) R) where
  -- The closure in `run_worker`: the second checkpoint is that of `VolumeLimiter::acquire`, which
  -- finds a permit, as no other worker holds one.
  unfoldable pub run_job : T → Action (Sys E) R
  run_job value = do checkpoint ports; checkpoint ports; checkpoint ports; work value

  -- One turn of the loop over the results, which cancels the token on the first failure.
  unfoldable pub deliver : Message R → Collected R → Action (Sys E) (Collected R)
  deliver message c = do
    when (cancels message c.first_error) (cancel_control ports)
    pure (receive message c)

  -- The jobs from an index on, with the workers that are left: the producer's checkpoint, whose
  -- failure is its last message; the job in a worker, which leaves behind a failure; and the result
  -- received. With no worker left the job is not sent, and the producer ends.
  unfoldable pub run_turns : ℕ → ℕ → List (VolumeJob T) → Collected R → Action (Sys E) (Collected R)
  run_turns workers index [] c = pure c
  run_turns zero index (job ∷ jobs) c =
      branch (checkpoint ports) (λ _. pure c) (λ error. deliver (index, err error) c)
  run_turns (suc others) index (job ∷ jobs) c =
      branch (checkpoint ports)
        (λ _.
          branch (run_job job.value)
            (λ value. deliver (index, ok value) c >>= run_turns (suc others) (suc index) jobs)
            (λ error. deliver (index, err error) c >>= run_turns others (suc index) jobs))
        (λ error. deliver (index, err error) c)

  unfoldable pub run_in_turn : WorkerConfig → List (VolumeJob T) → Action (Sys E) (List R)
  run_in_turn config jobs =
      run_turns (worker_count config jobs) 0 jobs (nothing_yet jobs)
      >>= (λ c. lift_result (finish c))

abbrev pub turn_runner : {E H : Type 0} → Ports E H → Runner E
turn_runner ports = record {
  run_volume_jobs = λ jobs workers work. run_in_turn ports work workers jobs;
}
