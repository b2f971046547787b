-- ===== src/Tests/InTurn.antt =====
-- A runner that gives each job its turn on one thread, for the tests, which keeps what the callers of
-- crates/dedupe-core/src/scheduler.rs rely on.
use safe_duplicate_finder.Base.{List, [], ◌∷◌}
use safe_duplicate_finder.Ports.{Sys, Event}
use safe_duplicate_finder.Ports.Monad.{Action, ◌>>=◌, pure}
use safe_duplicate_finder.Ports.Hoare.{Post, returns, Post-then}
use safe_duplicate_finder.FullHash.Streaming.{Observed, unseen, Observed-trans}
use safe_duplicate_finder.Scheduler.{VolumeJob, Results, Runner, RunnerLaws}

abbrev run_each :
    {E T R : Type 0} → List (VolumeJob T) → (T → Action (Sys E) R) → Action (Sys E) (List R)
run_each [] work = pure []
run_each (job ∷ jobs) work = do r ← work job.value; rs ← run_each jobs work; pure (r ∷ rs)

abbrev pub in_turn_runner : {E : Type 0} → Runner E
in_turn_runner = record { run_volume_jobs = λ jobs _ work. run_each jobs work }

module _ {E T R : Type 0} (Q : T → R → List Event → Type 0) (work : T → Action (Sys E) R)
    (kept : (t : T) (r : R) (u v : List Event) → Observed u v → Q t r u → Q t r v) where
  abbrev Known : Sys E → Type 0
  Known s =
      (t : T) (s' : Sys E)
      → Observed s.trace s'.trace
      → Post (λ r s''. Q t r s''.trace × Observed s'.trace s''.trace)
          (λ e s''. Observed s'.trace s''.trace) (work t s')

  run_each-Results :
      (jobs : List (VolumeJob T)) (s : Sys E)
      → Known s
      → Post
          (λ rs s'. Results (λ t r. Q t r s'.trace) jobs rs × Observed s.trace s'.trace)
          (λ e s'. Observed s.trace s'.trace)
          (run_each jobs work s)
  run_each-Results [] s known = returns (tt, unseen)
  run_each-Results (job ∷ jobs) s known =
      Post-then _ _ (known job.value s unseen)
        (λ r s₁ (q, o).
          Post-then _ _ (run_each-Results jobs s₁ (λ t s' o'. known t s' (Observed-trans o o')))
            (λ rs s₂ (qs, o₂). returns ((kept job.value r _ _ o₂ q, qs), Observed-trans o o₂))
            (λ e s₂ o₂. Observed-trans o o₂))
        (λ e s₁ o. o)

pub in_turn_laws : {E : Type 0} → RunnerLaws (in_turn_runner {E = E})
in_turn_laws = record {
  run_volume_jobs-Results =
      λ Q jobs workers work s kept known. run_each-Results Q work kept jobs s known;
}
