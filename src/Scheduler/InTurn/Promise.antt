-- ===== src/Scheduler/InTurn/Promise.antt =====
-- The jobs of crates/dedupe-core/src/scheduler.rs that take turns give what their callers rely on.
use mathlib.Core.List.{append_assoc}
use safe_duplicate_finder.Base.{
  ℕ, zero, suc, ◌≡◌, refl, Bool, true, false, List, [], ◌∷◌, ◌++◌, get_elem?-append, length,
  length-snoc,
}
use safe_duplicate_finder.Error.{Result, ok, err}
use safe_duplicate_finder.Model.{WorkerConfig}
use safe_duplicate_finder.Ports.{Ports, Sys, Event, cancel_control}
use safe_duplicate_finder.Ports.Monad.{Action, ◌>>=◌, when}
use safe_duplicate_finder.Ports.Hoare.{Post, returns, fails, Post-then, Post-mono, Post-branch}
use safe_duplicate_finder.Ports.Calls.{checkpoint-Post}
use safe_duplicate_finder.FullHash.Streaming.{Observed, unseen, Observed-trans}
use safe_duplicate_finder.Scheduler.{VolumeJob, Results, Collected, finish, nothing_yet, RunnerLaws}
use safe_duplicate_finder.Scheduler.Pool.{Message, cancels, worker_count}
use safe_duplicate_finder.Scheduler.Slots.{
  Slots, Slots-mono, IsResultOf, nothing_yet-Slots, receive-Slots, ResultsIfOk, finish-Results,
}
use safe_duplicate_finder.Scheduler.InTurn.{run_job, deliver, run_turns, run_in_turn, turn_runner}

module _ {E H : Type 0} (ports : Ports E H) where
  module _ {T R : Type 0} (Q : T → R → List Event → Type 0) (work : T → Action (Sys E) R)
      (kept : (t : T) (r : R) (u v : List Event) → Observed u v → Q t r u → Q t r v) (s₀ : Sys E)
      (known : (t : T) (s : Sys E)
        → Observed s₀.trace s.trace
        → Post
            (λ r s'. Q t r s'.trace × Observed s.trace s'.trace)
            (λ e s'. Observed s.trace s'.trace)
            (work t s)) where
    abbrev At : List Event → T → R → Type 0
    At u t r = Q t r u

    run_job-Post :
        (t : T) (s : Sys E)
        → Observed s₀.trace s.trace
        → Post
            (λ r s'. Q t r s'.trace × Observed s.trace s'.trace)
            (λ e s'. Observed s.trace s'.trace)
            (run_job ports work t s)
    unfolding run_job
    run_job-Post t s begun =
        Post-then _ _ (checkpoint-Post ports s)
          (λ _ s₁ t₁.
            Post-then _ _ (checkpoint-Post ports s₁)
              (λ _ s₂ t₂.
                Post-then _ _ (checkpoint-Post ports s₂)
                  (λ _ s₃ t₃.
                    Post-mono _ (known t s₃ (rw (t₃, t₂, t₁) begun))
                      (λ r s' (q, o). (q, rw (t₃, t₂, t₁) at o)) (λ e s' o. rw (t₃, t₂, t₁) at o))
                  (λ e s₃ t₃. rw (t₃, t₂, t₁) unseen))
              (λ e s₂ t₂. rw (t₂, t₁) unseen))
          (λ e s₁ t₁. rw t₁ unseen)

    when-cancel :
        (b : Bool) (s : Sys E)
        → Post (λ _ s'. s'.trace ≡ s.trace) (λ _ _. ⊥) (when b (cancel_control ports) s)
    when-cancel true s = returns refl
    when-cancel false s = returns refl

    -- The slots hold what is known of their jobs by now, and files were looked at only.
    abbrev Filled : List (VolumeJob T) → Sys E → Collected R → Sys E → Type 0
    Filled jobs s c s' = Slots (At s'.trace) jobs c.ordered × Observed s.trace s'.trace

    deliver-Post :
        (jobs : List (VolumeJob T)) (message : Message R) (c : Collected R) (s : Sys E)
        → IsResultOf (At s.trace) jobs message
        → Slots (At s.trace) jobs c.ordered
        → Post (Filled jobs s) (λ _ s'. ⊥) (deliver ports work message c s)
    unfolding deliver
    deliver-Post jobs message c s m h =
        Post-then _ _ (when-cancel (cancels message c.first_error) s)
          (λ _ s₁ t₁. returns (rw t₁ (receive-Slots (At s.trace) jobs message c m h), rw t₁ unseen))
          (λ _ _ b. b)

    Slots-later :
        {u v : List Event} (jobs : List (VolumeJob T)) (c : Collected R)
        → Observed u v
        → Slots (At u) jobs c.ordered
        → Slots (At v) jobs c.ordered
    Slots-later {u} {v} jobs c o = Slots-mono (At u) (At v) (λ t r. kept t r u v o) jobs c.ordered

    abbrev Turned : ℕ → List (VolumeJob T) → List (VolumeJob T) → Type 0
    Turned workers done jobs =
        (c : Collected R) (s : Sys E)
        → Observed s₀.trace s.trace
        → Slots (At s.trace) (done ++ jobs) c.ordered
        → Post (Filled (done ++ jobs) s) (λ _ _. ⊥)
            (run_turns ports work workers (length done) jobs c s)

    next :
        (workers : ℕ) (done : List (VolumeJob T)) (job : VolumeJob T) (jobs : List (VolumeJob T))
        → Turned workers (done ++ (job ∷ [])) jobs
        → (c : Collected R) (s : Sys E) → Observed s₀.trace s.trace
        → Slots (At s.trace) (done ++ (job ∷ jobs)) c.ordered
        → Post
            (Filled (done ++ (job ∷ jobs)) s)
            (λ _ _. ⊥)
            (run_turns ports work workers (suc (length done)) jobs c s)
    next workers done job jobs h = rw (append_assoc done (job ∷ []) jobs, length-snoc done job) at h

    -- A message is delivered in a state that has gone on, and the rest follows.
    delivered :
        (jobs : List (VolumeJob T)) (message : Message R) (c : Collected R) (s s₁ : Sys E)
        (rest : Collected R → Action (Sys E) (Collected R))
        → Observed s.trace s₁.trace
        → Observed s₀.trace s₁.trace
        → IsResultOf (At s₁.trace) jobs message
        → Slots (At s₁.trace) jobs c.ordered
        → ((c : Collected R) (s : Sys E)
            → Observed s₀.trace s.trace
            → Slots (At s.trace) jobs c.ordered
            → Post (Filled jobs s) (λ _ _. ⊥) (rest c s))
        → Post (Filled jobs s) (λ _ _. ⊥) ((deliver ports work message c >>= rest) s₁)
    delivered jobs message c s s₁ rest o begun m h k =
        Post-then _ _ (deliver-Post jobs message c s₁ m h)
          (λ c' s₂ (h₂, o₂).
            Post-mono _ (k c' s₂ (Observed-trans begun o₂) h₂)
              (λ _ _ (h₃, o₃). (h₃, Observed-trans o (Observed-trans o₂ o₃))) (λ _ _ b. b))
          (λ _ _ b. b)

    stopped :
        (jobs : List (VolumeJob T)) (message : Message R) (c : Collected R) (s s₁ : Sys E)
        → s₁.trace ≡ s.trace
        → IsResultOf (At s.trace) jobs message
        → Slots (At s.trace) jobs c.ordered
        → Post (Filled jobs s) (λ _ _. ⊥) (deliver ports work message c s₁)
    stopped jobs message c s s₁ t₁ m h =
        Post-mono _ (deliver-Post jobs message c s₁ (rw t₁ m) (rw t₁ h))
          (λ _ _ (h₂, o). (h₂, rw t₁ at o)) (λ _ _ b. b)

    run_turns-Post : (workers : ℕ) (done jobs : List (VolumeJob T)) → Turned workers done jobs
    unfolding run_turns
    run_turns-Post workers done [] c s begun h = returns (h, unseen)
    run_turns-Post zero done (job ∷ jobs) c s begun h = Post-branch _ _ _ (
        Post-mono _ (checkpoint-Post ports s) (λ _ s₁ t₁. returns (rw t₁ h, rw t₁ unseen))
          (λ e s₁ t₁. stopped (done ++ (job ∷ jobs)) (length done, err e) c s s₁ t₁ tt h))
    run_turns-Post (suc others) done (job ∷ jobs) c s begun h =
        let all = done ++ (job ∷ jobs) in
        Post-branch _ _ _ (
          Post-mono _ (checkpoint-Post ports s)
            (λ _ s₁ t₁. Post-branch _ _ _ (
              Post-mono _ (run_job-Post job.value s₁ (rw t₁ begun))
                (λ r s₂ (q, o).
                  let on : Observed s.trace s₂.trace = rw t₁ at o in
                  delivered all (length done, ok r) c s s₂ _ on (Observed-trans begun on)
                    (job, get_elem?-append done job jobs, q) (Slots-later all c on h)
                    (next (suc others) done job jobs
                      (run_turns-Post (suc others) (done ++ (job ∷ [])) jobs)))
                (λ e s₂ o.
                  let on : Observed s.trace s₂.trace = rw t₁ at o in
                  delivered all (length done, err e) c s s₂ _ on (Observed-trans begun on) tt
                    (Slots-later all c on h)
                    (next others done job jobs (run_turns-Post others (done ++ (job ∷ [])) jobs)))))
            (λ e s₁ t₁. stopped all (length done, err e) c s s₁ t₁ tt h))

    run_in_turn-Results :
        (config : WorkerConfig) (jobs : List (VolumeJob T))
        → Post
            (λ rs s'. Results (At s'.trace) jobs rs × Observed s₀.trace s'.trace)
            (λ e s'. Observed s₀.trace s'.trace)
            (run_in_turn ports work config jobs s₀)
    unfolding run_in_turn
    run_in_turn-Results config jobs =
        Post-then _ _
          (run_turns-Post (worker_count config jobs) [] jobs (nothing_yet jobs) s₀ unseen
            (nothing_yet-Slots (At s₀.trace) jobs))
          (λ c s' (h, o). finished s' o (finish c) (finish-Results (At s'.trace) jobs c h))
          (λ e s' b. absurd b)
      where
        finished :
            (s' : Sys E)
            → Observed s₀.trace s'.trace
            → (r : Result (List R)) → ResultsIfOk (At s'.trace) jobs r
            → Post
                (λ rs s'. Results (At s'.trace) jobs rs × Observed s₀.trace s'.trace)
                (λ e s'. Observed s₀.trace s'.trace)
                (r, s')
        finished s' o (ok rs) h = returns (h, o)
        finished s' o (err e) h = fails o

  -- With any configuration of the workers, the schedule in which the producer, a worker and the loop
  -- over the results take turns keeps the promise on which the detector is built: what the work is
  -- known to give, and keeps while files are looked at, is known of the result of each job, in the
  -- order of the jobs; and jobs that only look at files only look at files together, also in a run
  -- that fails.
  pub turn_laws : RunnerLaws (turn_runner ports)
  turn_laws = record {
    run_volume_jobs-Results =
        λ Q jobs workers work s kept known. run_in_turn-Results Q work kept s known workers jobs;
  }
