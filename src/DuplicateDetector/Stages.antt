-- ===== src/DuplicateDetector/Stages.antt =====
-- What the entries of the hash groups of crates/dedupe-core/src/duplicate_detector.rs come from.
use safe_duplicate_finder.Base.{
  ◌≡◌, refl, inl, inr, true, List, [], ◌∷◌, map, All, Text, Bool-cases,
}
use safe_duplicate_finder.Paths.{FilePath}
use safe_duplicate_finder.Error.{Result, ok, err}
use safe_duplicate_finder.Model.{HashResult, FileMetadataSnapshot, WorkerConfig}
use safe_duplicate_finder.Ports.{Sys, Event}
use safe_duplicate_finder.Ports.Monad.{Action, ◌>>=◌, lift_result}
use safe_duplicate_finder.Ports.Hoare.{Post, returns, fails, Post-then}
use safe_duplicate_finder.FullHash.Streaming.{Observed}
use safe_duplicate_finder.Scheduler.{Results, Runner, RunnerLaws}
use safe_duplicate_finder.DuplicateDetector.{
  Stage, DetectionOutcome, HashGroups, push_entry, is_cancelled, note_error, note_read,
  note_unstable, collect_results, attempt, jobs_for, volume_key,
}
use safe_duplicate_finder.DuplicateDetector.Grouping.{Holds, push_entry-Holds}

module _ {A B : Type 0} (add : A → HashResult → B) (I : A → Type 0)
    (V : A → HashResult → Type 0) where
  -- An entry adds stable evidence, with the digest of the group, to a candidate.
  pub record IsFrom (digest : Text) (entry : B) : Type 0 where
    pub candidate : A
    pub evidence : HashResult
    pub added : entry ≡ add candidate evidence
    pub known : I candidate
    pub seen : V candidate evidence
    pub same_digest : evidence.digest ≡ digest
    pub stable : evidence.stable ≡ true

  abbrev IfOk : A → Result HashResult → Type 0
  IfOk a (ok r) = V a r
  IfOk a (err e) = Unit

  abbrev Attempted : A → A × Result HashResult → Type 0
  Attempted a p = (p.0 ≡ a) × IfOk p.0 p.1

  abbrev Known : A × Result HashResult → Type 0
  Known p = I p.0 × IfOk p.0 p.1

  Results-Known :
      (metadata : A → FileMetadataSnapshot) (candidates : List A)
      (results : List (A × Result HashResult))
      → All I candidates
      → Results Attempted
          (map (λ c. record { volume_id = volume_key (metadata c); value = c }) candidates)
          results
      → All Known results
  Results-Known metadata [] [] h r = tt
  Results-Known metadata [] (p ∷ ps) h r = absurd r
  Results-Known metadata (c ∷ cs) [] h r = absurd r
  Results-Known metadata (c ∷ cs) (p ∷ ps) (h, hs) ((e, v), rs) =
      ((rw e h, v), Results-Known metadata cs ps hs rs)

  abbrev GroupsFrom : DetectionOutcome → Result (HashGroups B × DetectionOutcome) → Type 0
  GroupsFrom outcome (ok c) = Holds IsFrom c.0 × (c.1.groups ≡ outcome.groups)
  GroupsFrom outcome (err e) = Unit

  collect_results-IsFrom :
      (stage : Stage) (file : A → FilePath) (results : List (A × Result HashResult))
      (outcome : DetectionOutcome) (groups : HashGroups B)
      → All Known results
      → Holds IsFrom groups
      → GroupsFrom outcome (collect_results stage file add results outcome groups)
  unfolding collect_results
  collect_results-IsFrom stage file [] outcome groups h g = (g, refl)
  collect_results-IsFrom stage file ((a, err e) ∷ results) outcome groups (h, hs) g =
      elim (Bool-cases (is_cancelled e)) [
        | inl c ↦ rw (c, collect_results) tt
        | inr c ↦
            rw (c, collect_results)
              (collect_results-IsFrom stage file results (note_error (file a) stage e outcome)
                groups hs g)
      ]
  collect_results-IsFrom stage file ((a, ok r) ∷ results) outcome groups ((i, v), hs) g =
      elim (Bool-cases r.stable) [
        | inl c ↦
            let entry : IsFrom r.digest (add a r) = record {
              candidate = a;
              evidence = r;
              added = refl;
              known = i;
              seen = v;
              same_digest = refl;
              stable = c;
            } in
            simp (c, collect_results)
              (collect_results-IsFrom stage file results (note_read r outcome)
                (push_entry r.digest (add a r) groups) hs
                (push_entry-Holds IsFrom r.digest (add a r) groups entry g))
        | inr c ↦
            simp (c, collect_results)
              (collect_results-IsFrom stage file results (note_unstable (note_read r outcome))
                groups hs g)
      ]

module _ {A B : Type 0} (add : A → HashResult → B) (I : A → Type 0)
    (V : A → HashResult → List Event → Type 0)
    (kept : (a : A) (r : HashResult) (u v : List Event) → Observed u v → V a r u → V a r v) where
  abbrev FromAt : List Event → Text → B → Type 0
  FromAt t = IsFrom add I (λ a r. V a r t)

  abbrev AttemptedAt : A → A × Result HashResult → List Event → Type 0
  AttemptedAt a p t = Attempted add I (λ b r. V b r t) a p

  kept_attempt :
      (a : A) (p : A × Result HashResult) (u v : List Event)
      → Observed u v
      → AttemptedAt a p u
      → AttemptedAt a p v
  kept_attempt a (b, ok r) u v o (e, h) = (e, kept b r u v o h)
  kept_attempt a (b, err x) u v o (e, h) = (e, tt)

  module _ {E : Type 0} (runner : Runner E) (laws : RunnerLaws runner)
      (workers : WorkerConfig) where
    -- A stage: the hashes of the candidates, collected; what is known of the evidence is known when
    -- the stage ends.
    pub stage-Post :
        (stage : Stage) (file : A → FilePath) (metadata : A → FileMetadataSnapshot)
        (hash : A → Action (Sys E) HashResult) (candidates : List A) (outcome : DetectionOutcome)
        (s : Sys E)
        → All I candidates
        → ((a : A) (s' : Sys E)
            → Observed s.trace s'.trace
            → Post
                (λ r s''. V a r s''.trace × Observed s'.trace s''.trace)
                (λ e s''. Observed s'.trace s''.trace)
                (hash a s'))
        → Post
            (λ c s'.
              (Holds (FromAt s'.trace) c.0 × (c.1.groups ≡ outcome.groups))
              × Observed s.trace s'.trace)
            (λ e s'. Observed s.trace s'.trace)
            ((runner.run_volume_jobs (jobs_for metadata candidates) workers (attempt hash)
                >>= (λ results. lift_result (collect_results stage file add results outcome [])))
              s)
    stage-Post stage file metadata hash candidates outcome s h known =
        Post-then _ _
          (laws.run_volume_jobs-Results AttemptedAt (jobs_for metadata candidates) workers
            (attempt hash) s kept_attempt (λ a t o. attempted a t (hash a t) (known a t o)))
          (λ results s' (rs, o).
            collected s' o (collect_results stage file add results outcome []) (
              collect_results-IsFrom add I (λ a r. V a r s'.trace) stage file results outcome []
                (Results-Known add I (λ a r. V a r s'.trace) metadata candidates results h rs) tt))
          (λ e s' o. o)
      where
        attempted :
            (a : A) (t : Sys E) (r : Result HashResult × Sys E)
            → Post
                (λ r s'. V a r s'.trace × Observed t.trace s'.trace)
                (λ e s'. Observed t.trace s'.trace)
                r
            → Post
                (λ p s'. AttemptedAt a p s'.trace × Observed t.trace s'.trace)
                (λ e s'. Observed t.trace s'.trace)
                (ok (a, r.0), r.1)
        attempted a t (ok r, t') h = returns ((refl, h.ends.0), h.ends.1)
        attempted a t (err e, t') h = returns ((refl, tt), h.ends)

        collected :
            (s' : Sys E)
            → Observed s.trace s'.trace
            → (c : Result (HashGroups B × DetectionOutcome))
            → GroupsFrom add I (λ a r. V a r s'.trace) outcome c
            → Post
                (λ c s'.
                  (Holds (FromAt s'.trace) c.0 × (c.1.groups ≡ outcome.groups))
                  × Observed s.trace s'.trace)
                (λ e s'. Observed s.trace s'.trace)
                (c, s')
        collected s' o (ok c) g = returns (g, o)
        collected s' o (err e) g = fails o
