-- ===== src/Scheduler/Slots.antt =====
-- The slots that the result loop of crates/dedupe-core/src/scheduler.rs fills.
use safe_duplicate_finder.Base.{
  ℕ, zero, suc, ◌≡◌, refl, Option, none, some, List, [], ◌∷◌, map, get_elem?,
}
use safe_duplicate_finder.Error.{DedupeError, Result, ok, err, ◌>>=◌}
use safe_duplicate_finder.Scheduler.{
  VolumeJob, Results, Collected, set_at, receive, all_present, finish,
}

module _ {T R : Type 0} (Q : T → R → Type 0) where
  abbrev pub Fits : T → Option R → Type 0
  Fits value none = Unit
  Fits value (some r) = Q value r

  -- Each slot is empty or holds a result of its own job.
  abbrev pub Slots : List (VolumeJob T) → List (Option R) → Type 0
  Slots [] [] = Unit
  Slots (job ∷ jobs) (slot ∷ slots) = Fits job.value slot × Slots jobs slots
  Slots _ _ = ⊥

  abbrev pub IsResultOf : List (VolumeJob T) → ℕ × Result R → Type 0
  IsResultOf jobs (i, ok r) = (job : VolumeJob T) × (get_elem? jobs i ≡ some job) × Q job.value r
  IsResultOf jobs (i, err e) = Unit

  some_job : {a b : VolumeJob T} → some a ≡ some b → a ≡ b
  some_job h = cc

  set_at-Slots :
      (jobs : List (VolumeJob T)) (slots : List (Option R)) (i : ℕ) (job : VolumeJob T) (r : R)
      → get_elem? jobs i ≡ some job
      → Q job.value r
      → Slots jobs slots
      → Slots jobs (set_at i r slots)
  unfolding set_at
  set_at-Slots [] [] i job r e q h = tt
  set_at-Slots [] (slot ∷ slots) i job r e q h = absurd h
  set_at-Slots (j ∷ jobs) [] i job r e q h = absurd h
  set_at-Slots (j ∷ jobs) (slot ∷ slots) zero job r e q (h, hs) = (rw (some_job e) q, hs)
  set_at-Slots (j ∷ jobs) (slot ∷ slots) (suc i) job r e q (h, hs) =
      (h, set_at-Slots jobs slots i job r e q hs)

  pub nothing_yet-Slots : (jobs : List (VolumeJob T)) → Slots jobs (map (λ _. none) jobs)
  nothing_yet-Slots [] = tt
  nothing_yet-Slots (job ∷ jobs) = (tt, nothing_yet-Slots jobs)

  pub receive-Slots :
      (jobs : List (VolumeJob T)) (message : ℕ × Result R) (c : Collected R)
      → IsResultOf jobs message
      → Slots jobs c.ordered
      → Slots jobs (receive message c).ordered
  unfolding receive
  receive-Slots jobs (i, ok r) c (job, e, q) h = by_error c.first_error refl
    where
      by_error :
          (o : Option DedupeError) → c.first_error ≡ o → Slots jobs (receive (i, ok r) c).ordered
      by_error none f = simp (f, receive) (set_at-Slots jobs c.ordered i job r e q h)
      by_error (some x) f = simp (f, receive) h
  receive-Slots jobs (i, err x) c u h = by_error c.first_error refl
    where
      by_error :
          (o : Option DedupeError) → c.first_error ≡ o → Slots jobs (receive (i, err x) c).ordered
      by_error none f = simp (f, receive) h
      by_error (some y) f = simp (f, receive) h

  abbrev pub ResultsIfOk : List (VolumeJob T) → Result (List R) → Type 0
  ResultsIfOk jobs (ok rs) = Results Q jobs rs
  ResultsIfOk jobs (err e) = Unit

  all_present-Results :
      (jobs : List (VolumeJob T)) (slots : List (Option R))
      → Slots jobs slots
      → ResultsIfOk jobs (all_present slots)
  unfolding all_present
  all_present-Results [] [] h = tt
  all_present-Results [] (slot ∷ slots) h = absurd h
  all_present-Results (job ∷ jobs) [] h = absurd h
  all_present-Results (job ∷ jobs) (none ∷ slots) h = tt
  all_present-Results (job ∷ jobs) (some r ∷ slots) (q, hs) =
      from_rest (all_present slots) (all_present-Results jobs slots hs)
    where
      from_rest :
          (rest : Result (List R))
          → ResultsIfOk jobs rest
          → ResultsIfOk (job ∷ jobs) (rest >>= (λ values. ok (r ∷ values)))
      from_rest (ok rs) g = (q, g)
      from_rest (err e) g = tt

  pub finish-Results :
      (jobs : List (VolumeJob T)) (c : Collected R)
      → Slots jobs c.ordered
      → ResultsIfOk jobs (finish c)
  unfolding finish
  finish-Results jobs c h = by_error c.first_error refl
    where
      by_error : (o : Option DedupeError) → c.first_error ≡ o → ResultsIfOk jobs (finish c)
      by_error none f = simp (f, finish) (all_present-Results jobs c.ordered h)
      by_error (some x) f = simp (f, finish) tt

pub Slots-mono :
    {T R : Type 0} (P Q : T → R → Type 0)
    → ((t : T) (r : R) → P t r → Q t r)
    → (jobs : List (VolumeJob T)) (slots : List (Option R)) → Slots P jobs slots
    → Slots Q jobs slots
Slots-mono P Q f [] [] h = tt
Slots-mono P Q f [] (slot ∷ slots) h = absurd h
Slots-mono P Q f (job ∷ jobs) [] h = absurd h
Slots-mono P Q f (job ∷ jobs) (none ∷ slots) (h, hs) = (tt, Slots-mono P Q f jobs slots hs)
Slots-mono P Q f (job ∷ jobs) (some r ∷ slots) (h, hs) =
    (f job.value r h, Slots-mono P Q f jobs slots hs)
