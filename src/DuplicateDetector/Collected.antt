-- ===== src/DuplicateDetector/Collected.antt =====
-- The results of one stage of crates/dedupe-core/src/duplicate_detector.rs, against a description
-- of what becomes of each.
use mathlib.Core.List.{Memᴰ, append_assoc, append-nil}
use mathlib.Core.List.Memᴰ.{head, tail}
use safe_duplicate_finder.Base.{
  ℕ, ◌+◌, ◌<◌, ◌≡◌, refl, ◌∙◌, sym, ap, inl, inr, true, false, ◌&&◌, List, [], ◌∷◌, ◌++◌, All, Text,
  text_eq, arith, Bool-cases, if◌then◌else◌, saturating_add,
}
use safe_duplicate_finder.Paths.{FilePath}
use safe_duplicate_finder.Error.{DedupeError, cancelled, Result, ok, err}
use safe_duplicate_finder.Model.{HashResult}
use safe_duplicate_finder.FullHash.Streaming.{saturating_add_twice, saturating_add_bound}
use safe_duplicate_finder.DuplicateDetector.{
  Stage, DetectionFileError, DetectionOutcome, HashGroups, push_entry, is_cancelled, note_error,
  note_read, note_unstable, collect_results,
}
use safe_duplicate_finder.DuplicateDetector.Grouping.{
  members_of, DistinctKeys, push_entry-members_of, push_entry-DistinctKeys,
}

module _ {A B : Type 0} (stage : Stage) (file : A → FilePath) (add : A → HashResult → B) where
  -- The candidates with a stable digest that is `d`, in their order.
  abbrev pub with_digest : Text → List (A × Result HashResult) → List B
  with_digest d [] = []
  with_digest d ((a, err e) ∷ results) = with_digest d results
  with_digest d ((a, ok r) ∷ results) =
      let rest = with_digest d results in
      if r.stable && text_eq r.digest d then add a r ∷ rest else rest

  -- The failures, in their order.
  abbrev pub errors_of : List (A × Result HashResult) → List DetectionFileError
  errors_of [] = []
  errors_of ((a, ok r) ∷ results) = errors_of results
  errors_of ((a, err e) ∷ results) =
      record { path = file a; stage = stage; error = e } ∷ errors_of results

  abbrev pub total_read : List (A × Result HashResult) → ℕ
  total_read [] = 0
  total_read ((a, ok r) ∷ results) = r.bytes_read + total_read results
  total_read ((a, err e) ∷ results) = total_read results

  abbrev pub unstable_count : List (A × Result HashResult) → ℕ
  unstable_count [] = 0
  unstable_count ((a, ok r) ∷ results) =
      let rest = unstable_count results in if r.stable then rest else 1 + rest
  unstable_count ((a, err e) ∷ results) = unstable_count results

  pub record IsCollected (results : List (A × Result HashResult)) (outcome : DetectionOutcome)
      (groups : HashGroups B) (groups' : HashGroups B) (outcome' : DetectionOutcome) : Type 0 where
    pub grouped : (d : Text) → members_of d groups' ≡ members_of d groups ++ with_digest d results
    pub distinct : DistinctKeys groups'
    pub failed : outcome'.errors ≡ outcome.errors ++ errors_of results
    pub not_cancelled : All (λ e. is_cancelled e.error ≡ false) (errors_of results)
    pub read : outcome'.bytes_read ≡ saturating_add outcome.bytes_read (total_read results)
    pub unstable :
        outcome'.unstable_files ≡ saturating_add outcome.unstable_files (unstable_count results)
    pub same_groups : outcome'.groups ≡ outcome.groups

  abbrev pub Collection :
      List (A × Result HashResult)
      → DetectionOutcome
      → HashGroups B
      → Result (HashGroups B × DetectionOutcome)
      → Type 0
  Collection results outcome groups (ok c) = IsCollected results outcome groups c.0 c.1
  Collection results outcome groups (err e) =
      (e ≡ cancelled) × ((a : A) × Memᴰ (a, err cancelled) results)

  error_lem : (e : DedupeError) → is_cancelled e ≡ true → e ≡ cancelled
  error_lem cancelled h = refl
  error_lem _ h = absurd (ground (arith, h))

  module _ (a : A) (results : List (A × Result HashResult)) (outcome : DetectionOutcome)
      (groups : HashGroups B) where
    after_error :
        (e : DedupeError)
        → is_cancelled e ≡ false
        → (c : Result (HashGroups B × DetectionOutcome))
        → Collection results (note_error (file a) stage e outcome) groups c
        → Collection ((a, err e) ∷ results) outcome groups c
    after_error e n (err x) (same, (b, m)) = (same, (b, tail m))
    after_error e n (ok c) h = record {
      grouped = h.grouped;
      distinct = h.distinct;
      failed = h.failed ∙ append_assoc outcome.errors _ (errors_of results);
      not_cancelled = (n, h.not_cancelled);
      read = h.read;
      unstable = h.unstable;
      same_groups = h.same_groups;
    }

    pushed :
        (r : HashResult) (d : Text) (gs : List B)
        → r.stable ≡ true
        → gs ≡ members_of d (push_entry r.digest (add a r) groups) ++ with_digest d results
        → gs ≡ members_of d groups ++ with_digest d ((a, ok r) ∷ results)
    pushed r d gs st e = elim (Bool-cases (text_eq r.digest d)) [
      | inl t ↦
          simp (st, t)
            (e
              ∙ ap (λ x. x ++ with_digest d results)
                  (rw t at (push_entry-members_of r.digest d (add a r) groups))
              ∙ append_assoc (members_of d groups) _ (with_digest d results))
      | inr t ↦
          simp (st, t)
            (e
              ∙ ap (λ x. x ++ with_digest d results)
                  (rw t at (push_entry-members_of r.digest d (add a r) groups)))
    ]

    after_stable :
        (r : HashResult)
        → r.stable ≡ true
        → (c : Result (HashGroups B × DetectionOutcome))
        → Collection results (note_read r outcome) (push_entry r.digest (add a r) groups) c
        → Collection ((a, ok r) ∷ results) outcome groups c
    after_stable r st (err x) (same, (b, m)) = (same, (b, tail m))
    after_stable r st (ok c) h = record {
      grouped = λ d. pushed r d (members_of d c.0) st (h.grouped d);
      distinct = h.distinct;
      failed = h.failed;
      not_cancelled = h.not_cancelled;
      read = h.read ∙ saturating_add_twice outcome.bytes_read r.bytes_read (total_read results);
      unstable = simp st h.unstable;
      same_groups = h.same_groups;
    }

    after_unstable :
        (r : HashResult)
        → r.stable ≡ false
        → (c : Result (HashGroups B × DetectionOutcome))
        → Collection results (note_unstable (note_read r outcome)) groups c
        → Collection ((a, ok r) ∷ results) outcome groups c
    after_unstable r st (err x) (same, (b, m)) = (same, (b, tail m))
    after_unstable r st (ok c) h = record {
      grouped = λ d. simp st (h.grouped d);
      distinct = h.distinct;
      failed = h.failed;
      not_cancelled = h.not_cancelled;
      read = h.read ∙ saturating_add_twice outcome.bytes_read r.bytes_read (total_read results);
      unstable =
          simp st
            (h.unstable ∙ saturating_add_twice outcome.unstable_files 1 (unstable_count results));
      same_groups = h.same_groups;
    }

  -- A stage puts every candidate with a stable digest into the group of its digest, in the order of
  -- the candidates and behind what was there, with one group for a digest. It reports the failed
  -- candidates in their order, and counts the bytes and the unstable candidates with saturation. It
  -- fails only with `Cancelled`, and only if a candidate did.
  pub collect_results-Collection :
      (results : List (A × Result HashResult)) (outcome : DetectionOutcome) (groups : HashGroups B)
      → outcome.bytes_read < 18446744073709551616
      → outcome.unstable_files < 18446744073709551616
      → DistinctKeys groups
      → Collection results outcome groups (collect_results stage file add results outcome groups)
  unfolding collect_results
  collect_results-Collection [] outcome groups b u k = record {
    grouped = λ d. sym (append-nil (members_of d groups));
    distinct = k;
    failed = sym (append-nil outcome.errors);
    not_cancelled = tt;
    read = ground (arith, b);
    unstable = ground (arith, u);
    same_groups = refl;
  }
  collect_results-Collection ((a, err e) ∷ results) outcome groups b u k =
      elim (Bool-cases (is_cancelled e)) [
        | inl c ↦
            rw (c, collect_results) (refl, (a, head (ap (λ x. (a, err x)) (sym (error_lem e c)))))
        | inr c ↦
            rw (c, collect_results)
              (after_error a results outcome groups e c _ (
                collect_results-Collection results (note_error (file a) stage e outcome) groups b u
                  k))
      ]
  collect_results-Collection ((a, ok r) ∷ results) outcome groups b u k =
      elim (Bool-cases r.stable) [
        | inl c ↦
            simp (c, collect_results)
              (after_stable a results outcome groups r c _ (
                collect_results-Collection results (note_read r outcome)
                  (push_entry r.digest (add a r) groups) (saturating_add_bound _ _) u
                  (push_entry-DistinctKeys r.digest (add a r) groups k)))
        | inr c ↦
            simp (c, collect_results)
              (after_unstable a results outcome groups r c _ (
                collect_results-Collection results (note_unstable (note_read r outcome)) groups
                  (saturating_add_bound _ _) (saturating_add_bound _ _) k))
      ]
