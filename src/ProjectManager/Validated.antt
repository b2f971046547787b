-- ===== src/ProjectManager/Validated.antt =====
-- `validate_roots` of crates/dedupe-core/src/project_manager.rs as a whole.
use mathlib.Core.List.{Memᴰ}
use mathlib.Core.List.Memᴰ.{head, tail}
use mathlib.Core.Bool.{false≢true}
use safe_duplicate_finder.Base.{
  ◌≡◌, ◌≢◌, refl, ◌∙◌, ap, sym, ◌⊎◌, inl, inr, Bool, true, false, List, [], ◌∷◌, ◌++◌, map, count,
  Text, text_eq, text_eq→eq, text_eq_refl, arith, Bool-cases, All, All-append, All-at, All-self,
  count-map, Pairwise, Pairwise-mono, sort_by, sort_by-All, sort_by-Pairwise, sort_by-count,
}
use safe_duplicate_finder.Paths.{FilePath}
use safe_duplicate_finder.Error.{Result, ok, err, ◌>>=◌}
use safe_duplicate_finder.PathNormalization.{Platform, normalize_path, is_same_or_child}
use safe_duplicate_finder.PathNormalization.Children.{is_same_or_child_iff}
use safe_duplicate_finder.ProjectManager.{
  RootStatus, valid, duplicate, quarantine_forbidden, covered_by, ValidatedRoot, is_quarantine_path,
  Keyed, compare_keys, status_under, classify, effective_roots, normalize_all, validate_roots,
}
use safe_duplicate_finder.ProjectManager.Roots.{
  NoLonger, compare_keys-gt, compare_keys-le, find_cover-some, accepted_keys, Turn, forbidden,
  covered, new, Turn-cases, effective_roots-classify,
}
use safe_duplicate_finder.ProjectManager.Apart.{KeysApart, accepted_keys-Apart}

-- A key that goes on from another with a separator.
abbrev pub GoesOn : Text → Text → Type 0
GoesOn key from = (rest : Text) × (key ≡ from ++ (92 ∷ rest))

-- Two keys that are not equal, and neither of which goes on from the other with a separator.
abbrev pub AreSeparate : Keyed → Keyed → Type 0
AreSeparate a b = (a.1 ≢ b.1) × (GoesOn b.1 a.1 → ⊥) × (GoesOn a.1 b.1 → ⊥)

not_covered :
    (root candidate : Text)
    → is_same_or_child root candidate ≡ false
    → (candidate ≢ root) × (GoesOn candidate root → ⊥)
not_covered root candidate h =
    let covered = (is_same_or_child_iff root candidate).1 in
    (λ e. false≢true (sym h ∙ covered (inl e)), λ g. false≢true (sym h ∙ covered (inr g)))

KeysApart-AreSeparate : (a b : Keyed) → KeysApart a b → AreSeparate a b
KeysApart-AreSeparate a b h =
    let below = not_covered a.1 b.1 h.0 in
    let above = not_covered b.1 a.1 h.1 in (λ e. below.0 (sym e), below.1, above.1)

-- Why a root has its status, with the roots that are kept and the root's own key.
abbrev pub StatusHolds : List Keyed → FilePath → Text → RootStatus → Type 0
StatusHolds kept path key valid = (is_quarantine_path path ≡ false) × Memᴰ (path, key) kept
StatusHolds kept path key quarantine_forbidden = is_quarantine_path path ≡ true
StatusHolds kept path key duplicate = (existing : Keyed) × Memᴰ existing kept × (existing.1 ≡ key)
StatusHolds kept path key (covered_by other) =
    (existing : Keyed) × Memᴰ existing kept
    × (existing.0 ≡ other)
    × (existing.1 ≢ key)
    × GoesOn key existing.1

abbrev pub Explained : Platform → List Keyed → ValidatedRoot → Type 0
Explained platform kept root =
    (key : Text) × (normalize_path platform root.path ≡ ok key)
    × StatusHolds kept root.path key root.status

abbrev HasKey : Platform → Keyed → Type 0
HasKey platform k = normalize_path platform k.0 ≡ ok k.1

status_under-StatusHolds :
    (kept : List Keyed) (path : FilePath) (key : Text) (existing : Keyed)
    → Memᴰ existing kept
    → is_same_or_child existing.1 key ≡ true
    → StatusHolds kept path key (status_under existing key)
status_under-StatusHolds kept path key existing m h = elim (Bool-cases (text_eq existing.1 key)) [
  | inl e ↦ rw e (existing, m, text_eq→eq existing.1 key e)
  | inr e ↦
      let differ : existing.1 ≢ key = λ same. false≢true (sym e ∙ rw same (text_eq_refl key)) in
      rw e (existing, m, refl, differ, longer differ ((is_same_or_child_iff existing.1 key).0 h))
]
  where
    longer : existing.1 ≢ key → (key ≡ existing.1) ⊎ GoesOn key existing.1 → GoesOn key existing.1
    longer differ (inl e) = absurd (differ (sym e))
    longer differ (inr g) = g

module _ (platform : Platform) (kept : List Keyed) where
  classify-Explained :
      (accepted normalized : List Keyed)
      → All (HasKey platform) normalized
      → All (λ a. Memᴰ a kept) accepted
      → All (λ a. Memᴰ a kept) (accepted_keys accepted normalized)
      → All (Explained platform kept) (classify accepted normalized)
  unfolding classify accepted_keys
  classify-Explained accepted [] keyed before after = tt
  classify-Explained accepted ((path, key) ∷ normalized) (k, keyed) before after =
      from_turn (Turn-cases accepted path key) (classify-Explained accepted normalized keyed before)
        (λ here.
          classify-Explained (accepted ++ ((path, key) ∷ [])) normalized keyed
            (All-append _ accepted _ before (here, tt)))
        after
    where
      from_turn :
          Turn accepted path key
          → (All (λ a. Memᴰ a kept) (accepted_keys accepted normalized)
              → All (Explained platform kept) (classify accepted normalized))
          → (Memᴰ (path, key) kept
              → All (λ a. Memᴰ a kept) (accepted_keys (accepted ++ ((path, key) ∷ [])) normalized)
              → All
                  (Explained platform kept)
                  (classify (accepted ++ ((path, key) ∷ [])) normalized))
          → All (λ a. Memᴰ a kept) (accepted_keys accepted ((path, key) ∷ normalized))
          → All (Explained platform kept) (classify accepted ((path, key) ∷ normalized))
      from_turn (forbidden q) same longer after =
          rw (q, classify) ((key, k, q), same (rw (q, accepted_keys) at after))
      from_turn (covered existing q f) same longer after =
          rw (q, f, classify)
            (
              (
                key,
                k,
                status_under-StatusHolds kept path key existing
                    (All-at _ existing accepted (find_cover-some key accepted existing f).0 before)
                    (find_cover-some key accepted existing f).1,
              ),
              same (rw (q, f, accepted_keys) at after),
            )
      from_turn (new q n) same longer after =
          let after' = (rw (q, n, accepted_keys) at after) in
          rw (q, n, classify) ((key, k, (q, after'.0)), longer after'.0 after'.1)

-- What `validate_roots` returns, for each of its two ways to end.
pub record IsValidated (platform : Platform) (roots : List FilePath) (result : List ValidatedRoot)
    : Type 0 where
  pub kept : List Keyed
  pub effective : effective_roots result ≡ map (λ k. k.0) kept
  pub apart : Pairwise AreSeparate kept
  pub explained : All (Explained platform kept) result
  pub same_roots : (p : FilePath → Bool) → count p (map (λ r. r.path) result) ≡ count p roots

abbrev pub Validation : Platform → List FilePath → Result (List ValidatedRoot) → Type 0
Validation platform roots (ok result) = IsValidated platform roots result
Validation platform roots (err e) =
    (roots ≡ []) ⊎ ((path : FilePath) × Memᴰ path roots × (normalize_path platform path ≡ err e))

abbrev AllKeyed : Platform → List FilePath → Result (List Keyed) → Type 0
AllKeyed platform roots (ok keyed) = All (HasKey platform) keyed × (map (λ k. k.0) keyed ≡ roots)
AllKeyed platform roots (err e) =
    (path : FilePath) × Memᴰ path roots × (normalize_path platform path ≡ err e)

normalize_all-AllKeyed :
    (platform : Platform) (roots : List FilePath)
    → AllKeyed platform roots (normalize_all platform roots)
unfolding normalize_all
normalize_all-AllKeyed platform [] = (tt, refl)
normalize_all-AllKeyed platform (path ∷ paths) =
    from_results (normalize_path platform path) (normalize_all platform paths) refl
      (normalize_all-AllKeyed platform paths)
  where
    from_results :
        (r : Result Text) (rs : Result (List Keyed))
        → normalize_path platform path ≡ r
        → AllKeyed platform paths rs
        → AllKeyed platform (path ∷ paths) (r >>= (λ key. rs >>= (λ rest. ok ((path, key) ∷ rest))))
    from_results (err e) rs h hs = (path, head refl, h)
    from_results (ok key) (err e) h (p, m, x) = (p, tail m, x)
    from_results (ok key) (ok rest) h (keyed, same) = ((h, keyed), ap (◌∷◌ path) same)

classify-paths :
    (accepted normalized : List Keyed)
    → map (λ r. r.path) (classify accepted normalized) ≡ map (λ k. k.0) normalized
unfolding classify
classify-paths accepted [] = refl
classify-paths accepted ((path, key) ∷ normalized) =
    from_turn (Turn-cases accepted path key) (classify-paths accepted normalized)
      (classify-paths (accepted ++ ((path, key) ∷ [])) normalized)
  where
    from_turn :
        Turn accepted path key
        → map (λ r. r.path) (classify accepted normalized) ≡ map (λ k. k.0) normalized
        → map (λ r. r.path) (classify (accepted ++ ((path, key) ∷ [])) normalized)
          ≡ map (λ k. k.0) normalized
        → map (λ r. r.path) (classify accepted ((path, key) ∷ normalized))
          ≡ path ∷ map (λ k. k.0) normalized
    from_turn (forbidden q) same longer = rw (q, classify) (ap (◌∷◌ path) same)
    from_turn (covered existing q f) same longer = rw (q, f, classify) (ap (◌∷◌ path) same)
    from_turn (new q n) same longer = rw (q, n, classify) (ap (◌∷◌ path) longer)

classified :
    (platform : Platform) (roots : List FilePath) (keyed : List Keyed)
    → All (HasKey platform) keyed
    → map (λ k. k.0) keyed ≡ roots
    → IsValidated platform roots (classify [] (sort_by compare_keys keyed))
classified platform roots keyed h same =
    let sorted = sort_by compare_keys keyed in
    let kept = accepted_keys [] sorted in
    record {
      kept = kept;
      effective = effective_roots-classify [] sorted;
      apart =
          Pairwise-mono KeysApart AreSeparate KeysApart-AreSeparate kept
            (accepted_keys-Apart [] sorted tt (
              sort_by-Pairwise compare_keys NoLonger (λ a b c. no_longer_trans a b c)
                compare_keys-gt compare_keys-le keyed)).pairwise;
      explained =
          classify-Explained platform kept [] sorted
            (sort_by-All compare_keys (HasKey platform) keyed h) tt (All-self kept);
      same_roots = λ p.
          ap (count p) (classify-paths [] sorted)
          ∙ count-map p (λ k. k.0) sorted
          ∙ sort_by-count compare_keys (λ k. p k.0) keyed
          ∙ sym (count-map p (λ k. k.0) keyed)
          ∙ ap (count p) same;
    }
  where
    no_longer_trans : (a b c : Keyed) → NoLonger a b → NoLonger b c → NoLonger a c
    no_longer_trans a b c p q = omega (arith, p, q)

-- Validated roots are the roots that were given, in some order, each as often as before. The keys of
-- the effective ones are pairwise different, and none goes on from another with a separator; nothing
-- is said of a key that itself ends in a separator and one that goes on from it without another.
-- Each root's status holds: a valid one is effective and not in a quarantine, a forbidden one is in
-- a quarantine, a duplicate has the key of an effective root, and the key of a covered one goes on
-- with a separator from that of the effective root that is named. Validation fails only if no root
-- is given or one has no normal form.
pub validate_roots-Validation :
    (platform : Platform) (roots : List FilePath)
    → Validation platform roots (validate_roots platform roots)
unfolding validate_roots
validate_roots-Validation platform [] = inl refl
validate_roots-Validation platform (root ∷ roots) =
    from_keyed (normalize_all platform (root ∷ roots))
      (normalize_all-AllKeyed platform (root ∷ roots))
  where
    from_keyed :
        (r : Result (List Keyed))
        → AllKeyed platform (root ∷ roots) r
        → Validation platform
            (root ∷ roots)
            (r >>= (λ normalized. ok (classify [] (sort_by compare_keys normalized))))
    from_keyed (ok keyed) (h, same) = classified platform (root ∷ roots) keyed h same
    from_keyed (err e) h = inr h
