-- ===== src/ProjectManager/Roots.antt =====
-- What the validated roots of crates/dedupe-core/src/project_manager.rs are.
use mathlib.Core.List.{Memᴰ}
use mathlib.Core.List.Memᴰ.{head, tail}
use safe_duplicate_finder.Base.{
  ◌≤◌, ◌≡◌, refl, ap, sym, ◌⊎◌, inl, inr, true, false, some, none, List, [], ◌∷◌, ◌++◌, map, length,
  length-append, Text, arith, Option-cases, Bool-cases, All, is_gt,
}
use safe_duplicate_finder.Paths.{FilePath}
use safe_duplicate_finder.PathNormalization.{is_same_or_child}
use safe_duplicate_finder.PathNormalization.Children.{is_same_or_child_iff}
use safe_duplicate_finder.ProjectManager.{
  is_quarantine_path, Keyed, compare_keys, find_cover, classify, effective_roots,
}

abbrev pub NoLonger : Keyed → Keyed → Type 0
NoLonger a b = length a.1 ≤ length b.1

pub compare_keys-gt : (a b : Keyed) → is_gt (compare_keys a b) ≡ true → NoLonger b a
compare_keys-gt a b h = ground (arith, h)

pub compare_keys-le : (a b : Keyed) → is_gt (compare_keys a b) ≡ false → NoLonger a b
compare_keys-le a b h = ground (arith, h)

-- Neither key covers the other.
abbrev pub AreApart : Text → Text → Type 0
AreApart a b = (is_same_or_child a b ≡ false) × (is_same_or_child b a ≡ false)

-- A key that is no longer than another, and does not cover it, is not covered by it.
pub no_cover_back :
    (a b : Text) → length a ≤ length b → is_same_or_child a b ≡ false → is_same_or_child b a ≡ false
no_cover_back a b short h = elim (Bool-cases (is_same_or_child b a)) [
  | inr e ↦ e
  | inl e ↦ from_cover ((is_same_or_child_iff b a).0 e)
]
  where
    from_cover : (a ≡ b) ⊎ ((rest : Text) × (a ≡ b ++ (92 ∷ rest))) → is_same_or_child b a ≡ false
    from_cover (inl e) = cc
    from_cover (inr (rest, e)) =
        absurd (omega (arith, ap length e, length-append b (92 ∷ rest), short))

pub find_cover-none :
    (key : Text) (accepted : List Keyed)
    → find_cover key accepted ≡ none
    → All (λ a. is_same_or_child a.1 key ≡ false) accepted
unfolding find_cover
find_cover-none key [] h = tt
find_cover-none key (a ∷ accepted) h = elim (Bool-cases (is_same_or_child a.1 key)) [
  | inl e ↦ absurd (let h' = (rw (e, find_cover) at h) in ground (arith, h'))
  | inr e ↦ (e, find_cover-none key accepted (rw (e, find_cover) at h))
]

pub find_cover-some :
    (key : Text) (accepted : List Keyed) (existing : Keyed)
    → find_cover key accepted ≡ some existing
    → Memᴰ existing accepted × (is_same_or_child existing.1 key ≡ true)
unfolding find_cover
find_cover-some key [] existing h = absurd (ground (arith, h))
find_cover-some key (a ∷ accepted) existing h = elim (Bool-cases (is_same_or_child a.1 key)) [
  | inl e ↦
      let same : a ≡ existing = (let h' = (rw (e, find_cover) at h) in cc) in
      (head (sym same), rw (← same) e)
  | inr e ↦
      let found = find_cover-some key accepted existing (rw (e, find_cover) at h) in
      (tail found.0, found.1)
]

-- The keys that are accepted after those before.
unfoldable pub accepted_keys : List Keyed → List Keyed → List Keyed
accepted_keys accepted [] = []
accepted_keys accepted ((path, key) ∷ normalized) = elim (is_quarantine_path path) [
  | true ↦ accepted_keys accepted normalized
  | false ↦ elim (find_cover key accepted) [
    | some existing ↦ accepted_keys accepted normalized
    | none ↦ (path, key) ∷ accepted_keys (accepted ++ ((path, key) ∷ [])) normalized
  ]
]

-- The three turns of the loop.
pub data Turn (accepted : List Keyed) (path : FilePath) (key : Text) : Type 0 where
  forbidden : is_quarantine_path path ≡ true → Turn accepted path key
  covered :
      (existing : Keyed)
      → is_quarantine_path path ≡ false
      → find_cover key accepted ≡ some existing
      → Turn accepted path key
  new : is_quarantine_path path ≡ false → find_cover key accepted ≡ none → Turn accepted path key

pub Turn-cases : (accepted : List Keyed) (path : FilePath) (key : Text) → Turn accepted path key
Turn-cases accepted path key = elim (Bool-cases (is_quarantine_path path)) [
  | inl q ↦ forbidden q
  | inr q ↦ elim (Option-cases (find_cover key accepted)) [
    | inl n ↦ new q n
    | inr (existing, f) ↦ covered existing q f
  ]
]

pub effective_roots-classify :
    (accepted normalized : List Keyed)
    → effective_roots (classify accepted normalized)
      ≡ map (λ k. k.0) (accepted_keys accepted normalized)
unfolding effective_roots classify accepted_keys
effective_roots-classify accepted [] = refl
effective_roots-classify accepted ((path, key) ∷ normalized) =
    from_turn (Turn-cases accepted path key) (effective_roots-classify accepted normalized)
      (effective_roots-classify (accepted ++ ((path, key) ∷ [])) normalized)
  where
    from_turn :
        Turn accepted path key
        → effective_roots (classify accepted normalized)
          ≡ map (λ k. k.0) (accepted_keys accepted normalized)
        → effective_roots (classify (accepted ++ ((path, key) ∷ [])) normalized)
          ≡ map (λ k. k.0) (accepted_keys (accepted ++ ((path, key) ∷ [])) normalized)
        → effective_roots (classify accepted ((path, key) ∷ normalized))
          ≡ map (λ k. k.0) (accepted_keys accepted ((path, key) ∷ normalized))
    from_turn (forbidden q) same longer = ground (arith, q, same)
    from_turn (covered existing q f) same longer = ground (arith, q, f, same)
    from_turn (new q n) same longer = ground (arith, q, n, longer)
