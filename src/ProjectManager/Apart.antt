-- ===== src/ProjectManager/Apart.antt =====
-- The roots that crates/dedupe-core/src/project_manager.rs accepts do not overlap.
use safe_duplicate_finder.Base.{
  ◌≤◌, ◌≡◌, false, List, [], ◌∷◌, ◌++◌, length, Text, All, All-mono, All-append, Pairwise,
}
use safe_duplicate_finder.Paths.{FilePath}
use safe_duplicate_finder.PathNormalization.{is_same_or_child}
use safe_duplicate_finder.ProjectManager.{Keyed}
use safe_duplicate_finder.ProjectManager.Roots.{
  NoLonger, AreApart, no_cover_back, find_cover-none, accepted_keys, Turn, forbidden, covered, new,
  Turn-cases,
}

abbrev pub KeysApart : Keyed → Keyed → Type 0
KeysApart a b = AreApart a.1 b.1

-- Every key that is accepted is apart from each key accepted before.
module _ (path : FilePath) (key : Text) where
  new-apart :
      (accepted : List Keyed)
      → All (λ a. length a.1 ≤ length key) accepted
      → All (λ a. is_same_or_child a.1 key ≡ false) accepted
      → All (λ a. KeysApart a (path, key)) accepted
  new-apart [] short h = tt
  new-apart (a ∷ accepted) (s, short) (h, hs) =
      ((h, no_cover_back a.1 key s h), new-apart accepted short hs)

pub record Apart (accepted kept : List Keyed) : Type 0 where
  pub from_accepted : All (λ a. All (KeysApart a) kept) accepted
  pub pairwise : Pairwise KeysApart kept

with_new :
    (k : Keyed) (kept accepted : List Keyed)
    → All (λ a. KeysApart a k) accepted
    → All (λ a. All (KeysApart a) kept) (accepted ++ (k ∷ []))
    → All (λ a. All (KeysApart a) (k ∷ kept)) accepted
with_new k kept [] h hs = tt
with_new k kept (a ∷ accepted) (h, rest) (x, xs) = ((h, x), with_new k kept accepted rest xs)

of_new :
    (k : Keyed) (kept accepted : List Keyed)
    → All (λ a. All (KeysApart a) kept) (accepted ++ (k ∷ []))
    → All (KeysApart k) kept
of_new k kept [] (h, _) = h
of_new k kept (a ∷ accepted) (_, hs) = of_new k kept accepted hs

none_of : (accepted : List Keyed) → All (λ a. All (KeysApart a) []) accepted
none_of [] = tt
none_of (a ∷ accepted) = (tt, none_of accepted)

pub accepted_keys-Apart :
    (accepted normalized : List Keyed)
    → All (λ a. All (NoLonger a) normalized) accepted
    → Pairwise NoLonger normalized
    → Apart accepted (accepted_keys accepted normalized)
unfolding accepted_keys
accepted_keys-Apart accepted [] short sorted = record {
  from_accepted = none_of accepted;
  pairwise = tt;
}
accepted_keys-Apart accepted ((path, key) ∷ normalized) short (first, sorted) =
    from_turn (Turn-cases accepted path key)
      (accepted_keys-Apart accepted normalized (All-mono _ _ (λ _ h. h.1) accepted short) sorted)
      (accepted_keys-Apart (accepted ++ ((path, key) ∷ [])) normalized
        (All-append _ accepted _ (All-mono _ _ (λ _ h. h.1) accepted short) (first, tt)) sorted)
  where
    from_turn :
        Turn accepted path key
        → Apart accepted (accepted_keys accepted normalized)
        → Apart
            (accepted ++ ((path, key) ∷ []))
            (accepted_keys (accepted ++ ((path, key) ∷ [])) normalized)
        → Apart accepted (accepted_keys accepted ((path, key) ∷ normalized))
    from_turn (forbidden q) same longer = rw (q, accepted_keys) same
    from_turn (covered existing q f) same longer = rw (q, f, accepted_keys) same
    from_turn (new q n) same longer =
        let apart =
          new-apart path key accepted (All-mono _ _ (λ _ h. h.0) accepted short)
            (find_cover-none key accepted n) in
        rw (q, n, accepted_keys)
          (record {
            from_accepted = with_new (path, key) _ accepted apart longer.from_accepted;
            pairwise = (of_new (path, key) _ accepted longer.from_accepted, longer.pairwise);
          })
