-- ===== src/Base/Sort.antt =====
-- `sort_by` of the standard library: stable, here by insertion.
use Prim.Native.Nat.{Ordering}
use mathlib.Core.Path.{◌≡◌, refl}
use mathlib.Core.Logic.{inl, inr}
use mathlib.Core.Bool.{Bool, true, false}
use mathlib.Core.List.{List, [], ◌∷◌}
use native.Mathlib.Omega.{arith}
use safe_duplicate_finder.Base.Lists.{All, All-mono, Pairwise, count}
use safe_duplicate_finder.Base.Tests.{if◌then◌else◌, Bool-cases}

abbrev pub is_gt : Ordering → Bool
is_gt Ordering.gt = true
is_gt _ = false

module _ {A : Type 0} (cmp : A → A → Ordering) where
  unfoldable pub insert_by : A → List A → List A
  insert_by x [] = x ∷ []
  insert_by x (y ∷ ys) =
      let rest = insert_by x ys in if is_gt (cmp x y) then y ∷ rest else x ∷ y ∷ ys

  unfoldable pub sort_by : List A → List A
  sort_by [] = []
  sort_by (x ∷ xs) = insert_by x (sort_by xs)

  insert_by-All : (P : A → Type 0) (x : A) (ys : List A) → P x → All P ys → All P (insert_by x ys)
  unfolding insert_by
  insert_by-All P x [] h hs = (h, tt)
  insert_by-All P x (y ∷ ys) h (hy, hs) = elim (Bool-cases (is_gt (cmp x y))) [
    | inl e ↦ rw e (hy, insert_by-All P x ys h hs)
    | inr e ↦ rw e (h, (hy, hs))
  ]

  -- What holds of every member holds of every member of the sorted list.
  pub sort_by-All : (P : A → Type 0) (xs : List A) → All P xs → All P (sort_by xs)
  unfolding sort_by
  sort_by-All P [] h = tt
  sort_by-All P (x ∷ xs) (h, hs) = insert_by-All P x (sort_by xs) h (sort_by-All P xs hs)

  insert_by-count :
      (p : A → Bool) (x : A) (ys : List A) → count p (insert_by x ys) ≡ count p (x ∷ ys)
  unfolding insert_by
  insert_by-count p x [] = refl
  insert_by-count p x (y ∷ ys) = elim (Bool-cases (is_gt (cmp x y))) [
    | inl e ↦ rw e (omega (arith, insert_by-count p x ys))
    | inr e ↦ rw e refl
  ]

  pub sort_by-count : (p : A → Bool) (xs : List A) → count p (sort_by xs) ≡ count p xs
  unfolding sort_by
  sort_by-count p [] = refl
  sort_by-count p (x ∷ xs) = omega (arith, insert_by-count p x (sort_by xs), sort_by-count p xs)

  -- A relation that the comparison decides, either way, holds along the sorted list.
  module _ (R : A → A → Type 0) (trans : (a b c : A) → R a b → R b c → R a c)
      (gt : (a b : A) → is_gt (cmp a b) ≡ true → R b a)
      (le : (a b : A) → is_gt (cmp a b) ≡ false → R a b) where
    insert_by-Pairwise : (x : A) (ys : List A) → Pairwise R ys → Pairwise R (insert_by x ys)
    unfolding insert_by
    insert_by-Pairwise x [] h = (tt, tt)
    insert_by-Pairwise x (y ∷ ys) (h, hs) = elim (Bool-cases (is_gt (cmp x y))) [
      | inl e ↦ rw e (insert_by-All (R y) x ys (gt x y e) h, insert_by-Pairwise x ys hs)
      | inr e ↦ rw e ((le x y e, All-mono _ _ (λ z r. trans x y z (le x y e) r) ys h), (h, hs))
    ]

    pub sort_by-Pairwise : (xs : List A) → Pairwise R (sort_by xs)
    unfolding sort_by
    sort_by-Pairwise [] = tt
    sort_by-Pairwise (x ∷ xs) = insert_by-Pairwise x (sort_by xs) (sort_by-Pairwise xs)
