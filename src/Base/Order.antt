-- ===== src/Base/Order.antt =====
-- `std::cmp::Ordering`: comparisons, their lexicographic composition, and the laws of an order.
use Prim.Native.Nat.{◌+◌, compare, Ordering}
use mathlib.Core.Path.{◌≡◌, refl}
use mathlib.Core.Logic.{◌≢◌}
use mathlib.Core.Bool.{Bool, true, false}
use mathlib.Core.List.{List, [], ◌∷◌}
use native.Mathlib.Omega.{arith}
use safe_duplicate_finder.Base.Lists.{Text}
use safe_duplicate_finder.Base.Int.{ℤ, pos_part, neg_part}

-- `first.then_with(|| second)`
abbrev pub then_with : Ordering → Ordering → Ordering
then_with Ordering.lt second = Ordering.lt
then_with Ordering.eq second = second
then_with Ordering.gt second = Ordering.gt

abbrev pub flip : Ordering → Ordering
flip Ordering.lt = Ordering.gt
flip Ordering.eq = Ordering.eq
flip Ordering.gt = Ordering.lt

-- The laws of a total preorder that is given by a comparison.
pub record IsOrder {A : Type 0} (cmp : A → A → Ordering) : Type 0 where
  pub swap : (a b : A) → cmp b a ≡ flip (cmp a b)
  pub lt_trans : (a b c : A) → cmp a b ≡ Ordering.lt → cmp b c ≡ Ordering.lt → cmp a c ≡ Ordering.lt
  pub eq_left : (a b c : A) → cmp a b ≡ Ordering.eq → cmp a c ≡ cmp b c

abbrev pub cmp_ℤ : ℤ → ℤ → Ordering
cmp_ℤ a b = compare (pos_part a + neg_part b) (pos_part b + neg_part a)

-- `false < true`
abbrev pub cmp_bool : Bool → Bool → Ordering
cmp_bool false true = Ordering.lt
cmp_bool true false = Ordering.gt
cmp_bool false false = Ordering.eq
cmp_bool true true = Ordering.eq

-- Lexicographic comparison of lists.
unfoldable pub cmp_list : {A : Type 0} → (A → A → Ordering) → List A → List A → Ordering
cmp_list cmp [] [] = Ordering.eq
cmp_list cmp [] (b ∷ ys) = Ordering.lt
cmp_list cmp (a ∷ xs) [] = Ordering.gt
cmp_list cmp (a ∷ xs) (b ∷ ys) = then_with (cmp a b) (cmp_list cmp xs ys)

abbrev pub cmp_text : Text → Text → Ordering
cmp_text = cmp_list compare

pub compare-IsOrder : IsOrder compare
compare-IsOrder = record {
  swap = λ a b. ground arith;
  lt_trans = λ a b c h k. ground arith;
  eq_left = λ a b c h. ground arith;
}

pub cmp_ℤ-IsOrder : IsOrder cmp_ℤ
cmp_ℤ-IsOrder = record {
  swap = λ a b. ground arith;
  lt_trans = λ a b c h k. ground arith;
  eq_left = λ a b c h. ground arith;
}

pub cmp_bool-IsOrder : IsOrder cmp_bool
cmp_bool-IsOrder = record {
  swap = λ a b. ground arith;
  lt_trans = λ a b c h k. ground arith;
  eq_left = λ a b c h. ground arith;
}

module _ {A : Type 0} (cmp : A → A → Ordering) (o : IsOrder cmp) where
  cmp_list-swap : (a b : List A) → cmp_list cmp b a ≡ flip (cmp_list cmp a b)
  unfolding cmp_list
  cmp_list-swap [] [] = refl
  cmp_list-swap [] (b ∷ bs) = refl
  cmp_list-swap (a ∷ xs) [] = refl
  cmp_list-swap (a ∷ xs) (b ∷ ys) = ground (arith, o.swap a b, cmp_list-swap xs ys)

  cmp_list-eq_left :
      (a b c : List A) → cmp_list cmp a b ≡ Ordering.eq → cmp_list cmp a c ≡ cmp_list cmp b c
  unfolding cmp_list
  cmp_list-eq_left [] [] c h = refl
  cmp_list-eq_left [] (b ∷ bs) c h = ground arith
  cmp_list-eq_left (a ∷ xs) [] c h = ground arith
  cmp_list-eq_left (a ∷ xs) (b ∷ ys) [] h = refl
  cmp_list-eq_left (a ∷ xs) (b ∷ ys) (c ∷ zs) h =
      ground (arith, o.eq_left a b c, cmp_list-eq_left xs ys zs)

  cmp_list-lt_trans :
      (a b c : List A)
      → cmp_list cmp a b ≡ Ordering.lt
      → cmp_list cmp b c ≡ Ordering.lt
      → cmp_list cmp a c ≡ Ordering.lt
  unfolding cmp_list
  cmp_list-lt_trans [] [] [] h k = h
  cmp_list-lt_trans [] (b ∷ ys) [] h k = ground arith
  cmp_list-lt_trans [] b (c ∷ zs) h k = refl
  cmp_list-lt_trans (a ∷ xs) [] c h k = ground arith
  cmp_list-lt_trans (a ∷ xs) (b ∷ ys) [] h k = ground arith
  cmp_list-lt_trans (a ∷ xs) (b ∷ ys) (c ∷ zs) h k = ground (
    arith,
    o.lt_trans a b c,
    o.eq_left a b c,
    o.eq_left c b a,
    o.swap a b,
    o.swap b c,
    o.swap a c,
    cmp_list-lt_trans xs ys zs,
  )

  pub cmp_list-IsOrder : IsOrder (cmp_list cmp)
  cmp_list-IsOrder = record {
    swap = cmp_list-swap;
    lt_trans = cmp_list-lt_trans;
    eq_left = cmp_list-eq_left;
  }

module _ {A B : Type 0} (cmp : B → B → Ordering) (f : A → B) (o : IsOrder cmp) where
  -- Comparing by a key.
  pub by_key-IsOrder : IsOrder {A = A} (λ a b. cmp (f a) (f b))
  by_key-IsOrder = record {
    swap = λ a b. o.swap (f a) (f b);
    lt_trans = λ a b c. o.lt_trans (f a) (f b) (f c);
    eq_left = λ a b c. o.eq_left (f a) (f b) (f c);
  }

  -- Comparing the other way round.
  pub reversed-IsOrder : IsOrder {A = A} (λ a b. cmp (f b) (f a))
  reversed-IsOrder = record {
    swap = λ a b. o.swap (f b) (f a);
    lt_trans = λ a b c h k. o.lt_trans (f c) (f b) (f a) k h;
    eq_left = λ a b c h.
        ground (arith, o.eq_left (f b) (f a) (f c) h, o.swap (f a) (f c), o.swap (f b) (f c));
  }

module _ {A : Type 0} (cmp₁ cmp₂ : A → A → Ordering) (o₁ : IsOrder cmp₁) (o₂ : IsOrder cmp₂) where
  pub then_with-IsOrder : IsOrder {A = A} (λ a b. then_with (cmp₁ a b) (cmp₂ a b))
  then_with-IsOrder = record {
    swap = λ a b. ground (arith, o₁.swap a b, o₂.swap a b);
    lt_trans = λ a b c h k. ground (
      arith,
      o₁.lt_trans a b c,
      o₁.eq_left a b c,
      o₁.eq_left b a c,
      o₁.eq_left c b a,
      o₁.eq_left b c a,
      o₁.swap a b,
      o₁.swap b c,
      o₁.swap a c,
      o₂.lt_trans a b c,
    );
    eq_left = λ a b c h. ground (arith, o₁.eq_left a b c, o₂.eq_left a b c);
  }

module _ {A : Type 0} (cmp : A → A → Ordering) (o : IsOrder cmp) where
  -- "not greater" is transitive, and one of two is not greater than the other.
  pub not_gt_trans :
      (a b c : A) → cmp a b ≢ Ordering.gt → cmp b c ≢ Ordering.gt → cmp a c ≢ Ordering.gt
  not_gt_trans a b c h k = ground (
    arith,
    o.lt_trans a b c,
    o.eq_left a b c,
    o.eq_left b a c,
    o.eq_left c b a,
    o.eq_left b c a,
    o.swap a b,
    o.swap b c,
    o.swap a c,
  )

  pub not_gt_of_gt : (a b : A) → cmp a b ≡ Ordering.gt → cmp b a ≢ Ordering.gt
  not_gt_of_gt a b h = ground (arith, o.swap a b)

  pub not_gt_self : (a : A) → cmp a a ≢ Ordering.gt
  not_gt_self a = ground (arith, o.swap a a)
