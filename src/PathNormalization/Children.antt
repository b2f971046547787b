-- ===== src/PathNormalization/Children.antt =====
-- The order of normalized keys by `is_same_or_child` of crates/dedupe-core/src/path_normalization.rs.
use safe_duplicate_finder.Base.{
  ℕ, ◌≢◌, false, ◌≡◌, refl, ◌∙◌, ap, ◌⊎◌, inl, inr, ◌↔◌, true, Option, some, none, [], ◌∷◌, ◌++◌,
  Text, text_eq, text_eq→eq, text_eq_refl, arith, Bool-cases,
}
use safe_duplicate_finder.PathNormalization.{strip_text, is_same_or_child, is_child_suffix}

first_same : {a b : ℕ} {s t : Text} → a ∷ s ≡ b ∷ t → a ≡ b
first_same h = cc

rest_same : {a b : ℕ} {s t : Text} → a ∷ s ≡ b ∷ t → s ≡ t
rest_same h = cc

-- What is stripped off is put before again.
pub append-strip_text : (t p rest : Text) → strip_text t p ≡ some rest → t ≡ p ++ rest
unfolding strip_text
append-strip_text t [] rest h = ground (arith, h)
append-strip_text [] (b ∷ p) rest h = absurd (ground (arith, h))
append-strip_text (a ∷ t) (b ∷ p) rest h = ground (arith, h, append-strip_text t p rest)

pub strip_text-append : (p rest : Text) → strip_text (p ++ rest) p ≡ some rest
unfolding strip_text
strip_text-append [] rest = refl
strip_text-append (a ∷ p) rest = ground (arith, strip_text-append p rest)

-- `is_same_or_child` says yes exactly if the candidate is equal to the root, or goes on from it with
-- a separator: one behind the root, whether or not the root itself ends in one.
pub is_same_or_child_iff :
    (root candidate : Text)
    → (is_same_or_child root candidate ≡ true)
      ↔ ((candidate ≡ root) ⊎ ((rest : Text) × (candidate ≡ root ++ (92 ∷ rest))))
unfolding is_same_or_child
is_same_or_child_iff root candidate = (covers, covered)
  where
    from_suffix :
        (o : Option Text)
        → strip_text candidate root ≡ o
        → is_child_suffix o ≡ true
        → (rest : Text) × (candidate ≡ root ++ (92 ∷ rest))
    from_suffix none e h = absurd (ground (arith, h))
    from_suffix (some []) e h = absurd (ground (arith, h))
    from_suffix (some (b ∷ rest)) e h = (
      rest,
      append-strip_text candidate root (b ∷ rest) e
          ∙ ap (λ c. root ++ (c ∷ rest)) (ground (arith, h)),
    )

    covers :
        is_same_or_child root candidate ≡ true
        → (candidate ≡ root) ⊎ ((rest : Text) × (candidate ≡ root ++ (92 ∷ rest)))
    covers h = elim (Bool-cases (text_eq candidate root)) [
      | inl e ↦ inl (text_eq→eq candidate root e)
      | inr e ↦ inr (from_suffix (strip_text candidate root) refl (ground (arith, h, e)))
    ]

    covered :
        (candidate ≡ root) ⊎ ((rest : Text) × (candidate ≡ root ++ (92 ∷ rest)))
        → is_same_or_child root candidate ≡ true
    covered (inl e) = rw (e, text_eq_refl root) refl
    covered (inr (rest, e)) =
        ground (arith, e, strip_text-append root (92 ∷ rest), text_eq_refl root)

-- A root that ends in a separator, as that of a drive does, misses what is directly below it: no
-- candidate that goes on from it with a text that does not begin with another separator is said to
-- be its child.
pub separator_root_misses :
    (root name : Text) (b : ℕ)
    → b ≢ 92
    → is_same_or_child (root ++ (92 ∷ [])) ((root ++ (92 ∷ [])) ++ (b ∷ name)) ≡ false
separator_root_misses root name b other =
    let drive = root ++ (92 ∷ []) in
    elim (Bool-cases (is_same_or_child drive (drive ++ (b ∷ name)))) [
      | inr e ↦ e
      | inl e ↦ absurd (no_child drive ((is_same_or_child_iff drive (drive ++ (b ∷ name))).0 e))
    ]
  where
    no_child :
        (drive : Text)
        → (drive ++ (b ∷ name) ≡ drive)
          ⊎ ((rest : Text) × (drive ++ (b ∷ name) ≡ drive ++ (92 ∷ rest)))
        → ⊥
    no_child [] (inl e) = ground (arith, e)
    no_child [] (inr (rest, e)) = other (first_same e)
    no_child (c ∷ drive) (inl e) = no_child drive (inl (rest_same e))
    no_child (c ∷ drive) (inr (rest, e)) = no_child drive (inr (rest, rest_same e))
