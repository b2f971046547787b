-- ===== src/KeepPolicy/Selection.antt =====
-- The choice of crates/dedupe-core/src/keep_policy.rs: one least member is kept.
use Prim.Native.Nat.{compare, Ordering}
use native.Mathlib.Numerals.{one-add}
use safe_duplicate_finder.Base.{
  ℕ, ℤ, suc, ◌+◌, ◌≡◌, ◌≢◌, ◌⊎◌, inl, inr, refl, sym, ap, true, false, none, some, List, [], ◌∷◌,
  All, length, get_elem?, arith, IsOrder, cmp_ℤ, cmp_ℤ-IsOrder, cmp_bool, cmp_bool-IsOrder,
  compare-IsOrder, by_key-IsOrder, reversed-IsOrder, then_with-IsOrder, not_gt_trans, not_gt_of_gt,
  not_gt_self, Bool-cases, Option-cases,
}
use safe_duplicate_finder.Paths.{FilePath, path_eq, cmp_path-IsOrder}
use safe_duplicate_finder.Model.{
  DuplicateMember, KeepPolicy, default_roots, oldest, newest, shortest_path, manual_path,
}
use safe_duplicate_finder.KeepPolicy.{
  compare_path_length, path_of, under_primary, policy_order, is_gt, min_by, select_by, position,
}

compare_path_length-IsOrder : IsOrder compare_path_length
unfolding compare_path_length
compare_path_length-IsOrder =
    then_with-IsOrder _ _
      (by_key-IsOrder compare (λ (p : FilePath). length p.os_str) compare-IsOrder) cmp_path-IsOrder

by_path : IsOrder {A = DuplicateMember} (λ a b. compare_path_length (path_of a) (path_of b))
by_path = by_key-IsOrder compare_path_length path_of compare_path_length-IsOrder

abbrev modified : DuplicateMember → ℤ
modified m = m.file.metadata.modified_ns

-- Every policy compares by a total preorder.
pub policy_order-IsOrder : (policy : KeepPolicy) → IsOrder (policy_order policy)
unfolding policy_order
policy_order-IsOrder oldest =
    then_with-IsOrder _ _ (by_key-IsOrder cmp_ℤ modified cmp_ℤ-IsOrder) by_path
policy_order-IsOrder newest =
    then_with-IsOrder _ _ (reversed-IsOrder cmp_ℤ modified cmp_ℤ-IsOrder) by_path
policy_order-IsOrder shortest_path = by_path
policy_order-IsOrder (default_roots roots) =
    then_with-IsOrder _ _ (reversed-IsOrder cmp_bool (under_primary roots) cmp_bool-IsOrder)
      (then_with-IsOrder _ _ (by_key-IsOrder cmp_ℤ modified cmp_ℤ-IsOrder) by_path)
policy_order-IsOrder (manual_path path) = record {
  swap = λ a b. refl;
  lt_trans = λ a b c h k. h;
  eq_left = λ a b c h. refl;
}

module _ (order : DuplicateMember → DuplicateMember → Ordering) (o : IsOrder order) where
  abbrev pub NotAfter : DuplicateMember → DuplicateMember → Type 0
  NotAfter a b = order a b ≢ Ordering.gt

  -- What `min_by` finds among the best so far and the members to come.
  record Winner (best : DuplicateMember) (at next : ℕ) (ms : List DuplicateMember) (result : ℕ)
      : Type 0 where
    member : DuplicateMember
    place :
        ((member ≡ best) × (result ≡ at))
        ⊎ ((i : ℕ) × (result ≡ next + i) × (get_elem? ms i ≡ some member))
    beats_best : NotAfter member best
    beats_rest : All (NotAfter member) ms

  is_gt-cases :
      (r : Ordering)
      → ((is_gt r ≡ true) × (r ≡ Ordering.gt)) ⊎ ((is_gt r ≡ false) × (r ≢ Ordering.gt))
  is_gt-cases r = ground arith

  Winner-after_gt :
      (best m : DuplicateMember) (at next r : ℕ) (ms : List DuplicateMember)
      → order best m ≡ Ordering.gt
      → Winner m next (next + 1) ms r
      → Winner best at next (m ∷ ms) r
  Winner-after_gt best m at next r ms gt w = record {
    member = w.member;
    place = elim (w.place) [
      | inl (e, p) ↦ inr (0, omega arith, ap some (sym e))
      | inr (i, p, q) ↦ inr (suc i, omega arith, q)
    ];
    beats_best = not_gt_trans order o _ m best w.beats_best (not_gt_of_gt order o best m gt);
    beats_rest = (w.beats_best, w.beats_rest);
  }

  Winner-after_le :
      (best m : DuplicateMember) (at next r : ℕ) (ms : List DuplicateMember)
      → order best m ≢ Ordering.gt
      → Winner best at (next + 1) ms r
      → Winner best at next (m ∷ ms) r
  Winner-after_le best m at next r ms le w = record {
    member = w.member;
    place = elim (w.place) [ inl e ↦ inl e | inr (i, p, q) ↦ inr (suc i, omega arith, q) ];
    beats_best = w.beats_best;
    beats_rest = (not_gt_trans order o _ best m w.beats_best le, w.beats_rest);
  }

  min_by-Winner :
      (best : DuplicateMember) (at next : ℕ) (ms : List DuplicateMember)
      → Winner best at next ms (min_by order best at next ms)
  unfolding min_by
  min_by-Winner best at next [] = record {
    member = best;
    place = inl (refl, refl);
    beats_best = not_gt_self order o best;
    beats_rest = tt;
  }
  min_by-Winner best at next (m ∷ ms) = elim (is_gt-cases (order best m)) [
    | inl (t, gt) ↦
        rw (t, min_by) (Winner-after_gt best m at next _ ms gt (min_by-Winner m next (next + 1) ms))
    | inr (t, le) ↦
        rw (t, min_by)
          (Winner-after_le best m at next _ ms le (min_by-Winner best at (next + 1) ms))
  ]

  -- The member at the index that `select_by` returns, and that none is before it.
  pub select_by-least :
      (m : DuplicateMember) (ms : List DuplicateMember)
      → (keeper : DuplicateMember) × (get_elem? (m ∷ ms) (select_by order (m ∷ ms)) ≡ some keeper)
        × All (NotAfter keeper) (m ∷ ms)
  unfolding select_by
  select_by-least m ms =
      let w = min_by-Winner m 0 1 ms in (w.member, place_of m ms _ w, (w.beats_best, w.beats_rest))
    where
      place_of :
          (m : DuplicateMember) (ms : List DuplicateMember) (r : ℕ) (w : Winner m 0 1 ms r)
          → get_elem? (m ∷ ms) r ≡ some w.member
      place_of m ms r w = elim (w.place) [
        | inl (e, p) ↦ rw p (ap some (sym e))
        | inr (i, p, q) ↦ rw (p, one-add) q
      ]

-- The index that is chosen by hand is that of a member with the path.
pub position-found :
    (path : FilePath) (ms : List DuplicateMember) (k : ℕ)
    → position path ms ≡ some k
    → (keeper : DuplicateMember) × (get_elem? ms k ≡ some keeper)
      × (path_eq (path_of keeper) path ≡ true)
unfolding position
position-found path [] k h = cc
position-found path (m ∷ ms) k h = elim (Bool-cases (path_eq (path_of m) path)) [
  | inl t ↦ let here : 0 ≡ k = ground arith in (m, rw (← here) refl, t)
  | inr f ↦ elim (Option-cases (position path ms)) [
    | inl n ↦ absurd (ground arith)
    | inr (i, e) ↦
        let (keeper, at, same) = position-found path ms i e in
        let there : suc i ≡ k = ground arith in (keeper, rw (← there) at, same)
  ]
]

pub position-none :
    (path : FilePath) (ms : List DuplicateMember)
    → position path ms ≡ none
    → All (λ m. path_eq (path_of m) path ≡ false) ms
unfolding position
position-none path [] h = tt
position-none path (m ∷ ms) h = ground (arith, position-none path ms)
