-- ===== src/DryRun/Summary.antt =====
-- What the report of crates/dedupe-core/src/dry_run.rs lists and counts.
use Prim.Native.Nat.{min}
use mathlib.Core.List.{append_assoc, append-nil}
use safe_duplicate_finder.Base.{
  ℕ, Bool-cases, inl, inr, ◌+◌, ◌≡◌, refl, ◌∙◌, sym, ap, true, List, [], ◌∷◌, ◌++◌, All, any,
  saturating_add, arith, if◌then◌else◌,
}
use safe_duplicate_finder.Error.{Result, ok, err}
use safe_duplicate_finder.Model.{
  DuplicateGroup, DuplicateMember, OperationPlan, Uuid, is_keep, is_quarantine, validate_keeper,
}
use safe_duplicate_finder.DryRun.{DryRunItem, DryRunReport, add_members, add_groups, build}

abbrev pub size_of : DuplicateMember → ℕ
size_of m = m.file.metadata.size_bytes

abbrev item_of : Uuid → DuplicateMember → DryRunItem
item_of group_id m = record {
  group_id = group_id;
  source = m.file.metadata.path;
  size_bytes = m.file.metadata.size_bytes;
  reason = m.reason;
}

-- The members that a plan moves, and the sum of their sizes, with no bound.
abbrev pub quarantined : Uuid → List DuplicateMember → List DryRunItem
quarantined group_id [] = []
quarantined group_id (m ∷ ms) =
    let rest = quarantined group_id ms in
    if is_quarantine m.action then item_of group_id m ∷ rest else rest

abbrev pub quarantined_bytes : List DuplicateMember → ℕ
quarantined_bytes [] = 0
quarantined_bytes (m ∷ ms) =
    (if is_quarantine m.action then m.file.metadata.size_bytes else 0) + quarantined_bytes ms

abbrev pub all_quarantined : List DuplicateGroup → List DryRunItem
all_quarantined [] = []
all_quarantined (g ∷ gs) = quarantined g.id g.members ++ all_quarantined gs

abbrev pub all_bytes : List DuplicateGroup → ℕ
all_bytes [] = 0
all_bytes (g ∷ gs) = quarantined_bytes g.members + all_bytes gs

abbrev pub capped : ℕ → ℕ
capped n = min n 18446744073709551615

pair_eq : {A B : Type 0} {a a' : A} {b b' : B} → a ≡ a' → b ≡ b' → ◌≡◌ {A = A × B} (a, b) (a', b')
pair_eq p q i = (p i, q i)

saturating_add-capped : (a b : ℕ) → saturating_add (capped a) b ≡ capped (a + b)
saturating_add-capped a b = ground arith

add_members-quarantined :
    (id : Uuid) (ms : List DuplicateMember) (items : List DryRunItem) (n : ℕ)
    → add_members id ms items (capped n)
      ≡ (items ++ quarantined id ms, capped (n + quarantined_bytes ms))
unfolding add_members
add_members-quarantined id [] items n = pair_eq (sym (append-nil items)) (omega arith)
add_members-quarantined id (m ∷ ms) items n = elim (Bool-cases (is_quarantine m.action)) [
  | inl q ↦
      rw (q, saturating_add-capped)
        (add_members-quarantined id ms (items ++ (item_of id m ∷ [])) (n + size_of m)
          ∙ pair_eq (append_assoc items (item_of id m ∷ []) (quarantined id ms)) (omega arith))
  | inr q ↦ rw q (add_members-quarantined id ms items n ∙ pair_eq refl (omega arith))
]

abbrev pub HasKeeper : DuplicateGroup → Type 0
HasKeeper g = any (λ m. is_keep m.action) g.members ≡ true

add_groups-quarantined :
    (gs : List DuplicateGroup) (items : List DryRunItem) (n : ℕ)
    → All HasKeeper gs
    → add_groups gs items (capped n) ≡ ok (items ++ all_quarantined gs, capped (n + all_bytes gs))
unfolding add_groups validate_keeper
add_groups-quarantined [] items n _ = ap ok (pair_eq (sym (append-nil items)) (omega arith))
add_groups-quarantined (g ∷ gs) items n (h, hs) =
    rw (h, add_members-quarantined)
      (add_groups-quarantined gs (items ++ quarantined g.id g.members)
          (n + quarantined_bytes g.members) hs
        ∙ ap ok (
            pair_eq (append_assoc items (quarantined g.id g.members) (all_quarantined gs))
              (omega arith)))

add_groups-unkept :
    (gs : List DuplicateGroup) (items : List DryRunItem) (n : ℕ) (r : List DryRunItem × ℕ)
    → add_groups gs items n ≡ ok r
    → All HasKeeper gs
unfolding add_groups validate_keeper
add_groups-unkept [] items n r h = tt
add_groups-unkept (g ∷ gs) items n r h = elim (Bool-cases (any (λ m. is_keep m.action) g.members)) [
  | inl kept ↦ (
    kept,
    add_groups-unkept gs (add_members g.id g.members items n).0
        (add_members g.id g.members items n).1 r (rw kept at h),
  )
  | inr none_kept ↦ (let h' = (rw none_kept at h) in ground arith)
]

abbrev report_of : OperationPlan → ℕ → DryRunReport
report_of plan bytes = record {
  plan_id = plan.id;
  items = all_quarantined plan.groups;
  potential_reclaimable_bytes = capped bytes;
}

build-unkept :
    (plan : OperationPlan) (r : Result (List DryRunItem × ℕ)) (report : DryRunReport)
    → add_groups plan.groups [] 0 ≡ r
    → build plan ≡ ok report
    → All HasKeeper plan.groups
unfolding build
build-unkept plan (ok made) report h b = add_groups-unkept plan.groups [] 0 made h
build-unkept plan (err e) report h b = absurd (let b' = (rw h at b) in ground arith)

-- A report is made exactly if every group keeps a member. It lists the members that the plan
-- quarantines, and no other, in the order of the plan, and counts their bytes up to 2^64 - 1.
pub build-quarantined :
    (plan : OperationPlan)
    → (All HasKeeper plan.groups
        → build plan
          ≡ ok (record {
            plan_id = plan.id;
            items = all_quarantined plan.groups;
            potential_reclaimable_bytes = capped (all_bytes plan.groups);
          }))
      × ((report : DryRunReport) → build plan ≡ ok report → All HasKeeper plan.groups)
unfolding build
build-quarantined plan = (
  λ h.
      rw (add_groups-quarantined plan.groups [] 0 h)
        (ap (λ n. ok (report_of plan n)) (omega arith)),
  λ report h. build-unkept plan (add_groups plan.groups [] 0) report refl h,
)
