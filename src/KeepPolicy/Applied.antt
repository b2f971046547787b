-- ===== src/KeepPolicy/Applied.antt =====
-- What `apply` of crates/dedupe-core/src/keep_policy.rs makes of a group.
use Prim.Native.Nat.{Ordering}
use mathlib.Core.Option.{some-injective}
use safe_duplicate_finder.Base.{
  ℕ, ◌≡◌, ◌≢◌, ◌⊎◌, inl, inr, refl, true, false, none, some, List, [], ◌∷◌, All, map, get_elem?,
  count, arith,
}
use safe_duplicate_finder.Paths.{FilePath, path_eq}
use safe_duplicate_finder.Error.{ok}
use safe_duplicate_finder.Model.{
  DuplicateGroup, DuplicateMember, KeepPolicy, default_roots, oldest, newest, shortest_path,
  manual_path, keep, validate_keeper,
}
use safe_duplicate_finder.KeepPolicy.{path_of, policy_order, choose, mark, keeper_reason, apply}
use safe_duplicate_finder.Ports.Hoare.{Post, Post-guard, Post-or_raise, returns}
use safe_duplicate_finder.KeepPolicy.Selection.{
  position-found, position-none, policy_order-IsOrder, select_by-least,
}
use safe_duplicate_finder.KeepPolicy.Marking.{
  is_kept, file_of, IsMarked, mark-IsMarked, map-mark, count-mark, mark-at, any_of_count,
}

-- That a policy prefers a member: no other member is before it, or it has the path that was named.
abbrev pub Prefers : KeepPolicy → DuplicateMember → List DuplicateMember → Type 0
Prefers (manual_path path) m ms = path_eq (path_of m) path ≡ true
Prefers oldest m ms = All (λ other. policy_order oldest m other ≢ Ordering.gt) ms
Prefers newest m ms = All (λ other. policy_order newest m other ≢ Ordering.gt) ms
Prefers shortest_path m ms = All (λ other. policy_order shortest_path m other ≢ Ordering.gt) ms
Prefers (default_roots roots) m ms =
    All (λ other. policy_order (default_roots roots) m other ≢ Ordering.gt) ms

-- The group after a policy has been applied.
pub record IsApplied (policy : KeepPolicy) (g g' : DuplicateGroup) : Type 0 where
  pub keeper : DuplicateMember
  pub place : ℕ
  pub stood_there : get_elem? g.members place ≡ some keeper
  pub preferred : Prefers policy keeper g.members
  pub kept_there :
      get_elem? g'.members place
      ≡ some (record keeper { action = keep; reason = keeper_reason policy })
  pub one_kept : count is_kept g'.members ≡ 1
  pub all_marked : All IsMarked g'.members
  pub same_files : map file_of g'.members ≡ map file_of g.members
  pub same_group : g' ≡ record g { members = g'.members }

choose-Prefers :
    (policy : KeepPolicy) (m : DuplicateMember) (ms : List DuplicateMember) (k : ℕ)
    → choose policy (m ∷ ms) ≡ some k
    → (keeper : DuplicateMember) × (get_elem? (m ∷ ms) k ≡ some keeper)
      × Prefers policy keeper (m ∷ ms)
unfolding choose
choose-Prefers (manual_path path) m ms k h = position-found path (m ∷ ms) k h
choose-Prefers oldest m ms k h =
    rw (← some-injective _ _ h) (select_by-least _ (policy_order-IsOrder oldest) m ms)
choose-Prefers newest m ms k h =
    rw (← some-injective _ _ h) (select_by-least _ (policy_order-IsOrder newest) m ms)
choose-Prefers shortest_path m ms k h =
    rw (← some-injective _ _ h) (select_by-least _ (policy_order-IsOrder shortest_path) m ms)
choose-Prefers (default_roots roots) m ms k h =
    rw (← some-injective _ _ h)
      (select_by-least _ (policy_order-IsOrder (default_roots roots)) m ms)

-- Why a policy may fail to choose.
abbrev pub NoChoice : KeepPolicy → DuplicateGroup → Type 0
NoChoice policy g =
    (g.members ≡ [])
    ⊎ ((path : FilePath) × (policy ≡ manual_path path)
        × All (λ m. path_eq (path_of m) path ≡ false) g.members)

choose-NoChoice :
    (policy : KeepPolicy) (g : DuplicateGroup) → choose policy g.members ≡ none → NoChoice policy g
unfolding choose
choose-NoChoice (manual_path path) g h = inr (path, refl, position-none path g.members h)
choose-NoChoice oldest g h = cc
choose-NoChoice newest g h = cc
choose-NoChoice shortest_path g h = cc
choose-NoChoice (default_roots roots) g h = cc

abbrev marked : KeepPolicy → ℕ → DuplicateGroup → DuplicateGroup
marked policy k g = record g { members = mark (keeper_reason policy) k 0 g.members }

marked-IsApplied :
    (policy : KeepPolicy) (g : DuplicateGroup) (m : DuplicateMember) (ms : List DuplicateMember)
    (k : ℕ)
    → choose policy (m ∷ ms) ≡ some k
    → let g = record g { members = m ∷ ms } in
      IsApplied policy g (marked policy k g) × (validate_keeper (marked policy k g) ≡ ok tt)
unfolding validate_keeper
marked-IsApplied policy g m ms k h =
    let (keeper, at, liked) = choose-Prefers policy m ms k h in
    let reason = keeper_reason policy in
    let one = count-mark reason k 0 k (m ∷ ms) {kept = keeper} (omega arith) at in
    (
      record {
        keeper = keeper;
        place = k;
        stood_there = at;
        preferred = liked;
        kept_there = mark-at reason k 0 k (m ∷ ms) {kept = keeper} (omega arith) at;
        one_kept = one;
        all_marked = mark-IsMarked reason k 0 (m ∷ ms);
        same_files = map-mark reason k 0 (m ∷ ms);
        same_group = refl;
      },
      rw (any_of_count (mark reason k 0 (m ∷ ms)) one) refl,
    )

apply_to :
    (policy : KeepPolicy) (g : DuplicateGroup) (ms : List DuplicateMember)
    → let g = record g { members = ms } in
      Post (λ _ g'. IsApplied policy g g') (λ e g'. (g' ≡ g) × NoChoice policy g) (apply policy g)
unfolding apply
apply_to policy g [] = Post-guard _ _ _ _ (λ h. cc) (λ _. (refl, inl refl))
apply_to policy g (m ∷ ms) =
    Post-guard _ _ _ _
      (λ _.
        Post-or_raise _ _ _ _
          (λ k h.
            let (applied, valid) = marked-IsApplied policy g m ms k h in rw valid (returns applied))
          (λ h. (refl, choose-NoChoice policy (record g { members = m ∷ ms }) h)))
      (λ h. (refl, inl cc))

-- A policy that is applied to a group either keeps exactly one member, one that the policy prefers
-- to all, sends every other member to quarantine and changes nothing else; or it fails and leaves
-- the group as it was, because the group is empty or no member has the path chosen by hand.
pub apply-IsApplied :
    (policy : KeepPolicy) (g : DuplicateGroup)
    → Post (λ _ g'. IsApplied policy g g') (λ e g'. (g' ≡ g) × NoChoice policy g) (apply policy g)
apply-IsApplied policy g = apply_to policy g g.members
