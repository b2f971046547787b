-- ===== src/KeepPolicy.antt =====
-- crates/dedupe-core/src/keep_policy.rs: which member of a group is kept. The group that is
-- borrowed mutably is the state.
pub mod Keys
pub mod Selection
pub mod Marking
pub mod Applied
use Prim.Native.Nat.{compare, Ordering}
use safe_duplicate_finder.Base.{
  ℕ, ◌+◌, ◌≡◌, Bool, true, false, Option, none, some, List, [], ◌∷◌, any, length, cmp_ℤ, cmp_bool,
  then_with, ◌==◌, if◌then◌else◌,
}
use safe_duplicate_finder.Paths.{FilePath, path_eq, starts_with, cmp_path}
use safe_duplicate_finder.Error.{state, invalid_input, empty_group, manual_keeper_not_in_group}
use safe_duplicate_finder.Model.{
  DuplicateGroup, DuplicateMember, MemberReason, not_selected, default_policy, oldest_modified,
  newest_modified, shortest_path_kept, chosen_manually, keep, quarantine, KeepPolicy, default_roots,
  oldest, newest, shortest_path, manual_path, validate_keeper,
}
use safe_duplicate_finder.Ports.Monad.{
  Action, ◌>>=◌, ◌>>◌, pure, raise, raise_if, or_raise, lift_result, get_state, put_state,
}

unfoldable pub compare_path_length : FilePath → FilePath → Ordering
compare_path_length left right =
    then_with (compare (length left.os_str) (length right.os_str)) (cmp_path left right)

abbrev pub path_of : DuplicateMember → FilePath
path_of m = m.file.metadata.path

abbrev under_primary : List FilePath → DuplicateMember → Bool
under_primary roots m = any (λ root. starts_with (path_of m) root) roots

-- The comparison that a policy hands to `select_by`. A manual choice has none.
unfoldable pub policy_order : KeepPolicy → DuplicateMember → DuplicateMember → Ordering
policy_order oldest left right =
    then_with (cmp_ℤ left.file.metadata.modified_ns right.file.metadata.modified_ns)
      (compare_path_length (path_of left) (path_of right))
policy_order newest left right =
    then_with (cmp_ℤ right.file.metadata.modified_ns left.file.metadata.modified_ns)
      (compare_path_length (path_of left) (path_of right))
policy_order shortest_path left right = compare_path_length (path_of left) (path_of right)
policy_order (default_roots roots) left right =
    then_with (cmp_bool (under_primary roots right) (under_primary roots left)) (
      then_with (cmp_ℤ left.file.metadata.modified_ns right.file.metadata.modified_ns)
        (compare_path_length (path_of left) (path_of right)))
policy_order (manual_path path) left right = Ordering.eq

-- `enumerate().min_by(...)`: the first of the least members, with the best so far and its index.
abbrev is_gt : Ordering → Bool
is_gt Ordering.gt = true
is_gt _ = false

unfoldable pub min_by :
    (DuplicateMember → DuplicateMember → Ordering)
    → DuplicateMember
    → ℕ
    → ℕ
    → List DuplicateMember
    → ℕ
min_by order best at next [] = at
min_by order best at next (m ∷ ms) = elim (is_gt (order best m)) [
  | true ↦ min_by order m next (next + 1) ms
  | false ↦ min_by order best at (next + 1) ms
]

unfoldable pub select_by : (DuplicateMember → DuplicateMember → Ordering) → List DuplicateMember → ℕ
unfolding min_by
select_by order [] = 0
select_by order (m ∷ ms) = min_by order m 0 1 ms

-- `iter().position(|member| member.path == *path)`
unfoldable pub position : FilePath → List DuplicateMember → Option ℕ
position path [] = none
position path (m ∷ ms) = elim (path_eq (path_of m) path) [
  | true ↦ some 0
  | false ↦ elim (position path ms) [ none ↦ none | some i ↦ some (i + 1) ]
]

unfoldable pub choose : KeepPolicy → List DuplicateMember → Option ℕ
choose (manual_path path) members = position path members
choose oldest members = some (select_by (policy_order oldest) members)
choose newest members = some (select_by (policy_order newest) members)
choose shortest_path members = some (select_by (policy_order shortest_path) members)
choose (default_roots roots) members = some (select_by (policy_order (default_roots roots)) members)

abbrev pub keeper_reason : KeepPolicy → MemberReason
keeper_reason (default_roots _) = default_policy
keeper_reason oldest = oldest_modified
keeper_reason newest = newest_modified
keeper_reason shortest_path = shortest_path_kept
keeper_reason (manual_path _) = chosen_manually

-- The loop over `iter_mut().enumerate()`, from an index on.
unfoldable pub mark : MemberReason → ℕ → ℕ → List DuplicateMember → List DuplicateMember
mark reason keeper index [] = []
mark reason keeper index (m ∷ ms) =
    (if index == keeper
      then record m { action = keep; reason = reason }
      else record m { action = quarantine; reason = not_selected })
    ∷ mark reason keeper (index + 1) ms

abbrev is_empty : List DuplicateMember → Bool
is_empty [] = true
is_empty (_ ∷ _) = false

unfoldable pub apply : KeepPolicy → Action DuplicateGroup (Unit {0})
apply policy = do
  group ← get_state
  raise_if (is_empty group.members) (state empty_group)
  keeper ← or_raise (choose policy group.members) (invalid_input manual_keeper_not_in_group)
  let marked = record group { members = mark (keeper_reason policy) keeper 0 group.members }
  put_state marked
  lift_result (validate_keeper marked)
