-- ===== src/ProjectManager.antt =====
-- crates/dedupe-core/src/project_manager.rs: the roots of a project, without overlap.
pub mod Roots
pub mod Apart
pub mod Validated
use Prim.Native.Nat.{compare, Ordering}
use safe_duplicate_finder.Base.{
  ℕ, ◌+◌, Bool, true, false, ◌||◌, ◌&&◌, Option, none, some, List, [], ◌∷◌, ◌++◌, map, any, Text,
  text_eq, length, sort_by, then_with, cmp_text, ltb, leb, if◌then◌else◌,
}
use safe_duplicate_finder.Paths.{FilePath, Component, prefix, root_dir, cur_dir, parent_dir, normal}
use safe_duplicate_finder.Error.{
  Result, ok, err, ◌>>=◌, ◌>>◌, refuse_if, invalid_input, no_root_given,
}
use safe_duplicate_finder.PathNormalization.{Platform, normalize_path, is_same_or_child}

pub data RootStatus : Type 0 where
  valid duplicate quarantine_forbidden : RootStatus
  covered_by : FilePath → RootStatus

pub record ValidatedRoot : Type 0 where
  pub path : FilePath
  pub status : RootStatus

-- `as_os_str` of a component (where the separator is a slash)
abbrev component_os_str : Component → Text
component_os_str (prefix t) = t
component_os_str root_dir = 47 ∷ []
component_os_str cur_dir = 46 ∷ []
component_os_str parent_dir = 46 ∷ 46 ∷ []
component_os_str (normal t) = t

abbrev ascii_lower : ℕ → ℕ
ascii_lower b = if leb 65 b && leb b 90 then b + 32 else b

-- `eq_ignore_ascii_case`
abbrev same_ignoring_case : Text → Text → Bool
same_ignoring_case a b = text_eq (map ascii_lower a) (map ascii_lower b)

-- ".safe-duplicate-finder-quarantine"
abbrev pub quarantine_name : Text
quarantine_name =
    46 ∷ 115 ∷ 97 ∷ 102 ∷ 101 ∷ 45 ∷ 100 ∷ 117 ∷ 112 ∷ 108 ∷ 105 ∷ 99 ∷ 97 ∷ 116 ∷ 101 ∷ 45 ∷ 102
    ∷ 105 ∷ 110 ∷ 100 ∷ 101 ∷ 114 ∷ 45 ∷ 113 ∷ 117 ∷ 97 ∷ 114 ∷ 97 ∷ 110 ∷ 116 ∷ 105 ∷ 110 ∷ 101
    ∷ []

unfoldable pub is_quarantine_path : FilePath → Bool
is_quarantine_path path =
    any (λ c. same_ignoring_case (component_os_str c) quarantine_name) path.components

abbrev pub Keyed : Type 0
Keyed = FilePath × Text

-- Shorter keys first, and keys of one length in their order.
abbrev pub compare_keys : Keyed → Keyed → Ordering
compare_keys left right =
    then_with (compare (length left.1) (length right.1)) (cmp_text left.1 right.1)

-- `accepted.iter().find(..)`
unfoldable pub find_cover : Text → List Keyed → Option Keyed
find_cover key [] = none
find_cover key (existing ∷ accepted) = elim (is_same_or_child existing.1 key) [
  | true ↦ some existing
  | false ↦ find_cover key accepted
]

abbrev pub status_under : Keyed → Text → RootStatus
status_under existing key = if text_eq existing.1 key then duplicate else covered_by existing.0

abbrev pub rooted : FilePath → RootStatus → ValidatedRoot
rooted path status = record { path = path; status = status }

-- The loop over the sorted keys, with the roots accepted so far.
unfoldable pub classify : List Keyed → List Keyed → List ValidatedRoot
classify accepted [] = []
classify accepted ((path, key) ∷ normalized) = elim (is_quarantine_path path) [
  | true ↦ rooted path quarantine_forbidden ∷ classify accepted normalized
  | false ↦ elim (find_cover key accepted) [
    | some existing ↦ rooted path (status_under existing key) ∷ classify accepted normalized
    | none ↦ rooted path valid ∷ classify (accepted ++ ((path, key) ∷ [])) normalized
  ]
]

abbrev pub is_valid : RootStatus → Bool
is_valid valid = true
is_valid _ = false

unfoldable pub effective_roots : List ValidatedRoot → List FilePath
effective_roots [] = []
effective_roots (root ∷ roots) =
    let rest = effective_roots roots in if is_valid root.status then root.path ∷ rest else rest

abbrev is_empty : List FilePath → Bool
is_empty [] = true
is_empty (_ ∷ _) = false

module _ (platform : Platform) where
  -- `map(..).collect::<Result<Vec<_>>>()`
  unfoldable pub normalize_all : List FilePath → Result (List Keyed)
  normalize_all [] = ok []
  normalize_all (path ∷ paths) =
      normalize_path platform path
      >>= (λ key. normalize_all paths >>= (λ rest. ok ((path, key) ∷ rest)))

  unfoldable pub validate_roots : List FilePath → Result (List ValidatedRoot)
  validate_roots roots =
      refuse_if (is_empty roots) (invalid_input no_root_given)
      >> (normalize_all roots
          >>= (λ normalized. ok (classify [] (sort_by compare_keys normalized))))
