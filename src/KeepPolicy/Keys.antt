-- ===== src/KeepPolicy/Keys.antt =====
-- What the comparisons of crates/dedupe-core/src/keep_policy.rs compare.
use Prim.Native.Nat.{Ordering}
use safe_duplicate_finder.Base.{ℤ, ◌<◌, ◌≡◌, ◌≢◌, ◌⊎◌, true, false, length, ltb_ℤ, eqb_ℤ}
use safe_duplicate_finder.Paths.{FilePath, cmp_path}
use safe_duplicate_finder.Model.{
  DuplicateMember, KeepPolicy, default_roots, oldest, newest, shortest_path, manual_path,
}
use safe_duplicate_finder.KeepPolicy.{path_of, under_primary}

abbrev modified : DuplicateMember → ℤ
modified m = m.file.metadata.modified_ns

-- The shorter path, by its length as text; of the same length, one that is not behind in order.
abbrev ByPath : FilePath → FilePath → Type 0
ByPath a b =
    (length a.os_str < length b.os_str)
    ⊎ ((length a.os_str ≡ length b.os_str) × (cmp_path a b ≢ Ordering.gt))

-- The earlier time, and at the same time the path.
abbrev ByTime : ℤ → ℤ → Type 0 → Type 0
ByTime s t tie = (ltb_ℤ s t ≡ true) ⊎ ((eqb_ℤ s t ≡ true) × tie)

-- One member is as good a keeper as another.
abbrev pub AsGood : KeepPolicy → DuplicateMember → DuplicateMember → Type 0
AsGood oldest a b = ByTime (modified a) (modified b) (ByPath (path_of a) (path_of b))
AsGood newest a b = ByTime (modified b) (modified a) (ByPath (path_of a) (path_of b))
AsGood shortest_path a b = ByPath (path_of a) (path_of b)
AsGood (default_roots roots) a b =
    ((under_primary roots a ≡ true) × (under_primary roots b ≡ false))
    ⊎ ((under_primary roots a ≡ under_primary roots b)
        × ByTime (modified a) (modified b) (ByPath (path_of a) (path_of b)))
AsGood (manual_path path) a b = ⊥

-- The policies that compare the members; a manual choice names one.
abbrev pub Compares : KeepPolicy → Type 0
Compares (manual_path path) = ⊥
Compares _ = Unit
