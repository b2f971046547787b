-- ===== src/Tests/Groups.antt =====
-- The theorems on the confirmation of a group and on the pool, applied to small cases.
use mathlib.Core.List.Permᴰ
use safe_duplicate_finder.Base.{ℕ, All, none, false, List, [], ◌∷◌, arith}
use safe_duplicate_finder.Paths.{FilePath}
use safe_duplicate_finder.Error.{Result, ok, err, io, IoKind}
use safe_duplicate_finder.Model.{
  DuplicateGroup, keep, FileMetadataSnapshot, HashResult, strict, quick_blake3_v1, default_workers,
}
use safe_duplicate_finder.Ports.Hoare.{Post}
use safe_duplicate_finder.FullHash.Streaming.{Observed}
use safe_duplicate_finder.Scheduler.{RunnerLaws}
use safe_duplicate_finder.Scheduler.InTurn.{turn_runner}
use safe_duplicate_finder.Scheduler.InTurn.Promise.{turn_laws}
use safe_duplicate_finder.Tests.InTurn.{in_turn_runner, in_turn_laws}
use safe_duplicate_finder.DuplicateDetector.{
  MapOrder, quick_stage, no_outcome, confirm_with_config, collect_results,
}
use safe_duplicate_finder.DuplicateDetector.Proven.{IsProvenGroup}
use safe_duplicate_finder.DuplicateDetector.Confirmed.{confirm_with_config-IsProvenGroup}
use safe_duplicate_finder.DuplicateDetector.Collected.{Collection, collect_results-Collection}
use safe_duplicate_finder.Quarantine.{verify_live_keeper}
use safe_duplicate_finder.Quarantine.Keeper.{IsLive, verify_live_keeper-IsLive}
use safe_duplicate_finder.Tests.World.{
  group, member, path, snapshot_at, hashed, world, world_laws, idle,
}

abbrev in_turn : MapOrder
in_turn = record { in_map_order = λ xs. xs; in_map_order-Permᴰ = λ xs. Permᴰ.refl xs }

abbrev candidate : ℕ → FileMetadataSnapshot
candidate n = record (snapshot_at (path n)) { normalized_name = 7 ∷ []; identity = none }

abbrev two_candidates : List FileMetadataSnapshot
two_candidates = candidate 1 ∷ candidate 2 ∷ []

turn_laws_example : RunnerLaws (turn_runner world)
turn_laws_example = turn_laws world

confirm_with_config-IsProvenGroup_example :
    Post
      (λ o s'.
        All (IsProvenGroup world world_laws strict two_candidates [] s'.trace) o.groups
        × Observed [] s'.trace)
      (λ e s'. Observed [] s'.trace)
      (confirm_with_config world in_turn_runner in_turn default_workers strict two_candidates idle)
confirm_with_config-IsProvenGroup_example =
    confirm_with_config-IsProvenGroup world world_laws in_turn_runner in_turn_laws in_turn
      default_workers strict two_candidates idle

abbrev paired : FilePath → HashResult → FilePath × HashResult
paired p r = (p, r)

-- A stage with a stable result, an unreadable file, an unstable result and the first digest again.
abbrev found : List (FilePath × Result HashResult)
found =
    (path 1, ok (hashed quick_blake3_v1))
    ∷ (path 2, err (io (path 2) IoKind.not_found))
    ∷ (path 3, ok (record (hashed quick_blake3_v1) { stable = false }))
    ∷ (path 4, ok (hashed quick_blake3_v1))
    ∷ []

collect_results-Collection_example :
    Collection quick_stage
      (λ p. p)
      paired
      found
      no_outcome
      []
      (collect_results quick_stage (λ p. p) paired found no_outcome [])
collect_results-Collection_example =
    collect_results-Collection quick_stage (λ p. p) paired found no_outcome [] (omega arith)
      (omega arith) tt

-- A group whose second member is kept.
abbrev kept_group : DuplicateGroup
kept_group = record group { members = member 1 ∷ record (member 2) { action = keep } ∷ [] }

verify_live_keeper-IsLive_example :
    Post
      (λ _ s'. IsLive world world_laws kept_group [] s'.trace)
      (λ _ s'. Observed [] s'.trace)
      (verify_live_keeper world kept_group idle)
verify_live_keeper-IsLive_example = verify_live_keeper-IsLive world world_laws kept_group idle
