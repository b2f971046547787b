-- ===== src/DuplicateDetector.antt =====
-- crates/dedupe-core/src/duplicate_detector.rs: the confirmation of one preliminary group, in the
-- three stages quick hash, BLAKE3 and SHA-256. A `HashMap` is the list of its entries, which a
-- loop walks in an order of the map's own.
pub mod Grouping
pub mod Collected
pub mod Stages
pub mod Proven
pub mod Confirmed
use mathlib.Core.List.{Permᴰ}
use safe_duplicate_finder.Base.{
  ℕ, suc, ◌≡◌, Bool, true, false, ◌&&◌, ◌||◌, not, Option, none, some, List, [], ◌∷◌, ◌++◌, map,
  any, keep_if, length, Text, text_eq, leb, ◌==◌, saturating_add, if◌then◌else◌,
}
use safe_duplicate_finder.Paths.{FilePath}
use safe_duplicate_finder.Error.{DedupeError, cancelled, Result, ok, err}
use safe_duplicate_finder.Model.{
  ComparisonMode, strict, content, LinkKind, hard_link, FileIdentity, identity_eq,
  FileMetadataSnapshot, HashResult, ProvenFile, manual, awaiting_policy, DuplicateMember,
  DuplicateGroup, WorkerConfig,
}
use safe_duplicate_finder.Ports.{Ports, Sys, new_uuid}
use safe_duplicate_finder.Ports.Monad.{Action, ◌>>=◌, ◌>>◌, pure, lift_result}
use safe_duplicate_finder.FullHash.{blake3_file, sha256_file}
use safe_duplicate_finder.QuickHash as Quick
use safe_duplicate_finder.Scheduler.{VolumeJob, Runner}

pub data Stage : Type 0 where
  quick_stage blake3_stage sha256_stage : Stage

pub record DetectionFileError : Type 0 where
  pub path : FilePath
  pub stage : Stage
  pub error : DedupeError

pub record DetectionOutcome : Type 0 where
  pub groups : List DuplicateGroup
  pub bytes_read : ℕ
  pub unstable_files : ℕ
  pub errors : List DetectionFileError

abbrev pub no_outcome : DetectionOutcome
no_outcome = record { groups = []; bytes_read = 0; unstable_files = 0; errors = [] }

-- The order in which a `HashMap` gives its entries, and that it gives each entry once.
pub record MapOrder : Type 1 where
  pub in_map_order : {A : Type 0} → List A → List A
  pub in_map_order-Permᴰ : {A : Type 0} (xs : List A) → Permᴰ xs (in_map_order xs)

abbrev pub is_content : ComparisonMode → Bool
is_content content = true
is_content strict = false

abbrev pub is_hard_link : LinkKind → Bool
is_hard_link hard_link = true
is_hard_link _ = false

-- `hardlink_count.unwrap_or(1) == 1`
abbrev pub has_one_link : Option ℕ → Bool
has_one_link none = true
has_one_link (some n) = n == 1

unfoldable pub is_eligible : ComparisonMode → ℕ → Text → FileMetadataSnapshot → Bool
is_eligible mode expected_size expected_name candidate =
    candidate.size_bytes == expected_size
    && ((is_content mode || text_eq candidate.normalized_name expected_name)
        && (not (is_hard_link candidate.link_kind) && has_one_link candidate.hardlink_count))

-- "__unknown_volume__"
abbrev pub unknown_volume : Text
unknown_volume =
    95 ∷ 95 ∷ 117 ∷ 110 ∷ 107 ∷ 110 ∷ 111 ∷ 119 ∷ 110 ∷ 95 ∷ 118 ∷ 111 ∷ 108 ∷ 117 ∷ 109 ∷ 101 ∷ 95
    ∷ 95 ∷ []

unfoldable pub volume_key : FileMetadataSnapshot → Text
volume_key candidate = elim candidate.identity [
  | none ↦ unknown_volume
  | some identity ↦ identity.volume_id
]

-- A map from digests to what has the digest.
abbrev pub HashGroups : Type 0 → Type 0
HashGroups A = List (Text × List A)

-- `groups.entry(digest).or_default().push(x)`
unfoldable pub push_entry : {A : Type 0} → Text → A → HashGroups A → HashGroups A
push_entry digest x [] = (digest, x ∷ []) ∷ []
push_entry digest x ((key, xs) ∷ groups) = elim (text_eq key digest) [
  | true ↦ (key, xs ++ (x ∷ [])) ∷ groups
  | false ↦ (key, xs) ∷ push_entry digest x groups
]

abbrev pub is_cancelled : DedupeError → Bool
is_cancelled cancelled = true
is_cancelled _ = false

abbrev pub note_error : FilePath → Stage → DedupeError → DetectionOutcome → DetectionOutcome
note_error path stage error outcome = record outcome {
  errors = outcome.errors ++ (record { path = path; stage = stage; error = error } ∷ []);
}

abbrev pub note_read : HashResult → DetectionOutcome → DetectionOutcome
note_read r outcome = record outcome { bytes_read = saturating_add outcome.bytes_read r.bytes_read }

abbrev pub note_unstable : DetectionOutcome → DetectionOutcome
note_unstable outcome = record outcome { unstable_files = saturating_add outcome.unstable_files 1 }

-- The loop over the results of one stage. What is hashed is a candidate with the evidence it has so
-- far; `file` finds its path, `add` adds the new evidence.
module _ {A B : Type 0} (stage : Stage) (file : A → FilePath) (add : A → HashResult → B) where
  unfoldable pub collect_results :
      List (A × Result HashResult)
      → DetectionOutcome
      → HashGroups B
      → Result (HashGroups B × DetectionOutcome)
  collect_results [] outcome groups = ok (groups, outcome)
  collect_results ((candidate, err error) ∷ results) outcome groups = elim (is_cancelled error) [
    | true ↦ err cancelled
    | false ↦ collect_results results (note_error (file candidate) stage error outcome) groups
  ]
  collect_results ((candidate, ok r) ∷ results) outcome groups = elim r.stable [
    | true ↦
        collect_results results (note_read r outcome) (push_entry r.digest (add candidate r) groups)
    | false ↦ collect_results results (note_unstable (note_read r outcome)) groups
  ]

-- `files.into_iter().filter(..)` with the set of the identities seen
unfoldable pub keep_independent : List FileIdentity → List ProvenFile → List ProvenFile
keep_independent seen [] = []
keep_independent seen (file ∷ files) = elim file.metadata.identity [
  | none ↦ file ∷ keep_independent seen files
  | some identity ↦ elim (any (identity_eq identity) seen) [
    | true ↦ keep_independent seen files
    | false ↦ file ∷ keep_independent (identity ∷ seen) files
  ]
]

abbrev pub member_of : ProvenFile → DuplicateMember
member_of file = record { file = file; action = manual; reason = awaiting_policy }

-- A candidate with its BLAKE3 evidence.
abbrev pub HashedOnce : Type 0
HashedOnce = FileMetadataSnapshot × HashResult

abbrev pub at_least_two : {A : Type 0} → List A → Bool
at_least_two xs = leb 2 (length xs)

abbrev pub name_of_group : ComparisonMode → Text → Option Text
name_of_group strict name = some name
name_of_group content name = none

-- `|candidate| { let result = hash(&candidate); Ok((candidate, result)) }`
abbrev pub attempt :
    {S A : Type 0} → (A → Action S HashResult) → A → Action S (A × Result HashResult)
attempt hash candidate s = (ok (candidate, (hash candidate s).0), (hash candidate s).1)

abbrev pub jobs_for : {A : Type 0} → (A → FileMetadataSnapshot) → List A → List (VolumeJob A)
jobs_for metadata candidates =
    map (λ c. record { volume_id = volume_key (metadata c); value = c }) candidates

abbrev pub new_group :
    ComparisonMode → ℕ → Text → Text → Text → List ProvenFile → ℕ → DuplicateGroup
new_group mode expected_size expected_name blake3 sha256 independent id = record {
  id = id;
  mode = mode;
  size_bytes = expected_size;
  normalized_name = name_of_group mode expected_name;
  blake3 = blake3;
  sha256 = sha256;
  members = map member_of independent;
}

module _ {E H : Type 0} (ports : Ports E H) (runner : Runner E) (maps : MapOrder)
    (workers : WorkerConfig) where
  unfoldable pub group_stable_hashes :
      List FileMetadataSnapshot
      → Stage
      → (FileMetadataSnapshot → Action (Sys E) HashResult)
      → DetectionOutcome
      → Action (Sys E) (HashGroups HashedOnce × DetectionOutcome)
  group_stable_hashes candidates stage hash outcome = do
    results ← runner.run_volume_jobs (jobs_for (λ c. c) candidates) workers (attempt hash)
    lift_result (collect_results stage (λ c. c.path) (λ c r. (c, r)) results outcome [])

  unfoldable pub group_sha256 :
      List HashedOnce → DetectionOutcome → Action (Sys E) (HashGroups ProvenFile × DetectionOutcome)
  group_sha256 candidates outcome = do
    results ←
        runner.run_volume_jobs (jobs_for (λ c. c.0) candidates) workers
          (attempt (λ c. sha256_file ports c.0.path))
    lift_result (
        collect_results sha256_stage (λ c. c.0.path)
          (λ c r. record { metadata = c.0; blake3 = c.1; sha256 = r }) results outcome [])

  module _ (mode : ComparisonMode) (expected_size : ℕ) (expected_name : Text) where
    -- `for (sha256, files) in sha_groups`, of which those with one file are filtered out
    unfoldable pub push_groups :
        Text → HashGroups ProvenFile → DetectionOutcome → Action (Sys E) DetectionOutcome
    push_groups blake3 [] outcome = pure outcome
    push_groups blake3 ((sha256, files) ∷ groups) outcome =
        elim (at_least_two files && at_least_two (keep_independent [] files)) [
          | false ↦ push_groups blake3 groups outcome
          | true ↦ do
            id ← new_uuid ports
            push_groups blake3 groups (record outcome {
              groups =
                  outcome.groups
                  ++ (new_group mode expected_size expected_name blake3 sha256
                        (keep_independent [] files) id
                      ∷ []);
            })
        ]

    -- `for (blake3, blake_group) in blake_groups`
    unfoldable pub confirm_sha256 :
        HashGroups HashedOnce → DetectionOutcome → Action (Sys E) DetectionOutcome
    confirm_sha256 [] outcome = pure outcome
    confirm_sha256 ((blake3, group) ∷ groups) outcome = elim (at_least_two group) [
      | false ↦ confirm_sha256 groups outcome
      | true ↦ do
        (sha_groups, outcome) ← group_sha256 group outcome
        outcome ← push_groups blake3 (maps.in_map_order sha_groups) outcome
        confirm_sha256 groups outcome
    ]

    -- `for quick_group in quick_groups`
    unfoldable pub confirm_blake3 :
        HashGroups HashedOnce → DetectionOutcome → Action (Sys E) DetectionOutcome
    confirm_blake3 [] outcome = pure outcome
    confirm_blake3 ((quick, group) ∷ groups) outcome = elim (at_least_two group) [
      | false ↦ confirm_blake3 groups outcome
      | true ↦ do
        (blake_groups, outcome) ←
            group_stable_hashes (map (λ m. m.0) group) blake3_stage (λ c. blake3_file ports c.path)
              outcome
        outcome ← confirm_sha256 (maps.in_map_order blake_groups) outcome
        confirm_blake3 groups outcome
    ]

  unfoldable pub confirm_with_config :
      ComparisonMode → List FileMetadataSnapshot → Action (Sys E) DetectionOutcome
  confirm_with_config mode [] = pure no_outcome
  confirm_with_config mode (_ ∷ []) = pure no_outcome
  confirm_with_config mode (first ∷ second ∷ others) = do
    (quick_groups, outcome) ←
        group_stable_hashes
          (keep_if (is_eligible mode first.size_bytes first.normalized_name)
            (first ∷ second ∷ others))
          quick_stage (λ c. Quick.hash_file ports c.path) no_outcome
    confirm_blake3 mode first.size_bytes first.normalized_name (maps.in_map_order quick_groups)
        outcome

module _ {E H : Type 0} (ports : Ports E H) (runner : Runner E) (maps : MapOrder) where
  abbrev pub one_worker : WorkerConfig
  one_worker = record { metadata_workers = 1; full_hash_workers_per_volume = 1; queue_capacity = 1 }

  unfoldable pub confirm_preliminary_group_detailed :
      ComparisonMode → List FileMetadataSnapshot → Action (Sys E) DetectionOutcome
  confirm_preliminary_group_detailed = confirm_with_config ports runner maps one_worker

  unfoldable pub confirm_preliminary_group :
      ComparisonMode → List FileMetadataSnapshot → Action (Sys E) (List DuplicateGroup)
  confirm_preliminary_group mode candidates =
      confirm_preliminary_group_detailed mode candidates >>= λ outcome. pure outcome.groups
