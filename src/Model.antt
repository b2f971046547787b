-- ===== src/Model.antt =====
-- crates/dedupe-core/src/model.rs: the domain entities and the state machine of a transaction.
-- A `Uuid` is its 128-bit number, a digest or a token the list of its bytes, a `DateTime` a count
-- of nanoseconds.
pub mod States
use safe_duplicate_finder.Base.{
  ℕ, ◌-◌, Bool, true, false, ◌||◌, Option, List, [], ◌∷◌, ℤ, Text, length, any, saturating_mul,
  if◌then◌else◌, ◌&&◌, none, some, text_eq, text_eq→eq, ◌≡◌, refl, ap, arith,
}
use safe_duplicate_finder.Paths.{FilePath}
use safe_duplicate_finder.Error.{Result, ok, err, safety, group_without_keeper}

abbrev pub Uuid : Type 0
Uuid = ℕ

pub data ComparisonMode : Type 0 where
  strict content : ComparisonMode

pub data LinkKind : Type 0 where
  regular hard_link symlink junction other_link : LinkKind

pub data AccessStatus : Type 0 where
  readable locked denied offline missing_file access_error : AccessStatus

pub record FileIdentity : Type 0 where
  pub volume_id : Text
  pub file_id : Text

pub record FileMetadataSnapshot : Type 0 where
  pub path : FilePath
  pub normalized_path : Text
  pub normalized_name : Text
  pub extension : Option Text
  pub size_bytes : ℕ
  pub created_ns : Option ℤ
  pub modified_ns : ℤ
  pub identity : Option FileIdentity
  pub link_kind : LinkKind
  pub hardlink_count : Option ℕ
  pub access_status : AccessStatus
  pub snapshot_token : Text

pub data HashAlgorithm : Type 0 where
  quick_blake3_v1 blake3_full sha256_full : HashAlgorithm

pub record HashResult : Type 0 where
  pub algorithm : HashAlgorithm
  pub digest : Text
  pub bytes_read : ℕ
  pub snapshot_before : Text
  pub snapshot_after : Text
  pub stable : Bool

pub record ProvenFile : Type 0 where
  pub metadata : FileMetadataSnapshot
  pub blake3 : HashResult
  pub sha256 : HashResult

pub data MemberAction : Type 0 where
  keep quarantine manual : MemberAction

-- The reasons that a member's action is given.
pub data MemberReason : Type 0 where
  awaiting_policy not_selected : MemberReason
  default_policy oldest_modified newest_modified shortest_path_kept chosen_manually : MemberReason

pub record DuplicateMember : Type 0 where
  pub file : ProvenFile
  pub action : MemberAction
  pub reason : MemberReason

pub record DuplicateGroup : Type 0 where
  pub id : Uuid
  pub mode : ComparisonMode
  pub size_bytes : ℕ
  pub normalized_name : Option Text
  pub blake3 : Text
  pub sha256 : Text
  pub members : List DuplicateMember

unfoldable pub maximum_reclaimable_bytes : DuplicateGroup → ℕ
maximum_reclaimable_bytes g = saturating_mul g.size_bytes (length g.members - 1)

abbrev pub is_keep : MemberAction → Bool
is_keep keep = true
is_keep quarantine = false
is_keep manual = false

abbrev pub is_quarantine : MemberAction → Bool
is_quarantine keep = false
is_quarantine quarantine = true
is_quarantine manual = false

unfoldable pub validate_keeper : DuplicateGroup → Result (Unit {0})
validate_keeper g =
    if any (λ m. is_keep m.action) g.members
    then ok tt
    else err (safety (group_without_keeper g.id))

pub data KeepPolicy : Type 0 where
  default_roots : List FilePath → KeepPolicy
  oldest newest shortest_path : KeepPolicy
  manual_path : FilePath → KeepPolicy

pub record OperationPlan : Type 0 where
  pub id : Uuid
  pub groups : List DuplicateGroup
  pub evidence_version : ℕ
  pub created_at : ℤ

pub data TransactionKind : Type 0 where
  quarantine_kind restore_kind : TransactionKind

pub data TransactionState : Type 0 where
  planned preflight_validated moving moved_unverified verified : TransactionState
  preflight_failed move_failed verify_failed recovery_required cancelled_state : TransactionState
  reconciled_source_only reconciled_both reconciled_missing : TransactionState

-- The three states in which startup reconciliation may end from any unfinished one.
is_reconciled : TransactionState → Bool
is_reconciled reconciled_source_only = true
is_reconciled reconciled_both = true
is_reconciled reconciled_missing = true
is_reconciled _ = false

unfoldable pub can_transition_to : TransactionState → TransactionState → Bool
unfolding is_reconciled
can_transition_to planned preflight_validated = true
can_transition_to planned preflight_failed = true
can_transition_to planned cancelled_state = true
can_transition_to planned next = is_reconciled next
can_transition_to preflight_validated moving = true
can_transition_to preflight_validated cancelled_state = true
can_transition_to preflight_validated next = is_reconciled next
can_transition_to moving moved_unverified = true
can_transition_to moving move_failed = true
can_transition_to moving recovery_required = true
can_transition_to moving next = is_reconciled next
can_transition_to moved_unverified verified = true
can_transition_to moved_unverified verify_failed = true
can_transition_to moved_unverified recovery_required = true
can_transition_to moved_unverified next = is_reconciled next
can_transition_to move_failed recovery_required = true
can_transition_to move_failed next = is_reconciled next
can_transition_to verify_failed recovery_required = true
can_transition_to verify_failed next = is_reconciled next
can_transition_to recovery_required verified = true
can_transition_to recovery_required next = is_reconciled next
can_transition_to _ _ = false

abbrev pub is_planned : TransactionState → Bool
is_planned planned = true
is_planned _ = false

abbrev pub is_verified : TransactionState → Bool
is_verified verified = true
is_verified _ = false

abbrev pub is_quarantine_kind : TransactionKind → Bool
is_quarantine_kind quarantine_kind = true
is_quarantine_kind restore_kind = false

pub record FileTransaction : Type 0 where
  pub id : Uuid
  pub project_id : Uuid
  pub session_id : Option Uuid
  pub plan_item_id : Option Uuid
  pub kind : TransactionKind
  pub state : TransactionState
  pub source : FilePath
  pub destination : FilePath
  pub identity : FileIdentity
  pub size_bytes : ℕ
  pub blake3 : Text
  pub sha256 : Text
  pub snapshot_token : Text
  pub started_at : ℤ

-- `==` on identities, and on optional ones.
unfoldable pub identity_eq : FileIdentity → FileIdentity → Bool
identity_eq a b = text_eq a.volume_id b.volume_id && text_eq a.file_id b.file_id

unfoldable pub identity_opt_eq : Option FileIdentity → Option FileIdentity → Bool
unfolding identity_eq
identity_opt_eq none none = true
identity_opt_eq (some a) (some b) = identity_eq a b
identity_opt_eq _ _ = false

pub identity_eq→eq : (a b : FileIdentity) → identity_eq a b ≡ true → a ≡ b
unfolding identity_eq
identity_eq→eq a b h =
    ground (arith, text_eq→eq a.volume_id b.volume_id, text_eq→eq a.file_id b.file_id)

pub identity_opt_eq→eq : (a b : Option FileIdentity) → identity_opt_eq a b ≡ true → a ≡ b
unfolding identity_opt_eq
identity_opt_eq→eq none none h = refl
identity_opt_eq→eq none (some b) h = ground arith
identity_opt_eq→eq (some a) none h = ground arith
identity_opt_eq→eq (some a) (some b) h = ap some (identity_eq→eq a b h)

pub record WorkerConfig : Type 0 where
  pub metadata_workers : ℕ
  pub full_hash_workers_per_volume : ℕ
  pub queue_capacity : ℕ

abbrev pub default_workers : WorkerConfig
default_workers = record {
  metadata_workers = 8;
  full_hash_workers_per_volume = 2;
  queue_capacity = 1024;
}

pub record ProjectRoot : Type 0 where
  pub id : Uuid
  pub path : FilePath
  pub primary : Bool

pub record Project : Type 0 where
  pub id : Uuid
  pub name : Text
  pub roots : List ProjectRoot
  pub mode : ComparisonMode
  pub workers : WorkerConfig
