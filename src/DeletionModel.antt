-- ===== src/DeletionModel.antt =====
-- crates/dedupe-core/src/permanent_delete.rs, the data: verified quarantine evidence, the durable
-- states of a batch and of its items, the challenge and the outcome.
pub mod States
use safe_duplicate_finder.Base.{ℕ, Bool, true, false, List, ℤ, Text}
use safe_duplicate_finder.Paths.{FilePath}
use safe_duplicate_finder.Model.{Uuid, FileIdentity}

pub data PermanentDeleteMode : Type 0 where
  retention_expired immediate : PermanentDeleteMode

pub record DeletionEntry : Type 0 where
  pub id : Uuid
  pub project_id : Uuid
  pub quarantine_path : FilePath
  pub identity : FileIdentity
  pub size_bytes : ℕ
  pub blake3 : Text
  pub sha256 : Text
  pub retain_until : ℤ

pub data PermanentDeleteBatchState : Type 0 where
  prepared executing completed recovery_required expired : PermanentDeleteBatchState

unfoldable pub batch_can_transition_to :
    PermanentDeleteBatchState → PermanentDeleteBatchState → Bool
batch_can_transition_to prepared executing = true
batch_can_transition_to prepared expired = true
batch_can_transition_to executing completed = true
batch_can_transition_to executing recovery_required = true
batch_can_transition_to recovery_required executing = true
batch_can_transition_to recovery_required completed = true
batch_can_transition_to _ _ = false

pub data PermanentDeleteItemState : Type 0 where
  planned deleting deleted failed : PermanentDeleteItemState

unfoldable pub item_can_transition_to : PermanentDeleteItemState → PermanentDeleteItemState → Bool
item_can_transition_to planned deleting = true
item_can_transition_to failed deleting = true
item_can_transition_to deleting deleted = true
item_can_transition_to deleting failed = true
item_can_transition_to failed deleted = true
item_can_transition_to _ _ = false

pub record PermanentDeleteItem : Type 0 where
  pub entry : DeletionEntry
  pub state : PermanentDeleteItemState

pub record PermanentDeleteBatch : Type 0 where
  pub id : Uuid
  pub project_id : Uuid
  pub state : PermanentDeleteBatchState
  pub mode : PermanentDeleteMode
  pub token_digest : Text
  pub selection_digest : Text
  pub confirmation_phrase : Text
  pub entry_count : ℕ
  pub total_bytes : ℕ
  pub created_at : ℤ
  pub expires_at : ℤ
  pub items : List PermanentDeleteItem

pub record PermanentDeleteChallenge : Type 0 where
  pub batch_id : Uuid
  pub token : Text
  pub mode : PermanentDeleteMode
  pub confirmation_phrase : Text
  pub entry_count : ℕ
  pub total_bytes : ℕ
  pub expires_at : ℤ

pub record PermanentDeleteOutcome : Type 0 where
  pub deleted_entries : ℕ
  pub deleted_bytes : ℕ
