-- ===== src/PermanentDelete.antt =====
-- crates/dedupe-core/src/permanent_delete.rs: the operations. `Prepare` holds what is authorised and
-- `Execute` the deletion; this module holds the helpers that both use.
pub mod Strings
pub mod Prepare
pub mod Execute
pub mod Promised
pub mod Sorted
use Prim.Native.Nat.{bit_or, bit_xor}
use safe_duplicate_finder.Base.{
  ℕ, Bool, true, false, not, Option, List, [], ◌∷◌, ◌++◌, map, Text, length, ltb, leb, ◌==◌,
  if◌then◌else◌, saturating_add,
}
use safe_duplicate_finder.Model.{Uuid}
use safe_duplicate_finder.DeletionModel.{
  DeletionEntry, PermanentDeleteMode, retention_expired, immediate, PermanentDeleteBatch,
  PermanentDeleteItem, PermanentDeleteItemState, planned, deleting, deleted, failed,
  PermanentDeleteBatchState, prepared, executing, completed, recovery_required, expired,
  PermanentDeleteOutcome, batch_can_transition_to, item_can_transition_to,
}
use safe_duplicate_finder.Ports.{Ports, Sys, Note, journal_batch, journal_item}
use safe_duplicate_finder.Ports.Monad.{
  Action, ◌>>=◌, ◌>>◌, pure, raise_if, Holding, lift, get_held, put_held,
}
use safe_duplicate_finder.Error.{
  DedupeError, Reason, state, invalid_batch_transition, invalid_item_transition, io, IoKind,
  not_found,
}
use safe_duplicate_finder.PermanentDelete.Strings.{
  release, delete_action, delete_now_action, space, quarantined_files, byte_in, token_context,
  selection_context, decimal, to_le_bytes,
}

-- `entries.sort_by_key(|entry| entry.id)`: a stable sort by insertion.
unfoldable pub insert_by_id : DeletionEntry → List DeletionEntry → List DeletionEntry
insert_by_id e [] = e ∷ []
insert_by_id e (x ∷ xs) =
    let rest = insert_by_id e xs in if leb e.id x.id then e ∷ x ∷ xs else x ∷ rest

unfoldable pub sort_by_id : List DeletionEntry → List DeletionEntry
sort_by_id [] = []
sort_by_id (e ∷ es) = insert_by_id e (sort_by_id es)

unfoldable pub action_words : PermanentDeleteMode → Text
action_words retention_expired = delete_action
action_words immediate = delete_now_action

unfoldable pub confirmation_phrase : ℕ → ℕ → PermanentDeleteMode → Text
confirmation_phrase entry_count bytes mode =
    action_words mode
    ++ space
    ++ decimal entry_count
    ++ quarantined_files
    ++ decimal bytes
    ++ byte_in
    ++ release

unfoldable pub differing_bits : Text → Text → ℕ → ℕ
differing_bits (a ∷ xs) (b ∷ ys) difference = differing_bits xs ys (bit_or difference (bit_xor a b))
differing_bits _ _ difference = difference

unfoldable pub constant_time_equal : Text → Text → Bool
unfolding differing_bits
constant_time_equal left right = differing_bits left right 0 == 0

unfoldable pub is_missing : DedupeError → Bool
is_missing (io path not_found) = true
is_missing _ = false

unfoldable pub is_deleted : PermanentDeleteItemState → Bool
is_deleted deleted = true
is_deleted _ = false

unfoldable pub count_deleted : List PermanentDeleteItem → ℕ → ℕ → PermanentDeleteOutcome
unfolding is_deleted
count_deleted [] entries bytes = record { deleted_entries = entries; deleted_bytes = bytes }
count_deleted (item ∷ items) entries bytes =
    let gone = is_deleted item.state in
    count_deleted items (if gone then saturating_add entries 1 else entries)
      (if gone then saturating_add bytes item.entry.size_bytes else bytes)

unfoldable pub outcome : PermanentDeleteBatch → PermanentDeleteOutcome
unfolding count_deleted
outcome batch = count_deleted batch.items 0 0

module _ {E H : Type 0} (ports : Ports E H) where
  unfoldable pub digest_token : Text → Text
  digest_token token =
      ports.blake3_finalize (ports.blake3_update (ports.blake3_derive_key token_context) token)

  unfoldable pub feed : H → List Text → H
  feed hasher [] = hasher
  feed hasher (bytes ∷ rest) = feed (ports.blake3_update hasher bytes) rest

-- `uuid_bytes` is `Uuid::as_bytes` of the crate uuid.
module _ {E H : Type 0} (ports : Ports E H) (uuid_bytes : Uuid → Text) where
  unfoldable pub entry_bytes : DeletionEntry → List Text
  entry_bytes entry =
      uuid_bytes entry.project_id
      ∷ uuid_bytes entry.id
      ∷ to_le_bytes (length entry.identity.volume_id)
      ∷ entry.identity.volume_id
      ∷ to_le_bytes (length entry.identity.file_id)
      ∷ entry.identity.file_id
      ∷ to_le_bytes entry.size_bytes
      ∷ entry.blake3
      ∷ entry.sha256
      ∷ []

  unfoldable pub feed_entries : H → List DeletionEntry → H
  unfolding feed entry_bytes
  feed_entries hasher [] = hasher
  feed_entries hasher (entry ∷ entries) =
      feed_entries (feed ports hasher (entry_bytes entry)) entries

  unfoldable pub digest_selection : List DeletionEntry → Text
  unfolding feed_entries sort_by_id
  digest_selection entries =
      ports.blake3_finalize
        (feed_entries (ports.blake3_derive_key selection_context) (sort_by_id entries))

module _ {E H : Type 0} (ports : Ports E H) where
  unfoldable pub transition_batch :
      PermanentDeleteBatchState
      → Option Note
      → Action (Holding PermanentDeleteBatch (Sys E)) (Unit {0})
  transition_batch next error = do
    batch ← get_held
    raise_if (not (batch_can_transition_to batch.state next)) (state invalid_batch_transition)
    lift (journal_batch ports batch next error)
    put_held (record batch { state = next })

  -- The item comes back with its new state.
  unfoldable pub transition_item :
      PermanentDeleteBatch
      → PermanentDeleteItem
      → PermanentDeleteItemState
      → Option Note
      → Action (Sys E) PermanentDeleteItem
  transition_item batch item next error = do
    raise_if (not (item_can_transition_to item.state next)) (state invalid_item_transition)
    journal_item ports batch item next error
    pure (record item { state = next })
