-- ===== src/PermanentDelete/Execute.antt =====
-- crates/dedupe-core/src/permanent_delete.rs: `execute`, its two loops and their steps. The batch is
-- the `let mut batch` of the source, held beside the ports' state.
pub mod Steps
pub mod Careful
pub mod Preflight
pub mod Deleting
pub mod Authorised
pub mod Guarded
use safe_duplicate_finder.Base.{
  ℕ, suc, zero, Bool, true, false, not, ◌&&◌, ◌||◌, Option, none, some, List, [], ◌∷◌, ◌++◌, Text,
  text_eq, ◌==◌, ltb_ℤ, ℤ,
}
use safe_duplicate_finder.Paths.{FilePath, path_eq}
use safe_duplicate_finder.Error.{
  DedupeError, safety, state, wrong_token, wrong_phrase, token_expired, missing_preflight_snapshot,
  entry_identity_mismatch, entry_content_changed,
}
use safe_duplicate_finder.Model.{
  Uuid, FileMetadataSnapshot, HashResult, LinkKind, regular, hard_link, symlink, junction,
  other_link, identity_opt_eq,
}
use safe_duplicate_finder.DeletionModel.{
  DeletionEntry, PermanentDeleteBatch, PermanentDeleteItem, PermanentDeleteItemState,
  PermanentDeleteBatchState, planned, deleting, deleted, failed, prepared, executing, completed,
  recovery_required, expired, PermanentDeleteOutcome,
}
use safe_duplicate_finder.Ports.{
  Ports, Sys, Note, phrase, text_of, missing_after_intent, snapshot_or_not, checkpoint, load_batch,
  delete_exact,
}
use safe_duplicate_finder.Ports.Monad.{
  Action, ◌>>=◌, ◌>>◌, pure, raise, raise_if, or_raise, branch, on_error, when, lift_result,
  Holding, lift, get_held, put_held, with_held,
}
use safe_duplicate_finder.FullHash.{blake3_file, sha256_file}
use safe_duplicate_finder.PermanentDelete.{
  digest_token, constant_time_equal, is_missing, is_deleted, outcome, transition_batch,
  transition_item,
}
use safe_duplicate_finder.PermanentDelete.Prepare.{validate_loaded_batch}

unfoldable pub is_regular : LinkKind → Bool
is_regular regular = true
is_regular _ = false

unfoldable pub matches_entry : DeletionEntry → FileMetadataSnapshot → Bool
matches_entry entry seen =
    path_eq seen.path entry.quarantine_path
    && identity_opt_eq seen.identity (some entry.identity)
    && seen.size_bytes == entry.size_bytes
    && is_regular seen.link_kind

unfoldable pub proves_entry : DeletionEntry → HashResult → HashResult → Bool
proves_entry entry blake3 sha256 =
    blake3.stable
    && sha256.stable
    && text_eq blake3.digest entry.blake3
    && text_eq sha256.digest entry.sha256

-- `batch.items[index] = item`
unfoldable pub set_item :
    ℕ → PermanentDeleteItem → List PermanentDeleteItem → List PermanentDeleteItem
set_item index item [] = []
set_item zero item (_ ∷ items) = item ∷ items
set_item (suc index) item (x ∷ items) = x ∷ set_item index item items

unfoldable pub is_prepared : PermanentDeleteBatchState → Bool
is_prepared prepared = true
is_prepared _ = false

unfoldable pub is_completed : PermanentDeleteBatchState → Bool
is_completed completed = true
is_completed _ = false

unfoldable pub is_expired : PermanentDeleteBatchState → Bool
is_expired expired = true
is_expired _ = false

unfoldable pub may_start : PermanentDeleteBatchState → Bool
may_start prepared = true
may_start recovery_required = true
may_start _ = false

unfoldable pub is_deleting : PermanentDeleteItemState → Bool
is_deleting deleting = true
is_deleting _ = false

abbrev pub Deletion : Type 0 → Type 0 → Type 0
Deletion E A = Action (Holding PermanentDeleteBatch (Sys E)) A

module _ {E H : Type 0} (ports : Ports E H) where
  unfoldable pub verify_entry : DeletionEntry → FileMetadataSnapshot → Action (Sys E) (Unit {0})
  verify_entry entry seen = do
    raise_if (not (matches_entry entry seen)) (safety (entry_identity_mismatch entry.id))
    blake3 ← blake3_file ports entry.quarantine_path
    sha256 ← sha256_file ports entry.quarantine_path
    raise_if (not (proves_entry entry blake3 sha256)) (safety (entry_content_changed entry.id))

  unfoldable pub fail_preflight : {A : Type 0} → DedupeError → Deletion E A
  fail_preflight error = do
    transition_batch ports recovery_required (some (text_of error))
    raise error

  -- `transition_item(&batch, &mut item, ..)?; batch.items[index] = item;`
  unfoldable pub update_item :
      ℕ
      → PermanentDeleteItem
      → PermanentDeleteItemState
      → Option Note
      → Deletion E PermanentDeleteItem
  update_item index item next error = do
    batch ← get_held
    changed ← lift (transition_item ports batch item next error)
    put_held (record batch { items = set_item index changed batch.items })
    pure changed

  -- The file is there: it has to be the one that was authorised.
  unfoldable pub preflight_present :
      DeletionEntry → FileMetadataSnapshot → Deletion E (Option FileMetadataSnapshot)
  preflight_present entry seen =
      branch (lift (verify_entry entry seen)) (λ _. pure (some seen)) fail_preflight

  -- After a durable intent to delete, a missing file is a deleted one; another error stops the run.
  unfoldable pub reconcile_missing :
      ℕ → PermanentDeleteItem → Bool → DedupeError → Deletion E (Option FileMetadataSnapshot)
  reconcile_missing index item true error = do
    changed ← update_item index item deleted (some missing_after_intent)
    pure none
  reconcile_missing index item false error = fail_preflight error

  -- The `match item.state` of the first loop, which gives what is pushed to `snapshots`.
  unfoldable pub preflight_item :
      ℕ → PermanentDeleteItem → PermanentDeleteItemState → Deletion E (Option FileMetadataSnapshot)
  preflight_item index item deleted = pure none
  preflight_item index item planned =
      branch (lift (snapshot_or_not ports item.entry.quarantine_path))
        (preflight_present item.entry) fail_preflight
  preflight_item index item _ =
      branch (lift (snapshot_or_not ports item.entry.quarantine_path))
        (preflight_present item.entry)
        (λ error. reconcile_missing index item (is_missing error) error)

  -- The first loop. An item is not changed before its turn, so the list is the loaded one.
  unfoldable pub preflight :
      ℕ → List PermanentDeleteItem → Deletion E (List (Option FileMetadataSnapshot))
  preflight index [] = pure []
  preflight index (item ∷ items) = do
    lift (checkpoint ports)
    seen ← preflight_item index item item.state
    rest ← preflight (suc index) items
    pure (seen ∷ rest)

  -- `deleter.delete_exact(&expected)`, and what is done if it fails.
  unfoldable pub delete_or_record :
      ℕ → PermanentDeleteItem → FileMetadataSnapshot → Deletion E (Unit {0})
  delete_or_record index item expected = on_error (lift (delete_exact ports expected)) (λ error. do
    changed ← update_item index item failed (some (text_of error))
    transition_batch ports recovery_required (some (text_of error)))

  -- The durable intent to delete, unless it stands already.
  unfoldable pub announce : ℕ → PermanentDeleteItem → Bool → Deletion E PermanentDeleteItem
  announce index item true = pure item
  announce index item false = update_item index item deleting none

  -- The body of the second loop for an item that is not deleted yet.
  unfoldable pub delete_item :
      ℕ → PermanentDeleteItem → Option FileMetadataSnapshot → Deletion E (Unit {0})
  delete_item index item seen = do
    lift (checkpoint ports)
    intended ← announce index item (is_deleting item.state)
    expected ← or_raise seen (state (missing_preflight_snapshot item.entry.id))
    delete_or_record index intended expected
    changed ← update_item index intended deleted none
    pure tt

  -- The second loop, over `snapshots` and the items beside them.
  unfoldable pub delete_all :
      ℕ → List (Option FileMetadataSnapshot) → List PermanentDeleteItem → Deletion E (Unit {0})
  unfolding is_deleted
  delete_all index (seen ∷ rest) (item ∷ items) = do
    when (not (is_deleted item.state)) (delete_item index item seen)
    delete_all (suc index) rest items
  delete_all _ _ _ = pure tt

  -- From the transition to `executing` on.
  unfoldable pub run_batch : Deletion E PermanentDeleteOutcome
  run_batch = do
    batch ← get_held
    when (may_start batch.state) (transition_batch ports executing none)
    snapshots ← preflight 0 batch.items
    checked ← get_held
    delete_all 0 snapshots checked.items
    transition_batch ports completed none
    done ← get_held
    pure (outcome done)

  -- The batch is not completed.
  unfoldable pub start : ℤ → PermanentDeleteBatch → Deletion E PermanentDeleteOutcome
  start now batch = do
    raise_if (is_expired batch.state) (safety token_expired)
    when (is_prepared batch.state && ltb_ℤ batch.expires_at now)
        (do transition_batch ports expired none; raise (safety token_expired))
    run_batch

  unfoldable pub by_state : ℤ → Bool → PermanentDeleteBatch → Deletion E PermanentDeleteOutcome
  by_state now true batch = pure (outcome batch)
  by_state now false batch = start now batch

-- `uuid_bytes` is `Uuid::as_bytes` of the crate uuid.
module _ {E H : Type 0} (ports : Ports E H) (uuid_bytes : Uuid → Text) where
  unfoldable pub execute : Uuid → Text → Text → ℤ → Action (Sys E) PermanentDeleteOutcome
  execute batch_id token confirmation now = do
    batch ← load_batch ports batch_id
    lift_result (validate_loaded_batch ports uuid_bytes batch)
    raise_if (not (constant_time_equal (digest_token ports token) batch.token_digest))
        (safety wrong_token)
    raise_if (not (text_eq confirmation batch.confirmation_phrase)) (safety wrong_phrase)
    with_held batch (by_state ports now (is_completed batch.state) batch)
