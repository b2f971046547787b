-- ===== src/Ports.antt =====
-- crates/dedupe-core/src/ports.rs, the control token, file reading and the hash libraries, as the
-- core calls them: operations on an unknown environment `E`, gathered in one record. A call also
-- leaves its event in a ghost trace, newest first, by which theorems speak of the order of effects.
pub mod Monad
pub mod Hoare
pub mod Calls
use safe_duplicate_finder.Base.{ℕ, Bool, List, ◌∷◌, Option, ℤ, Text}
use safe_duplicate_finder.Paths.{FilePath}
use safe_duplicate_finder.Error.{DedupeError, Reason, Result, ok, err}
use safe_duplicate_finder.Model.{Uuid, FileMetadataSnapshot, FileTransaction, TransactionState}
use safe_duplicate_finder.DeletionModel.{
  PermanentDeleteBatch, PermanentDeleteItem, PermanentDeleteBatchState, PermanentDeleteItemState,
}
use safe_duplicate_finder.Ports.Monad.{Action}

-- A text that is handed to a journal: the words of a reason, `error.to_string()`, or one of the
-- phrases that the source gives to a transition.
pub data Note : Type 0 where
  phrase : Reason → Note
  text_of : DedupeError → Note
  source_matches destination_verified : Note
  move_needs_reconciliation destination_check_failed destination_unverified : Note
  startup_source_only startup_destination_found startup_destination_verified : Note
  startup_keeps_both startup_nothing_found missing_after_intent : Note

-- What one `File::read` returned: bytes, or an error. No bytes mean the end of the file, and so
-- does the end of the list.
pub data Read : Type 0 where
  chunk : Text → Read
  read_fails : DedupeError → Read

-- `E` is the environment (file system, clock, database, other threads), `H` a hasher's state.
pub record Ports (E H : Type 0) : Type 0 where
  -- `MetadataProvider`
  pub take_snapshot : FilePath → E → Result FileMetadataSnapshot × E
  -- `ControlToken::checkpoint`
  pub pass_checkpoint : E → Result (Unit {0}) × E
  -- `ControlToken::cancel`
  pub cancel_token : E → E
  -- `SafeMover`, `SafeDeleter`
  pub move_file : FilePath → FilePath → FileMetadataSnapshot → E → Result (Unit {0}) × E
  pub delete_file : FileMetadataSnapshot → E → Result (Unit {0}) × E
  -- `TransactionJournal`
  pub create_record : FileTransaction → E → Result (Unit {0}) × E
  pub append_transition :
      FileTransaction → TransactionState → Option Note → Option Note → E → Result (Unit {0}) × E
  -- `PermanentDeleteJournal`
  pub create_deletion : PermanentDeleteBatch → E → Result (Unit {0}) × E
  pub load_deletion : Uuid → E → Result PermanentDeleteBatch × E
  pub append_batch :
      PermanentDeleteBatch → PermanentDeleteBatchState → Option Note → E → Result (Unit {0}) × E
  pub append_item :
      PermanentDeleteBatch
      → PermanentDeleteItem
      → PermanentDeleteItemState
      → Option Note
      → E
      → Result (Unit {0}) × E
  -- `File::open` with the reads that follow, `Path::exists`, `Uuid::new_v4`, `Utc::now`
  pub open_stream : FilePath → E → Result (List Read) × E
  -- `File::open` with nothing read yet, and `seek` with `read_exact` after it
  pub open_handle : FilePath → E → Result (Unit {0}) × E
  pub read_at : FilePath → ℕ → ℕ → E → Result Text × E
  pub path_exists : FilePath → E → Bool × E
  pub fresh_uuid : E → Uuid × E
  pub utc_now : E → ℤ × E
  -- the hashers of the crates blake3 (plain, and keyed by a context) and sha2
  pub blake3_new : H
  pub blake3_derive_key : Text → H
  pub blake3_update : H → Text → H
  pub blake3_finalize : H → Text
  pub sha256_new : H
  pub sha256_update : H → Text → H
  pub sha256_finalize : H → Text

pub data Event : Type 0 where
  snapped : FilePath → FileMetadataSnapshot → Event
  opened : FilePath → List Read → Event
  sampled : FilePath → ℕ → Text → Event
  created : FileTransaction → Event
  journaled : FileTransaction → TransactionState → Event
  move_called : FilePath → FilePath → FileMetadataSnapshot → Event
  not_seen : FilePath → DedupeError → Event  -- no snapshot, in the check of a batch
  delete_called : FileMetadataSnapshot → Event
  delete_done : FileMetadataSnapshot → Event
  batch_created : PermanentDeleteBatch → Event
  batch_journaled : PermanentDeleteBatch → PermanentDeleteBatchState → Event
  item_journaled : PermanentDeleteItem → PermanentDeleteItemState → Event

pub record Sys (E : Type 0) : Type 0 where
  pub env : E
  pub trace : List Event

-- The trace after a call that succeeded or not.
abbrev on_ok : {A : Type 0} → (A → Event) → Result A → List Event → List Event
on_ok event (ok a) t = event a ∷ t
on_ok event (err e) t = t

abbrev always : {A : Type 0} → Event → Result A → List Event → List Event
always event r t = event ∷ t

abbrev seen_or_not : FilePath → Result FileMetadataSnapshot → List Event → List Event
seen_or_not path (ok seen) t = snapped path seen ∷ t
seen_or_not path (err e) t = not_seen path e ∷ t

abbrev called_or_done : FileMetadataSnapshot → Result (Unit {0}) → List Event → List Event
called_or_done expected (ok u) t = delete_done expected ∷ delete_called expected ∷ t
called_or_done expected (err e) t = delete_called expected ∷ t

abbrev unlogged : {A : Type 0} → Result A → List Event → List Event
unlogged r t = t

call : {A E : Type 0} → (Result A → List Event → List Event) → (E → Result A × E) → Action (Sys E) A
call note f s = ((f s.env).0, record { env = (f s.env).1; trace = note (f s.env).0 s.trace })

-- `Uuid::new_v4()`, `Utc::now()`, `path.exists()`: calls that cannot fail.
ask : {A E : Type 0} → (E → A × E) → Action (Sys E) A
ask f s = (ok (f s.env).0, record s { env = (f s.env).1 })

module _ {E H : Type 0} (ports : Ports E H) where
  unfoldable pub snapshot : FilePath → Action (Sys E) FileMetadataSnapshot
  unfolding call
  snapshot path = call (on_ok (snapped path)) (ports.take_snapshot path)

  -- The same call, where the trace also tells of a failure.
  unfoldable pub snapshot_or_not : FilePath → Action (Sys E) FileMetadataSnapshot
  unfolding call
  snapshot_or_not path = call (seen_or_not path) (ports.take_snapshot path)

  unfoldable pub checkpoint : Action (Sys E) (Unit {0})
  unfolding call
  checkpoint = call unlogged ports.pass_checkpoint

  unfoldable pub move_no_replace :
      FilePath → FilePath → FileMetadataSnapshot → Action (Sys E) (Unit {0})
  unfolding call
  move_no_replace source destination expected =
      call (always (move_called source destination expected))
        (ports.move_file source destination expected)

  abbrev pub cancel_control : Action (Sys E) (Unit {0})
  cancel_control s = (ok tt, record s { env = ports.cancel_token s.env })

  unfoldable pub delete_exact : FileMetadataSnapshot → Action (Sys E) (Unit {0})
  unfolding call
  delete_exact expected = call (called_or_done expected) (ports.delete_file expected)

  unfoldable pub create : FileTransaction → Action (Sys E) (Unit {0})
  unfolding call
  create t = call (on_ok (λ _. created t)) (ports.create_record t)

  unfoldable pub journal_transition :
      FileTransaction → TransactionState → Option Note → Option Note → Action (Sys E) (Unit {0})
  unfolding call
  journal_transition t next verification error =
      call (on_ok (λ _. journaled t next)) (ports.append_transition t next verification error)

  unfoldable pub create_batch : PermanentDeleteBatch → Action (Sys E) (Unit {0})
  unfolding call
  create_batch b = call (on_ok (λ _. batch_created b)) (ports.create_deletion b)

  unfoldable pub load_batch : Uuid → Action (Sys E) PermanentDeleteBatch
  unfolding call
  load_batch id = call unlogged (ports.load_deletion id)

  unfoldable pub journal_batch :
      PermanentDeleteBatch → PermanentDeleteBatchState → Option Note → Action (Sys E) (Unit {0})
  unfolding call
  journal_batch b next error =
      call (on_ok (λ _. batch_journaled b next)) (ports.append_batch b next error)

  unfoldable pub journal_item :
      PermanentDeleteBatch
      → PermanentDeleteItem
      → PermanentDeleteItemState
      → Option Note
      → Action (Sys E) (Unit {0})
  unfolding call
  journal_item b item next error =
      call (on_ok (λ _. item_journaled item next)) (ports.append_item b item next error)

  unfoldable pub open_file : FilePath → Action (Sys E) (List Read)
  unfolding call
  open_file path = call (on_ok (opened path)) (ports.open_stream path)

  unfoldable pub open_for_sampling : FilePath → Action (Sys E) (Unit {0})
  unfolding call
  open_for_sampling path = call unlogged (ports.open_handle path)

  unfoldable pub read_exact_at : FilePath → ℕ → ℕ → Action (Sys E) Text
  unfolding call
  read_exact_at path offset wanted =
      call (on_ok (sampled path offset)) (ports.read_at path offset wanted)

  unfoldable pub exists : FilePath → Action (Sys E) Bool
  unfolding ask
  exists path = ask (ports.path_exists path)

  unfoldable pub new_uuid : Action (Sys E) Uuid
  unfolding ask
  new_uuid = ask ports.fresh_uuid

  unfoldable pub now : Action (Sys E) ℤ
  unfolding ask
  now = ask ports.utc_now
