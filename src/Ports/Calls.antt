-- ===== src/Ports/Calls.antt =====
-- What each call of a port leaves in the trace.
use safe_duplicate_finder.Base.{ℕ, Text, ◌≡◌, refl, List, ◌∷◌, Option}
use safe_duplicate_finder.Paths.{FilePath}
use safe_duplicate_finder.Error.{Result, ok, err}
use safe_duplicate_finder.Model.{Uuid, FileMetadataSnapshot, FileTransaction, TransactionState}
use safe_duplicate_finder.DeletionModel.{
  PermanentDeleteBatch, PermanentDeleteItem, PermanentDeleteBatchState, PermanentDeleteItemState,
}
use safe_duplicate_finder.Ports.{
  new_uuid, ask, sampled, open_for_sampling, read_exact_at, Ports, Sys, Note, on_ok, always,
  unlogged, Event, snapped, opened, created, journaled, move_called, call, snapshot, checkpoint,
  move_no_replace, create, journal_transition, open_file, delete_exact, create_batch, load_batch,
  journal_batch, journal_item, delete_called, delete_done, not_seen, seen_or_not, called_or_done,
  snapshot_or_not, batch_created, batch_journaled, item_journaled,
}
use safe_duplicate_finder.Ports.Hoare.{Post, returns, fails}

call-Post :
    {A E : Type 0} (note : Result A → List Event → List Event) (f : E → Result A × E) (s : Sys E)
    → Post
        (λ a s'. s'.trace ≡ note (ok a) s.trace)
        (λ e s'. s'.trace ≡ note (err e) s.trace)
        (call note f s)
unfolding call
call-Post {A} {E} note f s = from_result (f s.env).0 (f s.env).1
  where
    from_result :
        (r : Result A) (e : E)
        → Post {S = Sys E}
            (λ a s'. s'.trace ≡ note (ok a) s.trace)
            (λ x s'. s'.trace ≡ note (err x) s.trace)
            (r, record { env = e; trace = note r s.trace })
    from_result (ok a) e = returns refl
    from_result (err x) e = fails refl

module _ {E H : Type 0} (ports : Ports E H) (s : Sys E) where
  pub snapshot-Post :
      (path : FilePath)
      → Post
          (λ a s'. s'.trace ≡ snapped path a ∷ s.trace)
          (λ e s'. s'.trace ≡ s.trace)
          (snapshot ports path s)
  unfolding snapshot
  snapshot-Post path = call-Post (on_ok (snapped path)) (ports.take_snapshot path) s

  pub snapshot_or_not-Post :
      (path : FilePath)
      → Post
          (λ a s'. s'.trace ≡ snapped path a ∷ s.trace)
          (λ e s'. s'.trace ≡ not_seen path e ∷ s.trace)
          (snapshot_or_not ports path s)
  unfolding snapshot_or_not
  snapshot_or_not-Post path = call-Post (seen_or_not path) (ports.take_snapshot path) s

  pub checkpoint-Post :
      Post (λ _ s'. s'.trace ≡ s.trace) (λ e s'. s'.trace ≡ s.trace) (checkpoint ports s)
  unfolding checkpoint
  checkpoint-Post = call-Post unlogged ports.pass_checkpoint s

  pub open_file-Post :
      (path : FilePath)
      → Post
          (λ reads s'. s'.trace ≡ opened path reads ∷ s.trace)
          (λ e s'. s'.trace ≡ s.trace)
          (open_file ports path s)
  unfolding open_file
  open_file-Post path = call-Post (on_ok (opened path)) (ports.open_stream path) s

  pub create-Post :
      (t : FileTransaction)
      → Post
          (λ _ s'. s'.trace ≡ created t ∷ s.trace)
          (λ e s'. s'.trace ≡ s.trace)
          (create ports t s)
  unfolding create
  create-Post t = call-Post (on_ok (λ _. created t)) (ports.create_record t) s

  pub journal_transition-Post :
      (t : FileTransaction) (next : TransactionState) (verification error : Option Note)
      → Post
          (λ _ s'. s'.trace ≡ journaled t next ∷ s.trace)
          (λ e s'. s'.trace ≡ s.trace)
          (journal_transition ports t next verification error s)
  unfolding journal_transition
  journal_transition-Post t next verification error =
      call-Post (on_ok (λ _. journaled t next)) (ports.append_transition t next verification error)
        s

  pub move_no_replace-Post :
      (source destination : FilePath) (expected : FileMetadataSnapshot)
      → Post
          (λ _ s'. s'.trace ≡ move_called source destination expected ∷ s.trace)
          (λ e s'. s'.trace ≡ move_called source destination expected ∷ s.trace)
          (move_no_replace ports source destination expected s)
  unfolding move_no_replace
  move_no_replace-Post source destination expected =
      call-Post (always (move_called source destination expected))
        (ports.move_file source destination expected) s

  pub delete_exact-Post :
      (expected : FileMetadataSnapshot)
      → Post
          (λ _ s'. s'.trace ≡ delete_done expected ∷ delete_called expected ∷ s.trace)
          (λ e s'. s'.trace ≡ delete_called expected ∷ s.trace)
          (delete_exact ports expected s)
  unfolding delete_exact
  delete_exact-Post expected = call-Post (called_or_done expected) (ports.delete_file expected) s

  pub create_batch-Post :
      (b : PermanentDeleteBatch)
      → Post
          (λ _ s'. s'.trace ≡ batch_created b ∷ s.trace)
          (λ e s'. s'.trace ≡ s.trace)
          (create_batch ports b s)
  unfolding create_batch
  create_batch-Post b = call-Post (on_ok (λ _. batch_created b)) (ports.create_deletion b) s

  pub journal_batch-Post :
      (b : PermanentDeleteBatch) (next : PermanentDeleteBatchState) (error : Option Note)
      → Post
          (λ _ s'. s'.trace ≡ batch_journaled b next ∷ s.trace)
          (λ e s'. s'.trace ≡ s.trace)
          (journal_batch ports b next error s)
  unfolding journal_batch
  journal_batch-Post b next error =
      call-Post (on_ok (λ _. batch_journaled b next)) (ports.append_batch b next error) s

  pub journal_item-Post :
      (b : PermanentDeleteBatch) (item : PermanentDeleteItem) (next : PermanentDeleteItemState)
      (error : Option Note)
      → Post
          (λ _ s'. s'.trace ≡ item_journaled item next ∷ s.trace)
          (λ e s'. s'.trace ≡ s.trace)
          (journal_item ports b item next error s)
  unfolding journal_item
  journal_item-Post b item next error =
      call-Post (on_ok (λ _. item_journaled item next)) (ports.append_item b item next error) s

  pub open_for_sampling-Post :
      (path : FilePath)
      → Post
          (λ _ s'. s'.trace ≡ s.trace)
          (λ e s'. s'.trace ≡ s.trace)
          (open_for_sampling ports path s)
  unfolding open_for_sampling
  open_for_sampling-Post path = call-Post unlogged (ports.open_handle path) s

  -- What was read is what the file gave.
  pub read_exact_at-Post :
      (path : FilePath) (offset wanted : ℕ)
      → Post
          (λ bytes s'.
            ((e : E) × ((ports.read_at path offset wanted e).0 ≡ ok bytes))
            × (s'.trace ≡ sampled path offset bytes ∷ s.trace))
          (λ e s'. s'.trace ≡ s.trace)
          (read_exact_at ports path offset wanted s)
  unfolding read_exact_at call
  read_exact_at-Post path offset wanted =
      from_result (ports.read_at path offset wanted s.env).0
        (ports.read_at path offset wanted s.env).1 refl
    where
      from_result :
          (r : Result Text) (e : E)
          → (ports.read_at path offset wanted s.env).0 ≡ r
          → Post {S = Sys E}
              (λ bytes s'.
                ((e : E) × ((ports.read_at path offset wanted e).0 ≡ ok bytes))
                × (s'.trace ≡ sampled path offset bytes ∷ s.trace))
              (λ x s'. s'.trace ≡ s.trace)
              (r, record { env = e; trace = on_ok (sampled path offset) r s.trace })
      from_result (ok bytes) e h = returns ((s.env, h), refl)
      from_result (err x) e h = fails refl

  -- What was loaded is what the journal holds.
  pub load_batch-Post :
      (id : Uuid)
      → Post
          (λ b s'. ((ports.load_deletion id s.env).0 ≡ ok b) × (s'.trace ≡ s.trace))
          (λ e s'. s'.trace ≡ s.trace)
          (load_batch ports id s)
  unfolding load_batch call
  load_batch-Post id = from_result (ports.load_deletion id s.env).0 (ports.load_deletion id s.env).1
    where
      from_result :
          (r : Result PermanentDeleteBatch) (e : E)
          → Post {S = Sys E}
              (λ b s'. (r ≡ ok b) × (s'.trace ≡ s.trace))
              (λ x s'. s'.trace ≡ s.trace)
              (r, record { env = e; trace = unlogged r s.trace })
      from_result (ok b) e = returns (refl, refl)
      from_result (err x) e = fails refl

  pub new_uuid-Post : Post (λ _ s'. s'.trace ≡ s.trace) (λ _ _. ⊥) (new_uuid ports s)
  unfolding new_uuid ask
  new_uuid-Post = returns refl
