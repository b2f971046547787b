-- ===== src/Restore.antt =====
-- crates/dedupe-core/src/restore.rs: the way back, by the same protocol with the paths exchanged.
pub mod RoundTrip
use safe_duplicate_finder.Base.{Bool, true, false, not, ◌&&◌, ◌||◌, none}
use safe_duplicate_finder.Error.{
  state, safety, only_verified_quarantine_restores, not_a_restore_transaction,
}
use safe_duplicate_finder.Model.{
  FileTransaction, TransactionKind, quarantine_kind, restore_kind, planned, is_verified,
  is_quarantine_kind,
}
use safe_duplicate_finder.TransactionJournal.{execute_verified_move}
use safe_duplicate_finder.Ports.{Ports, Sys, new_uuid, now}
use safe_duplicate_finder.Ports.Monad.{Action, ◌>>=◌, ◌>>◌, pure, raise_if, Holding, get_held}

module _ {E H : Type 0} (ports : Ports E H) where
  unfoldable pub planned_transaction : FileTransaction → Action (Sys E) FileTransaction
  planned_transaction quarantined = do
    raise_if (not (is_quarantine_kind quarantined.kind) || not (is_verified quarantined.state))
        (safety only_verified_quarantine_restores)
    id ← new_uuid ports
    started_at ← now ports
    pure (record {
      id = id;
      project_id = quarantined.project_id;
      session_id = quarantined.session_id;
      plan_item_id = none;
      kind = restore_kind;
      state = planned;
      source = quarantined.destination;
      destination = quarantined.source;
      identity = quarantined.identity;
      size_bytes = quarantined.size_bytes;
      blake3 = quarantined.blake3;
      sha256 = quarantined.sha256;
      snapshot_token = quarantined.snapshot_token;
      started_at = started_at;
    })

  unfoldable pub execute : Action (Holding FileTransaction (Sys E)) (Unit {0})
  execute = do
    t ← get_held
    raise_if (is_quarantine_kind t.kind) (state not_a_restore_transaction)
    execute_verified_move ports
