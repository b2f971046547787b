-- ===== src/TransactionJournal.antt =====
-- crates/dedupe-core/src/transaction_journal.rs: the durable, verified move of one file.
pub mod Order
pub mod Destination
pub mod Execute
use safe_duplicate_finder.Base.{Bool, not, ◌&&◌, ◌||◌, Option, none, some, Text, text_eq, ◌==◌}
use safe_duplicate_finder.Error.{
  state, safety, new_change_starts_planned, source_evidence_changed, invalid_transaction_transition,
  destination_identity_mismatch, destination_blake3_mismatch, destination_sha256_mismatch,
}
use safe_duplicate_finder.Model.{
  FileMetadataSnapshot, HashResult, FileTransaction, TransactionState, preflight_failed,
  preflight_validated, moving, move_failed, moved_unverified, verified, verify_failed,
  recovery_required, can_transition_to, is_planned, identity_opt_eq,
}
use safe_duplicate_finder.FullHash.{blake3_file, sha256_file}
use safe_duplicate_finder.Ports.{
  Ports, Sys, Note, phrase, text_of, source_matches, destination_verified,
  move_needs_reconciliation, destination_check_failed, destination_unverified, snapshot, checkpoint,
  move_no_replace, create, journal_transition,
}
use safe_duplicate_finder.Ports.Monad.{
  Action, ◌>>=◌, ◌>>◌, pure, raise, raise_if, on_error, when, Holding, lift, get_held, put_held,
}

-- A digest that is stable and the expected one.
abbrev pub proves : HashResult → Text → Bool
proves r expected = r.stable && text_eq r.digest expected

abbrev pub same_identity_and_size : FileTransaction → FileMetadataSnapshot → Bool
same_identity_and_size t s =
    identity_opt_eq s.identity (some t.identity) && s.size_bytes == t.size_bytes

abbrev pub same_evidence : FileTransaction → FileMetadataSnapshot → Bool
same_evidence t s = same_identity_and_size t s && text_eq s.snapshot_token t.snapshot_token

module _ {E H : Type 0} (ports : Ports E H) where
  -- The record is journaled first, and only then does the copy in memory follow.
  unfoldable pub transition :
      TransactionState
      → Option Note
      → Option Note
      → Action (Holding FileTransaction (Sys E)) (Unit {0})
  transition next verification error = do
    t ← get_held
    raise_if (not (can_transition_to t.state next)) (state invalid_transaction_transition)
    lift (journal_transition ports t next verification error)
    put_held (record t { state = next })

  unfoldable pub verify_destination : FileTransaction → Action (Sys E) (Unit {0})
  verify_destination t = do
    checkpoint ports
    destination ← snapshot ports t.destination
    raise_if (not (same_identity_and_size t destination)) (safety destination_identity_mismatch)
    blake3 ← blake3_file ports t.destination
    raise_if (not (proves blake3 t.blake3)) (safety destination_blake3_mismatch)
    sha256 ← sha256_file ports t.destination
    raise_if (not (proves sha256 t.sha256)) (safety destination_sha256_mismatch)

  -- Up to the durable record that the source was found as planned. The source's snapshot is
  -- handed on to the mover.
  unfoldable pub preflight_source :
      FileTransaction → Action (Holding FileTransaction (Sys E)) FileMetadataSnapshot
  preflight_source t = do
    source ←
        on_error (lift (snapshot ports t.source))
          λ e. transition preflight_failed none (some (text_of e))
    on_error (raise_if (not (same_evidence t source)) (safety source_evidence_changed))
        λ _. transition preflight_failed none (some (phrase source_evidence_changed))
    transition preflight_validated (some source_matches) none
    pure source

  -- The move itself, between two durable records.
  unfoldable pub move_source :
      FileTransaction → FileMetadataSnapshot → Action (Holding FileTransaction (Sys E)) (Unit {0})
  move_source t source = do
    transition moving none none
    on_error (lift (move_no_replace ports t.source t.destination source)) λ e. do
      transition move_failed none (some (text_of e))
      transition recovery_required none (some move_needs_reconciliation)
    transition moved_unverified none none

  -- The verification of what was moved.
  unfoldable pub verify_moved :
      FileTransaction → Action (Holding FileTransaction (Sys E)) (Unit {0})
  verify_moved t = do
    on_error (lift (verify_destination t)) λ e. do
      transition verify_failed (some destination_check_failed) (some (text_of e))
      transition recovery_required none (some destination_unverified)
    transition verified (some destination_verified) none

  unfoldable pub execute_verified_move : Action (Holding FileTransaction (Sys E)) (Unit {0})
  execute_verified_move = do
    t ← get_held
    raise_if (not (is_planned t.state)) (state new_change_starts_planned)
    lift (create ports t)
    lift (checkpoint ports)
    source ← preflight_source t
    lift (checkpoint ports)
    move_source t source
    verify_moved t
