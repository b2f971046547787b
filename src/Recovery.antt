-- ===== src/Recovery.antt =====
-- crates/dedupe-core/src/recovery.rs: what a start-up makes of a transaction that was interrupted.
pub mod Reconciled
use safe_duplicate_finder.Base.{Bool, true, false, Option, none, some}
use safe_duplicate_finder.Error.{safety, both_paths_missing}
use safe_duplicate_finder.Model.{
  FileTransaction, TransactionState, moving, moved_unverified, recovery_required, verified,
  reconciled_source_only, reconciled_both, reconciled_missing,
}
use safe_duplicate_finder.TransactionJournal.{transition, verify_destination}
use safe_duplicate_finder.Ports.{
  Ports, Sys, phrase, startup_source_only, startup_destination_found, startup_destination_verified,
  startup_keeps_both, startup_nothing_found, exists,
}
use safe_duplicate_finder.Ports.Monad.{
  Action, ◌>>=◌, ◌>>◌, pure, raise, when, Holding, lift, get_held,
}

pub data Reconciliation : Type 0 where
  source_only destination_verified both missing : Reconciliation

abbrev is_moving : TransactionState → Bool
is_moving moving = true
is_moving _ = false

abbrev awaits_verification : TransactionState → Bool
awaits_verification moved_unverified = true
awaits_verification recovery_required = true
awaits_verification _ = false

module _ {E H : Type 0} (ports : Ports E H) where
  -- The `match (source_exists, destination_exists)`.
  unfoldable pub settle : Bool → Bool → Action (Holding FileTransaction (Sys E)) Reconciliation
  settle true false = do
    transition ports reconciled_source_only (some startup_source_only) none
    pure source_only
  settle false true = do
    t ← get_held
    lift (verify_destination ports t)
    when (is_moving t.state)
        (transition ports moved_unverified (some startup_destination_found) none)
    t' ← get_held
    when (awaits_verification t'.state)
        (transition ports verified (some startup_destination_verified) none)
    pure destination_verified
  settle true true = do transition ports reconciled_both (some startup_keeps_both) none; pure both
  settle false false = do
    transition ports reconciled_missing (some startup_nothing_found)
        (some (phrase both_paths_missing))
    raise (safety both_paths_missing)

  unfoldable pub reconcile : Action (Holding FileTransaction (Sys E)) Reconciliation
  reconcile = do
    t ← get_held
    source_exists ← lift (exists ports t.source)
    destination_exists ← lift (exists ports t.destination)
    settle source_exists destination_exists
