-- ===== src/Quarantine.antt =====
-- crates/dedupe-core/src/quarantine.rs: the live keeper, the layout of the quarantine, and the
-- transactions that move into it.
pub mod Layout
pub mod Keeper
use safe_duplicate_finder.Base.{
  ◌≡◌, Bool, true, false, not, ◌&&◌, ◌||◌, Option, none, some, List, [], ◌∷◌, ◌++◌, Text, text_eq,
  ◌==◌,
}
use safe_duplicate_finder.Paths.{Component, normal, FilePath, strip_prefix}
use safe_duplicate_finder.Error.{
  Result, ok, err, ok_or, state, safety, group_without_keeper, keeper_changed,
  keeper_evidence_stale, source_outside_root, quarantine_needs_identity,
  quarantine_needs_stable_evidence, not_a_quarantine_transaction,
}
use safe_duplicate_finder.Model.{
  Uuid, DuplicateGroup, DuplicateMember, ProvenFile, FileTransaction, TransactionKind,
  quarantine_kind, restore_kind, planned, is_keep, is_quarantine_kind, identity_opt_eq,
}
use safe_duplicate_finder.FullHash.{blake3_file, sha256_file}
use safe_duplicate_finder.TransactionJournal.{proves, execute_verified_move}
use safe_duplicate_finder.Ports.{Ports, Sys, snapshot, new_uuid, now}
use safe_duplicate_finder.Ports.Monad.{
  Action, ◌>>=◌, ◌>>◌, pure, raise, raise_if, or_raise, Holding, get_held,
}

-- `members.iter().find(|m| m.action == Keep)`
unfoldable pub find_keeper : List DuplicateMember → Option DuplicateMember
find_keeper [] = none
find_keeper (m ∷ ms) = elim (is_keep m.action) [ true ↦ some m | false ↦ find_keeper ms ]

module _ {E H : Type 0} (ports : Ports E H) where
  unfoldable pub verify_live_keeper : DuplicateGroup → Action (Sys E) (Unit {0})
  unfolding find_keeper
  verify_live_keeper group = do
    keeper ← or_raise (find_keeper group.members) (safety (group_without_keeper group.id))
    let expected = keeper.file.metadata
    current ← snapshot ports expected.path
    raise_if
        (not (
          identity_opt_eq current.identity expected.identity
          && current.size_bytes == expected.size_bytes
          && text_eq current.snapshot_token expected.snapshot_token))
        (safety (keeper_changed expected.path))
    blake3 ← blake3_file ports current.path
    sha256 ← sha256_file ports current.path
    raise_if (not (proves blake3 group.blake3 && proves sha256 group.sha256))
        (safety (keeper_evidence_stale current.path))

  unfoldable pub planned_transaction :
      Uuid → Uuid → Uuid → ProvenFile → FilePath → Action (Sys E) FileTransaction
  planned_transaction project_id session_id plan_item_id file destination = do
    identity ← or_raise file.metadata.identity (safety quarantine_needs_identity)
    raise_if (not file.blake3.stable || not file.sha256.stable)
        (safety quarantine_needs_stable_evidence)
    id ← new_uuid ports
    started_at ← now ports
    pure (record {
      id = id;
      project_id = project_id;
      session_id = some session_id;
      plan_item_id = some plan_item_id;
      kind = quarantine_kind;
      state = planned;
      source = file.metadata.path;
      destination = destination;
      identity = identity;
      size_bytes = file.metadata.size_bytes;
      blake3 = file.blake3.digest;
      sha256 = file.sha256.digest;
      snapshot_token = file.metadata.snapshot_token;
      started_at = started_at;
    })

  unfoldable pub execute : Action (Holding FileTransaction (Sys E)) (Unit {0})
  execute = do
    t ← get_held
    raise_if (not (is_quarantine_kind t.kind)) (state not_a_quarantine_transaction)
    execute_verified_move ports

-- `render` is how the platform writes a path's components, `uuid_text` the text of the crate uuid.
module _ (render : List Component → Text) (uuid_text : Uuid → Text) where
  -- `root.join(project).join(session).join(entry).join(relative)`
  abbrev pub under_root : FilePath → Uuid → Uuid → Uuid → List Component → List Component
  under_root root project_id session_id entry_id relative =
      root.components
      ++ (normal (uuid_text project_id)
          ∷ normal (uuid_text session_id)
          ∷ normal (uuid_text entry_id)
          ∷ relative)

  abbrev path_of : List Component → FilePath
  path_of cs = record { os_str = render cs; components = cs }

  unfoldable pub quarantine_destination :
      FilePath → Uuid → Uuid → Uuid → FilePath → FilePath → Result FilePath
  quarantine_destination quarantine_root project_id session_id entry_id source_root source =
      elim (strip_prefix source_root.components source.components) [
        | none ↦ err (safety (source_outside_root source source_root))
        | some relative ↦
            ok (path_of (under_root quarantine_root project_id session_id entry_id relative))
      ]
