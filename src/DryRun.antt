-- ===== src/DryRun.antt =====
-- crates/dedupe-core/src/dry_run.rs: the freshness of a frozen plan, and its summary.
pub mod Summary
pub mod Reclaimable
pub mod Freshness
use safe_duplicate_finder.Base.{
  ℕ, Bool, not, ◌&&◌, List, [], ◌∷◌, ◌++◌, text_eq, saturating_add, ◌==◌, if◌then◌else◌,
}
use safe_duplicate_finder.Paths.{FilePath}
use safe_duplicate_finder.Error.{Result, ok, err, safety, plan_evidence_stale, ◌>>=◌ as then_try}
use safe_duplicate_finder.Model.{
  Uuid, FileMetadataSnapshot, DuplicateGroup, DuplicateMember, MemberReason, OperationPlan,
  is_quarantine, validate_keeper, identity_opt_eq,
}
use safe_duplicate_finder.Ports.{Ports, Sys, snapshot}
use safe_duplicate_finder.Ports.Monad.{Action, ◌>>=◌, ◌>>◌, pure, raise_if}

pub record DryRunItem : Type 0 where
  pub group_id : Uuid
  pub source : FilePath
  pub size_bytes : ℕ
  pub reason : MemberReason

pub record DryRunReport : Type 0 where
  pub plan_id : Uuid
  pub items : List DryRunItem
  pub potential_reclaimable_bytes : ℕ

-- A later snapshot shows the file that was planned.
abbrev pub is_fresh : FileMetadataSnapshot → FileMetadataSnapshot → Bool
is_fresh current expected =
    identity_opt_eq current.identity expected.identity
    && current.size_bytes == expected.size_bytes
    && text_eq current.snapshot_token expected.snapshot_token

module _ {E H : Type 0} (ports : Ports E H) where
  -- The inner loop of `validate_fresh`, and the outer one.
  unfoldable pub validate_members : List DuplicateMember → Action (Sys E) (Unit {0})
  validate_members [] = pure tt
  validate_members (m ∷ ms) = do
    current ← snapshot ports m.file.metadata.path
    raise_if (not (is_fresh current m.file.metadata))
        (safety (plan_evidence_stale m.file.metadata.path))
    validate_members ms

  unfoldable pub validate_fresh : List DuplicateGroup → Action (Sys E) (Unit {0})
  validate_fresh [] = pure tt
  validate_fresh (g ∷ gs) = do validate_members g.members; validate_fresh gs

-- The loop over a group's members, with the items and the bytes so far.
unfoldable pub add_members : Uuid → List DuplicateMember → List DryRunItem → ℕ → List DryRunItem × ℕ
add_members group_id [] items bytes = (items, bytes)
add_members group_id (m ∷ ms) items bytes =
    let size = m.file.metadata.size_bytes in
    let item : DryRunItem = record {
      group_id = group_id;
      source = m.file.metadata.path;
      size_bytes = size;
      reason = m.reason;
    } in
    add_members group_id ms (if is_quarantine m.action then items ++ (item ∷ []) else items)
      (if is_quarantine m.action then saturating_add bytes size else bytes)

-- The loop over the groups.
unfoldable pub add_groups : List DuplicateGroup → List DryRunItem → ℕ → Result (List DryRunItem × ℕ)
add_groups [] items bytes = ok (items, bytes)
add_groups (g ∷ gs) items bytes = then_try (validate_keeper g) (λ _.
    let (items', bytes') = add_members g.id g.members items bytes in add_groups gs items' bytes')

unfoldable pub build : OperationPlan → Result DryRunReport
build plan = then_try (add_groups plan.groups [] 0) (λ (items, bytes).
    ok (record { plan_id = plan.id; items = items; potential_reclaimable_bytes = bytes }))
