-- ===== src/Tests/Witnesses.antt =====
-- Each theorem with hypotheses, applied where they hold.
use safe_duplicate_finder.Base.{
  ◌≡◌, refl, ◌⊎◌, ◌≤◌, List, [], ◌∷◌, ◌++◌, All, any, length, true, false, Text, pos, arith, ℤ,
  Option, some, count, Bool,
}
use safe_duplicate_finder.Paths.{FilePath, Component, normal, path_eq, starts_with, strip_prefix}
use safe_duplicate_finder.Error.{ok, err, safety, source_outside_root}
use safe_duplicate_finder.Model.{
  TransactionState, planned, preflight_validated, moving, moved_unverified, verified,
  can_transition_to, sha256_full, OperationPlan, keep, quarantine, is_verified, newest, Uuid,
  maximum_reclaimable_bytes,
}
use safe_duplicate_finder.Model.States.{transitions_bounded, verified_needs_moving, is_moving}
use safe_duplicate_finder.DeletionModel.{
  PermanentDeleteBatch, immediate, DeletionEntry, PermanentDeleteItemState,
  PermanentDeleteBatchState, item_can_transition_to, batch_can_transition_to,
}
use safe_duplicate_finder.Ports.Hoare.{Post}
use safe_duplicate_finder.FullHash.{hash_stream}
use safe_duplicate_finder.FullHash.Streaming.{Hashed, Observed, hash_stream-digest}
use safe_duplicate_finder.TransactionJournal.{execute_verified_move}
use safe_duplicate_finder.TransactionJournal.Order.{in_state, IsSafe, IsStopped}
use safe_duplicate_finder.TransactionJournal.Execute.{execute_verified_move-IsSafe}
use safe_duplicate_finder.Recovery.{reconcile}
use safe_duplicate_finder.Recovery.Reconciled.{Verdict, NotPromoted, reconcile-Verdict}
use safe_duplicate_finder.Restore.RoundTrip.{
  IsWayBack, quarantine_then_plan, quarantine_then_plan-IsWayBack,
}
use safe_duplicate_finder.Quarantine.{quarantine_destination}
use safe_duplicate_finder.Quarantine.Layout.{
  quarantine_destination-layout, quarantine_destination-apart,
}
use safe_duplicate_finder.KeepPolicy.{apply}
use safe_duplicate_finder.KeepPolicy.Applied.{IsApplied, NoChoice, apply-IsApplied}
use safe_duplicate_finder.DryRun.{DryRunReport, validate_fresh, build}
use safe_duplicate_finder.DryRun.Freshness.{ConfirmedGroups, validate_fresh-ConfirmedGroups}
use safe_duplicate_finder.DryRun.Summary.{
  HasKeeper, all_quarantined, all_bytes, capped, build-quarantined, quarantined_bytes,
}
use safe_duplicate_finder.PermanentDelete.Execute.{execute, is_completed}
use safe_duplicate_finder.PermanentDelete.Execute.Careful.{Quiet, IsCareful}
use safe_duplicate_finder.PermanentDelete.Execute.Guarded.{
  IsAuthorised, MayRun, RunOk, authorised_totals, execute-IsCareful,
}
use safe_duplicate_finder.Ports.{batch_created}
use safe_duplicate_finder.PermanentDelete.Prepare.{prepare_with_ttl_and_mode}
use safe_duplicate_finder.PermanentDelete.Promised.{
  IsPromised, prepare_with_ttl_and_mode-IsPromised,
}
use safe_duplicate_finder.PermanentDelete.{sort_by_id, digest_selection}
use safe_duplicate_finder.PermanentDelete.Sorted.{IsSorted, sort_by_id_lem}
use safe_duplicate_finder.DryRun.Reclaimable.{apply-maximum_reclaimable_bytes}
use safe_duplicate_finder.DeletionModel.States.{deletion_needs_intent}
use safe_duplicate_finder.Tests.World.{
  selected, path, world, world_laws, member, group, transaction, uuid_bytes, batch, token, idle,
  holding,
}
use safe_duplicate_finder.DeletionModel as Deletion
use safe_duplicate_finder.DeletionModel.States as Deletion_states

execute_verified_move-IsSafe_example :
    Post
      (λ _ s'.
        (s'.held ≡ in_state (transaction planned) verified)
        × IsSafe world world_laws (transaction planned) s')
      (λ e s'. IsStopped world world_laws (transaction planned) s')
      (execute_verified_move world (holding (transaction planned)))
execute_verified_move-IsSafe_example =
    execute_verified_move-IsSafe world world_laws (holding (transaction planned)) refl refl

execute-IsCareful_example :
    Post
      (λ o s'.
        (b : PermanentDeleteBatch) × IsAuthorised world world_laws uuid_bytes 20 token
          batch.confirmation_phrase idle b
        × RunOk world world_laws (pos 10) b o s'.trace
        × ((is_completed b.state ≡ true) ⊎ (o ≡ authorised_totals b)))
      (λ e s'.
        Quiet [] s'.trace
        ⊎ ((b : PermanentDeleteBatch) × IsAuthorised world world_laws uuid_bytes 20 token
              batch.confirmation_phrase idle b
            × MayRun world world_laws (pos 10) b
            × IsCareful world world_laws b.items s'.trace))
      (execute world uuid_bytes 20 token batch.confirmation_phrase (pos 10) idle)
execute-IsCareful_example =
    execute-IsCareful world world_laws uuid_bytes 20 token batch.confirmation_phrase (pos 10) idle
      refl

apply-IsApplied_example :
    Post
      (λ _ g'. IsApplied newest group g')
      (λ e g'. (g' ≡ group) × NoChoice newest group)
      (apply newest group)
apply-IsApplied_example = apply-IsApplied newest group

reconcile-Verdict_example :
    Post
      (λ r s'. Verdict world world_laws (transaction moving) [] r s')
      (λ e s'. NotPromoted world world_laws (transaction moving) s')
      (reconcile world (holding (transaction moving)))
reconcile-Verdict_example = reconcile-Verdict world world_laws (holding (transaction moving))

hash_stream-digest_example :
    Post
      (λ r s'. Hashed world world_laws sha256_full (path 1) [] r s'.trace)
      (λ e s'. Observed [] s'.trace)
      (hash_stream world (path 1) sha256_full idle)
hash_stream-digest_example = hash_stream-digest world world_laws (path 1) sha256_full idle

quarantine_then_plan-IsWayBack_example :
    Post
      (λ r s'.
        (s'.held ≡ in_state (transaction planned) verified) × IsWayBack (transaction planned) r)
      (λ e s'. is_verified s'.held.state ≡ false)
      (quarantine_then_plan world (holding (transaction planned)))
quarantine_then_plan-IsWayBack_example =
    quarantine_then_plan-IsWayBack world world_laws (holding (transaction planned)) refl refl refl

abbrev below : FilePath
below = record { os_str = 1 ∷ 47 ∷ 8 ∷ []; components = normal (1 ∷ []) ∷ normal (8 ∷ []) ∷ [] }

abbrev render : List Component → Text
render cs = length cs ∷ []

quarantine_destination-layout_example :
    ((starts_with below (path 1) ≡ true)
      → (d : FilePath) × (relative : List Component) × (quarantine_destination render uuid_bytes
            (path 6)
            11
            12
            13
            (path 1)
            below
          ≡ ok d)
        × (below.components ≡ (path 1).components ++ relative)
        × (d.components
            ≡ (path 6).components
              ++ (normal (11 ∷ []) ∷ normal (12 ∷ []) ∷ normal (13 ∷ []) ∷ relative)))
    × ((starts_with below (path 1) ≡ false)
        → quarantine_destination render uuid_bytes (path 6) 11 12 13 (path 1) below
          ≡ err (safety (source_outside_root below (path 1))))
quarantine_destination-layout_example =
    quarantine_destination-layout render uuid_bytes (path 6) 11 12 13 (path 1) below

place_of : Uuid → FilePath
place_of id = record {
  os_str = 5 ∷ [];
  components =
      normal (6 ∷ [])
      ∷ normal (11 ∷ [])
      ∷ normal (12 ∷ [])
      ∷ normal (id ∷ [])
      ∷ normal (8 ∷ [])
      ∷ [];
}

quarantine_destination-apart_example : path_eq (place_of 13) (place_of 14) ≡ false
unfolding quarantine_destination place_of strip_prefix
quarantine_destination-apart_example =
    quarantine_destination-apart render uuid_bytes (λ a b h. cc) (path 6) 11 12 13 14 (path 1) below
      (path 1) below (λ h. omega (arith, h)) refl refl

validate_fresh-ConfirmedGroups_example :
    Post
      (λ _ s'. ConfirmedGroups (group ∷ []) [] s'.trace)
      (λ _ _. Unit)
      (validate_fresh world (group ∷ []) idle)
validate_fresh-ConfirmedGroups_example = validate_fresh-ConfirmedGroups world (group ∷ []) idle

abbrev plan : OperationPlan
plan = record {
  id = 30;
  groups =
      record group {
        members =
            record (member 1) { action = keep }
            ∷ record (member 2) { action = quarantine }
            ∷ record (member 3) { action = quarantine }
            ∷ [];
      }
      ∷ [];
  evidence_version = 1;
  created_at = pos 5;
}

build-quarantined_example :
    (All HasKeeper plan.groups
      → build plan
        ≡ ok (record {
          plan_id = plan.id;
          items = all_quarantined plan.groups;
          potential_reclaimable_bytes = capped (all_bytes plan.groups);
        }))
    × ((report : DryRunReport) → build plan ≡ ok report → All HasKeeper plan.groups)
build-quarantined_example = build-quarantined plan

abbrev whole_move : List TransactionState
whole_move = preflight_validated ∷ moving ∷ moved_unverified ∷ verified ∷ []

transitions_bounded_example : length whole_move ≤ 6
unfolding can_transition_to
transitions_bounded_example =
    transitions_bounded planned whole_move (refl, (refl, (refl, (refl, tt))))

verified_needs_moving_example : any is_moving whole_move ≡ true
unfolding can_transition_to
verified_needs_moving_example =
    verified_needs_moving whole_move (refl, (refl, (refl, (refl, tt)))) refl

abbrev add_time : ℤ → ℤ → Option ℤ
add_time now ttl = some (pos 60)

prepare_with_ttl_and_mode-IsPromised_example :
    Post
      (λ c s'.
        (b : PermanentDeleteBatch) × IsPromised world uuid_bytes uuid_bytes add_time immediate
          (pos 10)
          (pos 50)
          selected
          c
          b
        × (s'.trace ≡ batch_created b ∷ []))
      (λ e s'. s'.trace ≡ [])
      (prepare_with_ttl_and_mode world uuid_bytes uuid_bytes add_time selected
        (pos 10)
        (pos 50)
        immediate
        idle)
prepare_with_ttl_and_mode-IsPromised_example =
    prepare_with_ttl_and_mode-IsPromised world uuid_bytes uuid_bytes add_time selected (pos 10)
      (pos 50) immediate idle

sort_by_id_lem_example :
    IsSorted (sort_by_id selected)
    × ((p : DeletionEntry → Bool) → count p (sort_by_id selected) ≡ count p selected)
    × (digest_selection world uuid_bytes (sort_by_id selected)
        ≡ digest_selection world uuid_bytes selected)
sort_by_id_lem_example = sort_by_id_lem world uuid_bytes selected

apply-maximum_reclaimable_bytes_example :
    Post
      (λ _ g'. capped (quarantined_bytes g'.members) ≡ maximum_reclaimable_bytes g')
      (λ _ g'. g' ≡ group)
      (apply newest group)
apply-maximum_reclaimable_bytes_example =
    apply-maximum_reclaimable_bytes newest group (refl, (refl, (refl, tt)))

abbrev retried_item : List PermanentDeleteItemState
retried_item = Deletion.deleting ∷ Deletion.failed ∷ Deletion.deleting ∷ Deletion.deleted ∷ []

abbrev retried_batch : List PermanentDeleteBatchState
retried_batch =
    Deletion.executing ∷ Deletion.recovery_required ∷ Deletion.executing ∷ Deletion.completed ∷ []

deletion_needs_intent_example :
    (any Deletion_states.is_deleting retried_item ≡ true)
    × (any Deletion_states.is_executing retried_batch ≡ true)
unfolding item_can_transition_to batch_can_transition_to
deletion_needs_intent_example =
    deletion_needs_intent retried_item retried_batch (refl, (refl, (refl, (refl, tt))))
      (refl, (refl, (refl, (refl, tt)))) refl refl
