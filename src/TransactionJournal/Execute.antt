-- ===== src/TransactionJournal/Execute.antt =====
-- Every run of `execute_verified_move` is safe, and ends in `verified` exactly if it returns.
use safe_duplicate_finder.Base.{◌≡◌, refl, ◌∙◌, ap, true, false, not, List, [], ◌∷◌, arith}
use safe_duplicate_finder.Model.{
  FileTransaction, TransactionState, FileMetadataSnapshot, planned, preflight_validated,
  preflight_failed, moving, move_failed, verify_failed, recovery_required, moved_unverified,
  verified, can_transition_to, is_verified,
}
use safe_duplicate_finder.Ports.{
  Ports, Sys, Event, snapped, created, journaled, move_called, snapshot, checkpoint, create,
  move_no_replace,
}
use safe_duplicate_finder.Ports.Monad.{Holding}
use safe_duplicate_finder.Ports.Hoare.{
  Post, returns, Post-then, Post-guard, raise_if-Post, Post-recover, Post-lift, Post-mono,
}
use safe_duplicate_finder.Ports.Calls.{
  snapshot-Post, checkpoint-Post, create-Post, move_no_replace-Post,
}
use safe_duplicate_finder.FullHash.Streaming.{HasherLaws, unseen, saw_snapshot}
use safe_duplicate_finder.TransactionJournal.{
  same_evidence, verify_destination, preflight_source, move_source, verify_moved,
  execute_verified_move,
}
use safe_duplicate_finder.TransactionJournal.Order.{
  recorded_state, in_state, announced, Justified, IsSafe, IsStopped, transition-Post,
  IsStopped-with_same, transition-IsStopped,
}
use safe_duplicate_finder.TransactionJournal.Destination.{
  verify_destination-Post, DestinationProof-Observed,
}

module _ {E H : Type 0} (ports : Ports E H) (laws : HasherLaws ports) (t : FileTransaction) where
  -- What the trace holds when the preflight has been recorded.
  abbrev validated : FileMetadataSnapshot → List Event
  validated source = journaled t preflight_validated ∷ snapped t.source source ∷ created t ∷ []

  abbrev call_point : FileMetadataSnapshot → List Event
  call_point source = move_called t.source t.destination source ∷ announced t source

  abbrev moved : FileMetadataSnapshot → List Event
  moved source =
      journaled (in_state t moving) moved_unverified
      ∷ move_called t.source t.destination source
      ∷ announced t source

  IsStopped-at :
      (s : Holding FileTransaction (Sys E)) (next : TransactionState) (tr : List Event)
      → s.held ≡ in_state t next
      → s.rest.trace ≡ tr
      → Justified ports laws t tr
      → recorded_state tr ≡ next
      → is_verified next ≡ false
      → IsStopped ports laws t s
  IsStopped-at s next tr same seen j r short = record {
    safe = record { justified = rw seen j; recorded = rw (seen, same) r };
    unverified = rw same short;
  }

  validated-Justified :
      (source : FileMetadataSnapshot)
      → t.state ≡ planned
      → Justified ports laws t (validated source)
  unfolding can_transition_to
  validated-Justified source new = (refl, rw new refl, λ e. cc, (refl, refl))

  called-Justified :
      (source : FileMetadataSnapshot)
      → t.state ≡ planned
      → same_evidence t source ≡ true
      → Justified ports laws t (move_called t.source t.destination source ∷ announced t source)
  unfolding can_transition_to
  called-Justified source new evidence =
      (refl, refl, evidence, refl, (refl, refl, λ e. cc, validated-Justified source new))

  moved-Justified :
      (source : FileMetadataSnapshot)
      → t.state ≡ planned
      → same_evidence t source ≡ true
      → Justified ports laws t (moved source)
  unfolding can_transition_to
  moved-Justified source new evidence = (refl, refl, λ e. cc, called-Justified source new evidence)

  preflight_source-Post :
      (s : Holding FileTransaction (Sys E))
      → t.state ≡ planned
      → s.held ≡ t
      → s.rest.trace ≡ created t ∷ []
      → Post
          (λ source s'.
            (s'.held ≡ in_state t preflight_validated)
            × (s'.rest.trace ≡ validated source)
            × (same_evidence t source ≡ true))
          (λ e s'. IsStopped ports laws t s')
          (preflight_source ports t s)
  unfolding preflight_source can_transition_to
  preflight_source-Post s new same seen =
      let begun : IsStopped ports laws t s =
        IsStopped-at s planned (created t ∷ []) (same ∙ ap (in_state t) new) seen (refl, refl) new
          refl in
      Post-recover _ _ _
        (Post-lift (snapshot ports t.source) s (snapshot-Post ports s.rest t.source))
        (λ source s₁ h₁.
          let looked : IsStopped ports laws t s₁ =
            IsStopped-with_same ports laws h₁.0 (rw (h₁.1) (saw_snapshot unseen)) begun in
          Post-recover _ _ _ (raise_if-Post (not (same_evidence t source)) _ s₁)
            (λ _ s₂ h₂.
              Post-then _ _ (transition-Post ports laws preflight_validated _ _ s₂)
                (λ _ s₃ h₃. returns (
                  rw (h₃.1, h₂.1, h₁.0, same) refl,
                  rw (h₃.2, h₂.1, h₁.1, h₁.0, same, seen) refl,
                  ground arith,
                ))
                (λ e s₃ h₃.
                  IsStopped-with_same ports laws {s = s₂} h₃.0 (rw (h₃.1) unseen)
                    (rw (h₂.1) looked)))
            (λ e s₂ h₂.
              transition-IsStopped ports laws preflight_failed _ _ s₂ refl (rw h₂ looked)))
        (λ e s₁ h₁.
          transition-IsStopped ports laws preflight_failed _ _ s₁ refl
            (IsStopped-with_same ports laws h₁.0 (rw (h₁.1) unseen) begun))

  move_source-Post :
      (source : FileMetadataSnapshot) (s : Holding FileTransaction (Sys E))
      → t.state ≡ planned
      → same_evidence t source ≡ true
      → s.held ≡ in_state t preflight_validated
      → s.rest.trace ≡ validated source
      → Post
          (λ _ s'. (s'.held ≡ in_state t moved_unverified) × (s'.rest.trace ≡ moved source))
          (λ e s'. IsStopped ports laws t s')
          (move_source ports t source s)
  unfolding move_source can_transition_to
  move_source-Post source s new evidence same seen =
      let called = called-Justified source new evidence in
      Post-then _ _ (transition-Post ports laws moving _ _ s)
        (λ _ s₁ h₁.
          Post-recover _ _ _
            (Post-lift (move_no_replace ports t.source t.destination source) s₁
              (move_no_replace-Post ports s₁.rest t.source t.destination source))
            (λ _ s₂ h₂.
              Post-mono _ (transition-Post ports laws moved_unverified _ _ s₂)
                (λ _ s₃ h₃. (
                  rw (h₃.1, h₂.0, h₁.1, same) refl,
                  rw (h₃.2, h₂.1, h₂.0, h₁.2, h₁.1, same, seen) refl,
                ))
                (λ e s₃ h₃.
                  IsStopped-at s₃ moving (call_point source) (rw (h₃.0, h₂.0, h₁.1, same) refl)
                    (rw (h₃.1, h₂.1, h₁.2, same, seen) refl) called refl refl))
            (λ e s₂ h₂.
              Post-then _ _
                (transition-IsStopped ports laws move_failed _ _ s₂ refl (
                  IsStopped-at s₂ moving (call_point source) (rw (h₂.0, h₁.1, same) refl)
                    (rw (h₂.1, h₁.2, same, seen) refl) called refl refl))
                (λ _ s₃ h₃. transition-IsStopped ports laws recovery_required _ _ s₃ refl h₃)
                (λ _ s₃ h₃. h₃)))
        (λ e s₁ h₁.
          IsStopped-at s₁ preflight_validated _ (h₁.0 ∙ same) (h₁.1 ∙ seen)
            (validated-Justified source new) refl refl)

  verify_moved-Post :
      (source : FileMetadataSnapshot) (s : Holding FileTransaction (Sys E))
      → t.state ≡ planned
      → same_evidence t source ≡ true
      → s.held ≡ in_state t moved_unverified
      → s.rest.trace ≡ moved source
      → Post
          (λ _ s'. (s'.held ≡ in_state t verified) × IsSafe ports laws t s')
          (λ e s'. IsStopped ports laws t s')
          (verify_moved ports t s)
  unfolding verify_moved can_transition_to
  verify_moved-Post source s new evidence same seen =
      let done = moved-Justified source new evidence in
      let begun : IsStopped ports laws t s =
        IsStopped-at s moved_unverified _ same seen done refl refl in
      Post-recover _ _ _
        (Post-lift (verify_destination ports t) s (verify_destination-Post ports laws t s.rest))
        (λ _ s₁ h₁.
          let looked =
            IsStopped-with_same ports laws {s' = s₁} h₁.0
              (DestinationProof-Observed ports laws t _ _ (h₁.1)) begun in
          Post-mono _ (transition-Post ports laws verified _ _ s₁)
            (λ _ s₂ h₂. (
              rw (h₂.1, h₁.0, same) refl,
              record {
                justified = rw (h₂.2) (
                  looked.safe.recorded,
                  h₂.0,
                  λ _. (s.rest.trace, rw seen refl, h₁.1),
                  looked.safe.justified,
                );
                recorded = rw (h₂.2, h₂.1) refl;
              },
            ))
            (λ e s₂ h₂. IsStopped-with_same ports laws {s = s₁} h₂.0 (rw (h₂.1) unseen) looked))
        (λ e s₁ h₁.
          Post-then _ _
            (transition-IsStopped ports laws verify_failed _ _ s₁ refl
              (IsStopped-with_same ports laws h₁.0 h₁.1 begun))
            (λ _ s₂ h₂. transition-IsStopped ports laws recovery_required _ _ s₂ refl h₂)
            (λ _ s₂ h₂. h₂))

-- A planned transaction that is executed with an empty trace ends, whether the call returns or
-- fails, in a state that the durable record shows, over a trace in which every entry is justified:
-- each transition starts at the recorded state and is allowed, the only move there is follows the
-- record of `moving` and a snapshot of the source with the planned evidence, and `verified` follows
-- a stable read of the destination with the planned identity, size, and both digests. If the call
-- returns, the transaction is as it was but `verified`; if it fails, it is not `verified`.
pub execute_verified_move-IsSafe :
    {E H : Type 0} (ports : Ports E H) (laws : HasherLaws ports)
    (s : Holding FileTransaction (Sys E))
    → s.held.state ≡ planned
    → s.rest.trace ≡ []
    → Post
        (λ _ s'. (s'.held ≡ in_state s.held verified) × IsSafe ports laws s.held s')
        (λ e s'. IsStopped ports laws s.held s')
        (execute_verified_move ports s)
unfolding execute_verified_move
execute_verified_move-IsSafe ports laws s new fresh =
    let t = s.held in
    let idle : IsStopped ports laws t s =
      IsStopped-at ports laws t s planned [] (ap (in_state t) new) fresh tt refl refl in
    Post-guard _ _ _ s
      (λ _.
        Post-then _ _ (Post-lift (create ports t) s (create-Post ports s.rest t))
          (λ _ s₁ h₁.
            Post-then _ _ (Post-lift (checkpoint ports) s₁ (checkpoint-Post ports s₁.rest))
              (λ _ s₂ h₂.
                Post-then _ _
                  (preflight_source-Post ports laws t s₂ new (h₂.0 ∙ h₁.0)
                    (h₂.1 ∙ h₁.1 ∙ ap (◌∷◌ (created t)) fresh))
                  (λ source s₃ h₃.
                    Post-then _ _ (Post-lift (checkpoint ports) s₃ (checkpoint-Post ports s₃.rest))
                      (λ _ s₄ h₄.
                        Post-then _ _
                          (move_source-Post ports laws t source s₄ new h₃.2 (h₄.0 ∙ h₃.0)
                            (h₄.1 ∙ h₃.1))
                          (λ _ s₅ h₅. verify_moved-Post ports laws t source s₅ new h₃.2 h₅.0 h₅.1)
                          (λ e s₅ h₅. h₅))
                      (λ e s₄ h₄.
                        IsStopped-at ports laws t s₄ preflight_validated _ (h₄.0 ∙ h₃.0)
                          (h₄.1 ∙ h₃.1) (validated-Justified ports laws t source new) refl refl))
                  (λ e s₃ h₃. h₃))
              (λ e s₂ h₂.
                IsStopped-at ports laws t s₂ planned _ (h₂.0 ∙ h₁.0 ∙ ap (in_state t) new)
                  (h₂.1 ∙ h₁.1 ∙ ap (◌∷◌ (created t)) fresh) (refl, refl) new refl))
          (λ e s₁ h₁. IsStopped-with_same ports laws {s = s} h₁.0 (rw (h₁.1) unseen) idle))
      (λ _. idle)
