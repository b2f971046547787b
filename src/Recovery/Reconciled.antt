-- ===== src/Recovery/Reconciled.antt =====
-- What a start-up may conclude: crates/dedupe-core/src/recovery.rs.
use safe_duplicate_finder.Base.{
  ◌≡◌, refl, ◌∙◌, ap, Bool, true, false, List, ◌∷◌, Option, if◌then◌else◌,
}
use safe_duplicate_finder.Model.{
  FileTransaction, TransactionState, moving, moved_unverified, recovery_required, verified,
  reconciled_source_only, reconciled_both, reconciled_missing, is_verified,
}
use safe_duplicate_finder.FullHash.Streaming.{HasherLaws}
use safe_duplicate_finder.TransactionJournal.{transition, verify_destination}
use safe_duplicate_finder.TransactionJournal.Order.{in_state, DestinationProof, transition-Post}
use safe_duplicate_finder.TransactionJournal.Destination.{verify_destination-Post}
use safe_duplicate_finder.Recovery.{
  Reconciliation, source_only, destination_verified, both, missing, is_moving, awaits_verification,
  settle, reconcile,
}
use safe_duplicate_finder.Ports.{Ports, Sys, Note, Event, journaled, exists}
use safe_duplicate_finder.Ports.Monad.{Holding, when}
use safe_duplicate_finder.Ports.Hoare.{Post, returns, fails, Post-then, Post-lift, Post-mono}

-- The state in which a verified destination leaves a transaction.
abbrev pub settled : TransactionState → TransactionState
settled moving = verified
settled moved_unverified = verified
settled recovery_required = verified
settled other = other

-- The transitions that are recorded behind the proof of a destination.
abbrev pub settled_trace : TransactionState → FileTransaction → List Event → List Event
settled_trace moving t to =
    journaled (in_state t moved_unverified) verified ∷ journaled t moved_unverified ∷ to
settled_trace moved_unverified t to = journaled t verified ∷ to
settled_trace recovery_required t to = journaled t verified ∷ to
settled_trace other t to = to

-- The two conditional transitions, on the transaction and on the trace.
abbrev start : TransactionState → FileTransaction → FileTransaction
start found t = if is_moving found then in_state t moved_unverified else t

abbrev finish : FileTransaction → FileTransaction
finish t = if awaits_verification t.state then in_state t verified else t

abbrev start_trace : TransactionState → FileTransaction → List Event → List Event
start_trace found t to = if is_moving found then journaled t moved_unverified ∷ to else to

abbrev finish_trace : FileTransaction → List Event → List Event
finish_trace t to = if awaits_verification t.state then journaled t verified ∷ to else to

finish_trace-start :
    (t : FileTransaction) (found : TransactionState) (to : List Event)
    → finish_trace (start found (in_state t found)) (start_trace found (in_state t found) to)
      ≡ settled_trace found (in_state t found) to
finish_trace-start t moving to = refl
finish_trace-start t moved_unverified to = refl
finish_trace-start t recovery_required to = refl
finish_trace-start t _ to = refl

finish-start :
    (t : FileTransaction) (found : TransactionState)
    → finish (start found (in_state t found)) ≡ in_state t (settled found)
finish-start t moving = refl
finish-start t moved_unverified = refl
finish-start t recovery_required = refl
finish-start t _ = refl

unpromoted :
    (t : FileTransaction) (found : TransactionState)
    → is_verified (start found (in_state t found)).state ≡ true
    → is_verified found ≡ true
unpromoted t moving h = cc
unpromoted t _ h = h

module _ {E H : Type 0} (ports : Ports E H) (laws : HasherLaws ports) where
  -- What is known when `reconcile` returns a verdict.
  abbrev pub Verdict :
      FileTransaction → List Event → Reconciliation → Holding FileTransaction (Sys E) → Type 0
  Verdict t from source_only s' =
      (s'.held ≡ in_state t reconciled_source_only)
      × (s'.rest.trace ≡ journaled t reconciled_source_only ∷ from)
  Verdict t from both s' =
      (s'.held ≡ in_state t reconciled_both) × (s'.rest.trace ≡ journaled t reconciled_both ∷ from)
  Verdict t from destination_verified s' =
      (s'.held ≡ in_state t (settled t.state))
      × ((to : List Event) × DestinationProof ports laws t from to
          × (s'.rest.trace ≡ settled_trace t.state t to))
  Verdict t from missing s' = ⊥

  -- A failure leaves the transaction where it was, or on its way; it is not newly `verified`.
  abbrev pub NotPromoted : FileTransaction → Holding FileTransaction (Sys E) → Type 0
  NotPromoted t s' = is_verified s'.held.state ≡ true → is_verified t.state ≡ true

  not_promoted :
      (t : FileTransaction) (s' : Holding FileTransaction (Sys E)) (next : TransactionState)
      → s'.held.state ≡ next
      → is_verified next ≡ false
      → NotPromoted t s'
  not_promoted t s' next e f h = cc (ap is_verified e)

  single_transition :
      (next : TransactionState) (v x : Option Note) (s : Holding FileTransaction (Sys E))
      → is_verified next ≡ false
      → Post
          (λ _ s'.
            (s'.held ≡ in_state s.held next)
            × (s'.rest.trace ≡ journaled s.held next ∷ s.rest.trace))
          (λ e s'. NotPromoted s.held s')
          (transition ports next v x s)
  single_transition next v x s short =
      Post-mono _ (transition-Post ports laws next v x s) (λ _ s' h. (h.1, h.2))
        (λ e s' h g. rw (h.0) at g)

  when-transition :
      (b : Bool) (next : TransactionState) (v x : Option Note) (s : Holding FileTransaction (Sys E))
      → Post
          (λ _ s'.
            (s'.held ≡ (if b then in_state s.held next else s.held))
            × (s'.rest.trace ≡ (if b then journaled s.held next ∷ s.rest.trace else s.rest.trace)))
          (λ e s'. s'.held ≡ s.held)
          (when b (transition ports next v x) s)
  when-transition true next v x s =
      Post-mono _ (transition-Post ports laws next v x s) (λ _ s' h. (h.1, h.2)) (λ e s' h. h.0)
  when-transition false next v x s = returns (refl, refl)

  settle-Post :
      (a b : Bool) (s : Holding FileTransaction (Sys E))
      → Post
          (λ r s'. Verdict s.held s.rest.trace r s')
          (λ e s'. NotPromoted s.held s')
          (settle ports a b s)
  unfolding settle
  settle-Post true false s =
      Post-then _ _ (single_transition reconciled_source_only _ _ s refl) (λ _ s' h. returns h)
        (λ e s' h. h)
  settle-Post true true s =
      Post-then _ _ (single_transition reconciled_both _ _ s refl) (λ _ s' h. returns h)
        (λ e s' h. h)
  settle-Post false false s =
      Post-then _ _ (transition-Post ports laws reconciled_missing _ _ s)
        (λ _ s' h. fails (not_promoted s.held s' reconciled_missing (rw (h.1) refl) refl))
        (λ e s' h g. rw (h.0) at g)
  settle-Post false true s =
      Post-then _ _
        (Post-lift (verify_destination ports s.held) s
          (verify_destination-Post ports laws s.held s.rest))
        (λ _ s₁ h₁.
          Post-then _ _ (when-transition (is_moving s.held.state) moved_unverified _ _ s₁)
            (λ _ s₂ h₂.
              Post-then _ _ (when-transition (awaits_verification s₂.held.state) verified _ _ s₂)
                (λ _ s₃ h₃. returns (
                  h₃.0
                      ∙ ap finish (h₂.0 ∙ ap (start s.held.state) h₁.0)
                      ∙ finish-start s.held s.held.state,
                  (
                    s₁.rest.trace,
                    h₁.1,
                    h₃.1
                        ∙ ap (λ u. finish_trace u s₂.rest.trace)
                            (h₂.0 ∙ ap (start s.held.state) h₁.0)
                        ∙ ap (finish_trace (start s.held.state s.held))
                            (h₂.1 ∙ ap (λ u. start_trace s.held.state u s₁.rest.trace) h₁.0)
                        ∙ finish_trace-start s.held s.held.state s₁.rest.trace,
                  ),
                ))
                (λ e s₃ h₃ g. unpromoted s.held s.held.state (rw (h₃, h₂.0, h₁.0) at g)))
            (λ e s₂ h₂ g. rw (h₂, h₁.0) at g))
        (λ e s₁ h₁ g. rw (h₁.0) at g)

-- Reconciliation never promotes a transaction on trust. If it returns `source_only` or `both`, it
-- has recorded exactly that transition. It returns `destination_verified` only over a proof of the
-- destination, behind which it has recorded, each from the state before it, `moved_unverified` and
-- `verified` for a transaction that was moving, `verified` for one that was moved or waiting for
-- recovery, and nothing for any other, which stays in its state in the memory and in the journal.
-- `missing` is never returned. If it fails, the transaction is `verified` only if it was before.
pub reconcile-Verdict :
    {E H : Type 0} (ports : Ports E H) (laws : HasherLaws ports)
    (s : Holding FileTransaction (Sys E))
    → Post
        (λ r s'. Verdict ports laws s.held s.rest.trace r s')
        (λ e s'. NotPromoted ports laws s.held s')
        (reconcile ports s)
unfolding reconcile exists
reconcile-Verdict ports laws s = settle-Post ports laws _ _ _
