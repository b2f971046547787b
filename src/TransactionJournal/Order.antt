-- ===== src/TransactionJournal/Order.antt =====
-- The order in which crates/dedupe-core/src/transaction_journal.rs records and acts, read off the
-- trace of a run, and what a single transition does to it.
use safe_duplicate_finder.Base.{
  ◌≡◌, refl, sym, ◌∙◌, ap, true, false, List, [], ◌∷◌, Option, some, arith,
}
use safe_duplicate_finder.Model.{
  FileTransaction, TransactionState, HashResult, FileMetadataSnapshot, planned, preflight_validated,
  moving, moved_unverified, can_transition_to, is_verified, blake3_full, sha256_full,
}
use safe_duplicate_finder.Ports.{
  Ports, Sys, Note, Event, snapped, opened, sampled, created, journaled, move_called, not_seen,
  delete_called, delete_done, batch_created, batch_journaled, item_journaled, journal_transition,
}
use safe_duplicate_finder.Ports.Monad.{Holding}
use safe_duplicate_finder.Ports.Hoare.{Post, returns, Post-then, Post-guard, Post-lift, Post-mono}
use safe_duplicate_finder.Ports.Calls.{journal_transition-Post}
use safe_duplicate_finder.FullHash.Streaming.{
  HasherLaws, Hashed, Observed, unseen, saw_snapshot, saw_file, saw_sample,
}
use safe_duplicate_finder.TransactionJournal.{same_evidence, transition}

-- The state that the durable record shows: that of the newest entry.
abbrev pub recorded_state : List Event → TransactionState
recorded_state [] = planned
recorded_state (created t ∷ older) = t.state
recorded_state (journaled t next ∷ older) = next
recorded_state (snapped path s ∷ older) = recorded_state older
recorded_state (opened path reads ∷ older) = recorded_state older
recorded_state (sampled path offset bytes ∷ older) = recorded_state older
recorded_state (move_called a b s ∷ older) = recorded_state older
recorded_state (not_seen p e ∷ older) = recorded_state older
recorded_state (delete_called s ∷ older) = recorded_state older
recorded_state (delete_done s ∷ older) = recorded_state older
recorded_state (batch_created b ∷ older) = recorded_state older
recorded_state (batch_journaled b next ∷ older) = recorded_state older
recorded_state (item_journaled i next ∷ older) = recorded_state older

abbrev pub in_state : FileTransaction → TransactionState → FileTransaction
in_state t next = record t { state = next }

-- All that may stand before a move: the record was created, the source was seen with the planned
-- evidence, and the two transitions that announce the move were recorded.
abbrev pub announced : FileTransaction → FileMetadataSnapshot → List Event
announced t source =
    journaled (in_state t preflight_validated) moving
    ∷ journaled t preflight_validated
    ∷ snapped t.source source
    ∷ created t
    ∷ []

module _ {E H : Type 0} (ports : Ports E H) (laws : HasherLaws ports) where
  -- Between two points of a run the destination was found with the transaction's identity, size,
  -- and contents of both digests, stable while it was read.
  pub record DestinationProof (t : FileTransaction) (from to : List Event) : Type 0 where
    pub destination : FileMetadataSnapshot
    pub blake3_result : HashResult
    pub sha256_result : HashResult
    pub middle : List Event
    pub same_identity : destination.identity ≡ some t.identity
    pub same_size : destination.size_bytes ≡ t.size_bytes
    pub blake3_pass :
        Hashed ports laws blake3_full t.destination
          (snapped t.destination destination ∷ from)
          blake3_result
          middle
    pub blake3_same : blake3_result.digest ≡ t.blake3
    pub blake3_stable : blake3_result.stable ≡ true
    pub sha256_pass : Hashed ports laws sha256_full t.destination middle sha256_result to
    pub sha256_same : sha256_result.digest ≡ t.sha256
    pub sha256_stable : sha256_result.stable ≡ true

  -- Every entry of the trace is justified by the entries before it: a transition starts at the
  -- recorded state and is allowed, `verified` follows a proof of the destination, and a move
  -- follows exactly what announces it.
  abbrev pub Justified : FileTransaction → List Event → Type 0
  Justified t [] = Unit
  Justified t (created u ∷ older) = (u ≡ t) × (older ≡ [])
  Justified t (journaled u next ∷ older) =
      (recorded_state older ≡ u.state)
      × (can_transition_to u.state next ≡ true)
      × (is_verified next ≡ true
          → (from : List Event) × (recorded_state from ≡ moved_unverified)
            × DestinationProof t from older)
      × Justified t older
  Justified t (move_called a b source ∷ older) =
      (a ≡ t.source)
      × (b ≡ t.destination)
      × (same_evidence t source ≡ true)
      × (older ≡ announced t source)
      × Justified t older
  Justified t (snapped path s ∷ older) = Justified t older
  Justified t (opened path reads ∷ older) = Justified t older
  Justified t (sampled path offset bytes ∷ older) = Justified t older
  Justified t (_ ∷ older) = ⊥

  -- The run so far is justified, and the copy in memory shows what is recorded.
  pub record IsSafe (t : FileTransaction) (s : Holding FileTransaction (Sys E)) : Type 0 where
    pub justified : Justified t s.rest.trace
    pub recorded : recorded_state s.rest.trace ≡ s.held.state

  -- A run that ended safely, and short of `verified`.
  pub record IsStopped (t : FileTransaction) (s : Holding FileTransaction (Sys E)) : Type 0 where
    pub safe : IsSafe t s
    pub unverified : is_verified s.held.state ≡ false

  -- A transition is recorded and then made, or changes neither the record nor the copy in memory.
  pub transition-Post :
      (next : TransactionState) (verification error : Option Note)
      (s : Holding FileTransaction (Sys E))
      → Post
          (λ _ s'.
            (can_transition_to s.held.state next ≡ true)
            × (s'.held ≡ in_state s.held next)
            × (s'.rest.trace ≡ journaled s.held next ∷ s.rest.trace))
          (λ e s'. (s'.held ≡ s.held) × (s'.rest.trace ≡ s.rest.trace))
          (transition ports next verification error s)
  unfolding transition
  transition-Post next v x s =
      Post-guard _ _ _ s
        (λ allowed.
          Post-then _ _
            (Post-lift (journal_transition ports s.held next v x) s
              (journal_transition-Post ports s.rest s.held next v x))
            (λ _ s' h. returns (ground arith, refl, h.1)) (λ e s' h. h))
        (λ _. (refl, refl))

  -- Looking at files changes nothing that is recorded, and needs no justification.
  pub Observed-recorded_state :
      {t u : List Event} → Observed t u → recorded_state u ≡ recorded_state t
  Observed-recorded_state unseen = refl
  Observed-recorded_state (saw_snapshot o) = Observed-recorded_state o
  Observed-recorded_state (saw_file o) = Observed-recorded_state o
  Observed-recorded_state (saw_sample o) = Observed-recorded_state o

  pub Observed-Justified :
      (t : FileTransaction) {from to : List Event}
      → Observed from to
      → Justified t from
      → Justified t to
  Observed-Justified t unseen h = h
  Observed-Justified t (saw_snapshot o) h = Observed-Justified t o h
  Observed-Justified t (saw_file o) h = Observed-Justified t o h
  Observed-Justified t (saw_sample o) h = Observed-Justified t o h

  pub IsStopped-with_same :
      {t : FileTransaction} {s s' : Holding FileTransaction (Sys E)}
      → s'.held ≡ s.held
      → Observed s.rest.trace s'.rest.trace
      → IsStopped t s
      → IsStopped t s'
  IsStopped-with_same {t} {s} {s'} same seen h = record {
    safe = record {
      justified = Observed-Justified t seen h.safe.justified;
      recorded = Observed-recorded_state seen ∙ h.safe.recorded ∙ ap (λ u. u.state) (sym same);
    };
    unverified = rw same h.unverified;
  }

  -- A transition to any state but `verified` keeps a run stopped and safe, made or not.
  pub transition-IsStopped :
      {t : FileTransaction} (next : TransactionState) (verification error : Option Note)
      (s : Holding FileTransaction (Sys E))
      → is_verified next ≡ false
      → IsStopped t s
      → Post
          (λ _ s'. IsStopped t s')
          (λ _ s'. IsStopped t s')
          (transition ports next verification error s)
  transition-IsStopped {t} next v x s short h =
      Post-mono _ (transition-Post next v x s)
        (λ _ s' g. record {
          safe = record {
            justified = rw (g.2) (h.safe.recorded, g.0, λ e. cc, h.safe.justified);
            recorded = rw (g.2, g.1) refl;
          };
          unverified = rw (g.1) short;
        })
        (λ e s' g. IsStopped-with_same g.0 (rw (g.1) unseen) h)
