-- ===== src/Restore/RoundTrip.antt =====
-- Quarantine and back: crates/dedupe-core/src/quarantine.rs and restore.rs.
use safe_duplicate_finder.Base.{◌≡◌, refl, ◌∙◌, false, []}
use mathlib.Core.Bool.{false≢true}
use safe_duplicate_finder.Model.{
  FileTransaction, quarantine_kind, restore_kind, planned, verified, is_verified,
}
use safe_duplicate_finder.FullHash.Streaming.{HasherLaws}
use safe_duplicate_finder.TransactionJournal.Order.{in_state, IsSafe, IsStopped}
use safe_duplicate_finder.TransactionJournal.Execute.{execute_verified_move-IsSafe}
use safe_duplicate_finder.Quarantine
use safe_duplicate_finder.Restore.{planned_transaction}
use safe_duplicate_finder.Ports.{Ports, Sys, new_uuid, now}
use safe_duplicate_finder.Ports.Monad.{Action, Holding, ◌>>=◌, ◌>>◌, get_held, lift}
use safe_duplicate_finder.Ports.Hoare.{Post, Post-guard, Post-mono, Post-then, Post-lift}

-- The way back of a transaction.
pub record IsWayBack (q r : FileTransaction) : Type 0 where
  pub from_destination : r.source ≡ q.destination
  pub to_source : r.destination ≡ q.source
  pub is_restore : r.kind ≡ restore_kind
  pub is_new : r.state ≡ planned
  pub same_identity : r.identity ≡ q.identity
  pub same_size : r.size_bytes ≡ q.size_bytes
  pub same_blake3 : r.blake3 ≡ q.blake3
  pub same_sha256 : r.sha256 ≡ q.sha256
  pub same_token : r.snapshot_token ≡ q.snapshot_token

module _ {E H : Type 0} (ports : Ports E H) where
  plan-Post :
      (q : FileTransaction) (s : Sys E)
      → q.kind ≡ quarantine_kind
      → q.state ≡ verified
      → Post (λ r s'. IsWayBack q r) (λ e s'. ⊥) (planned_transaction ports q s)
  unfolding planned_transaction new_uuid now
  plan-Post q s kind done =
      Post-guard _ _ _ s
        (λ h. record {
          ends = record {
            from_destination = refl;
            to_source = refl;
            is_restore = refl;
            is_new = refl;
            same_identity = refl;
            same_size = refl;
            same_blake3 = refl;
            same_sha256 = refl;
            same_token = refl;
          };
        })
        (λ h. false≢true (rw (kind, done) at h))

  execute-Post :
      (laws : HasherLaws ports) (s : Holding FileTransaction (Sys E))
      → s.held.kind ≡ quarantine_kind
      → s.held.state ≡ planned
      → s.rest.trace ≡ []
      → Post
          (λ _ s'. (s'.held ≡ in_state s.held verified) × IsSafe ports laws s.held s')
          (λ e s'. IsStopped ports laws s.held s')
          (Quarantine.execute ports s)
  unfolding Quarantine.execute
  execute-Post laws s kind new fresh =
      Post-guard _ _ _ s (λ _. execute_verified_move-IsSafe ports laws s new fresh)
        (λ h. absurd (false≢true (rw kind at h)))

  IsWayBack-of : (q r : FileTransaction) → IsWayBack (in_state q verified) r → IsWayBack q r
  IsWayBack-of q r h = record {
    from_destination = h.from_destination;
    to_source = h.to_source;
    is_restore = h.is_restore;
    is_new = h.is_new;
    same_identity = h.same_identity;
    same_size = h.same_size;
    same_blake3 = h.same_blake3;
    same_sha256 = h.same_sha256;
    same_token = h.same_token;
  }

  -- Quarantine a file, and plan the restore of what the transaction then is.
  pub quarantine_then_plan : Action (Holding FileTransaction (Sys E)) FileTransaction
  quarantine_then_plan = do
    Quarantine.execute ports
    q ← get_held
    lift (planned_transaction ports q)

  -- A planned quarantine that is executed can be taken back: if the whole returns, the quarantine
  -- is `verified` and the new transaction is planned, exchanges the two paths and keeps the
  -- evidence. If it fails, it is the quarantine that failed, short of `verified`.
  pub quarantine_then_plan-IsWayBack :
      (laws : HasherLaws ports) (s : Holding FileTransaction (Sys E))
      → s.held.kind ≡ quarantine_kind
      → s.held.state ≡ planned
      → s.rest.trace ≡ []
      → Post
          (λ r s'. (s'.held ≡ in_state s.held verified) × IsWayBack s.held r)
          (λ e s'. is_verified s'.held.state ≡ false)
          (quarantine_then_plan s)
  unfolding quarantine_then_plan
  quarantine_then_plan-IsWayBack laws s kind new fresh =
      Post-then _ _ (execute-Post laws s kind new fresh)
        (λ _ s₁ h₁.
          Post-mono _
            (Post-lift (planned_transaction ports s₁.held) s₁
              (plan-Post s₁.held s₁.rest (rw (h₁.0) kind) (rw (h₁.0) refl)))
            (λ r s₂ h₂. (h₂.0 ∙ h₁.0, IsWayBack-of s.held r (rw (h₁.0) at (h₂.1))))
            (λ e s₂ h₂. absurd (h₂.1)))
        (λ e s₁ h₁. h₁.unverified)
