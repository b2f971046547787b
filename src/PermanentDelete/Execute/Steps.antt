-- ===== src/PermanentDelete/Execute/Steps.antt =====
-- What each step of `execute` in crates/dedupe-core/src/permanent_delete.rs does to the batch in
-- memory and to the trace.
use safe_duplicate_finder.Base.{
  ◌≡◌, refl, ap, Bool, true, false, not, List, [], ◌∷◌, ◌++◌, length, Option, arith,
}
use safe_duplicate_finder.Error.{DedupeError}
use safe_duplicate_finder.Model.{FileMetadataSnapshot, blake3_full, sha256_full}
use safe_duplicate_finder.DeletionModel.{
  DeletionEntry, PermanentDeleteBatch, PermanentDeleteItem, PermanentDeleteItemState,
  PermanentDeleteBatchState, item_can_transition_to, batch_can_transition_to, recovery_required,
}
use safe_duplicate_finder.Ports.{
  Ports, Sys, Note, Event, snapped, item_journaled, batch_journaled, journal_batch,
}
use safe_duplicate_finder.Ports.Monad.{Holding}
use safe_duplicate_finder.Ports.Hoare.{
  Post, returns, fails, Post-then, Post-guard, Post-lift, Post-check,
}
use safe_duplicate_finder.Ports.Calls.{journal_item-Post, journal_batch-Post}
use safe_duplicate_finder.FullHash.{blake3_file, sha256_file}
use safe_duplicate_finder.FullHash.Streaming.{
  HasherLaws, hash_stream-digest, Observed, unseen, saw_snapshot, saw_file, saw_sample,
  Hashed-Observed,
}
use safe_duplicate_finder.PermanentDelete.{transition_batch, transition_item}
use safe_duplicate_finder.PermanentDelete.Execute.{
  verify_entry, fail_preflight, set_item, update_item,
}
use safe_duplicate_finder.PermanentDelete.Execute.Careful.{
  Quiet, still, heard, Quiet-trans, now, EntryProof,
}

pub Observed-Quiet : {t u : List Event} → Observed t u → Quiet t u
Observed-Quiet unseen = still
Observed-Quiet (saw_snapshot o) = heard refl (Observed-Quiet o)
Observed-Quiet (saw_file o) = heard refl (Observed-Quiet o)
Observed-Quiet (saw_sample o) = heard refl (Observed-Quiet o)

pub not-false : (b : Bool) → not b ≡ false → b ≡ true
not-false b h = ground (arith, h)

abbrev pub in_state : PermanentDeleteItem → PermanentDeleteItemState → PermanentDeleteItem
in_state item next = record item { state = next }

abbrev pub with_items : PermanentDeleteBatch → List PermanentDeleteItem → PermanentDeleteBatch
with_items batch items = record batch { items = items }

pub set_item-append :
    (before : List PermanentDeleteItem) (x y : PermanentDeleteItem)
    (after : List PermanentDeleteItem)
    → set_item (length before) x (before ++ y ∷ after) ≡ before ++ x ∷ after
unfolding set_item
set_item-append [] x y after = refl
set_item-append (b ∷ before) x y after = ap (◌∷◌ b) (set_item-append before x y after)

set_item_at :
    (before : List PermanentDeleteItem) (old item : PermanentDeleteItem)
    (after : List PermanentDeleteItem) {changed : PermanentDeleteItem}
    {items : List PermanentDeleteItem}
    → items ≡ before ++ old ∷ after
    → changed ≡ item
    → set_item (length before) changed items ≡ before ++ item ∷ after
set_item_at before old item after e c = rw (e, c) (set_item-append before item old after)

module _ {E H : Type 0} (ports : Ports E H) where
  -- A batch's transition is recorded and then made, if it is allowed, or changes nothing.
  pub transition_batch-Post :
      (next : PermanentDeleteBatchState) (error : Option Note)
      (s : Holding PermanentDeleteBatch (Sys E))
      → Post
          (λ _ s'.
            (batch_can_transition_to s.held.state next ≡ true)
            × (s'.held ≡ record s.held { state = next })
            × (s'.rest.trace ≡ batch_journaled s.held next ∷ s.rest.trace))
          (λ e s'. (s'.held ≡ s.held) × (s'.rest.trace ≡ s.rest.trace))
          (transition_batch ports next error s)
  unfolding transition_batch
  transition_batch-Post next error s =
      Post-guard _ _ _ s
        (λ allowed.
          Post-then _ _
            (Post-lift (journal_batch ports s.held next error) s
              (journal_batch-Post ports s.rest s.held next error))
            (λ _ s₁ h. returns (not-false _ allowed, refl, h.1)) (λ e s₁ h. h))
        (λ _. (refl, refl))

  transition_item-Post :
      (batch : PermanentDeleteBatch) (item : PermanentDeleteItem) (next : PermanentDeleteItemState)
      (error : Option Note) (s : Sys E)
      → Post
          (λ changed s'.
            (changed ≡ in_state item next)
            × (item_can_transition_to item.state next ≡ true)
            × (s'.trace ≡ item_journaled item next ∷ s.trace))
          (λ e s'. s'.trace ≡ s.trace)
          (transition_item ports batch item next error s)
  unfolding transition_item
  transition_item-Post batch item next error s =
      Post-guard _ _ _ s
        (λ allowed.
          Post-then _ _ (journal_item-Post ports s batch item next error)
            (λ _ s₁ h. returns (refl, not-false _ allowed, h)) (λ e s₁ h. h))
        (λ _. refl)

  pub update_item-Post :
      (before : List PermanentDeleteItem) (old item : PermanentDeleteItem)
      (after : List PermanentDeleteItem) (next : PermanentDeleteItemState) (error : Option Note)
      (s : Holding PermanentDeleteBatch (Sys E))
      → s.held.items ≡ before ++ old ∷ after
      → Post
          (λ changed s'.
            (changed ≡ in_state item next)
            × (s'.held ≡ with_items s.held (before ++ in_state item next ∷ after))
            × (s'.rest.trace ≡ item_journaled item next ∷ s.rest.trace))
          (λ e s'. s'.rest.trace ≡ s.rest.trace)
          (update_item ports (length before) item next error s)
  unfolding update_item
  update_item-Post before old item after next error s same =
      Post-then _ _
        (Post-lift (transition_item ports s.held item next error) s
          (transition_item-Post s.held item next error s.rest))
        (λ changed s₁ h. returns (
          h.1.0,
          ap (with_items s.held) (set_item_at before old (in_state item next) after same h.1.0),
          h.1.2,
        ))
        (λ e s₁ h. h.1)

  pub fail_preflight-Post :
      {A : Type 0} (error : DedupeError) (s : Holding PermanentDeleteBatch (Sys E))
      → Post
          (λ (_ : A) s'. ⊥)
          (λ e s'. Quiet s.rest.trace s'.rest.trace)
          (fail_preflight ports error s)
  unfolding fail_preflight
  fail_preflight-Post error s =
      Post-then _ _ (transition_batch-Post recovery_required _ s)
        (λ _ s₁ h. fails (rw (h.2) (heard refl still))) (λ e s₁ h. rw (h.1) still)

module _ {E H : Type 0} (ports : Ports E H) (laws : HasherLaws ports) where
  -- The verification only looks at files, and returns only with the whole proof.
  pub verify_entry-Post :
      (entry : DeletionEntry) (seen : FileMetadataSnapshot) (older : List Event) (s : Sys E)
      → s.trace ≡ snapped entry.quarantine_path seen ∷ older
      → Post
          (λ _ s'. EntryProof ports laws entry seen s'.trace × Quiet s.trace s'.trace)
          (λ e s'. Quiet s.trace s'.trace)
          (verify_entry ports entry seen s)
  unfolding verify_entry blake3_file sha256_file
  verify_entry-Post entry seen older s looked =
      Post-guard _ _ _ s
        (λ same.
          Post-then _ _ (hash_stream-digest ports laws entry.quarantine_path blake3_full s)
            (λ b s₁ h₁.
              Post-then _ _ (hash_stream-digest ports laws entry.quarantine_path sha256_full s₁)
                (λ r s₂ h₂.
                  let quiet : Quiet s.trace s₂.trace =
                    Quiet-trans (Observed-Quiet (Hashed-Observed ports laws h₁))
                      (Observed-Quiet (Hashed-Observed ports laws h₂)) in
                  Post-check _ _ s₂
                    (λ good. (
                      record {
                        blake3_result = b;
                        sha256_result = r;
                        older = older;
                        from = s.trace;
                        looked = looked;
                        middle = s₁.trace;
                        to = s₂.trace;
                        same_file = not-false _ same;
                        blake3_pass = h₁;
                        sha256_pass = h₂;
                        same_content = not-false _ good;
                        before_then = now;
                      },
                      quiet,
                    ))
                    (λ _. quiet))
                (λ e s₂ o.
                  Quiet-trans (Observed-Quiet (Hashed-Observed ports laws h₁)) (Observed-Quiet o)))
            (λ e s₁ o. Observed-Quiet o))
        (λ _. still)
