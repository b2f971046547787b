-- ===== src/PermanentDelete/Execute/Deleting.antt =====
-- The second loop of `execute` in crates/dedupe-core/src/permanent_delete.rs.
use mathlib.Core.List.{Memᴰ}
use mathlib.Core.List.Memᴰ.{head, tail}
use safe_duplicate_finder.Base.{
  ◌≡◌, refl, sym, ap, ◌∙◌, Bool, true, false, not, List, [], ◌∷◌, ◌++◌, length, suc, Option, some,
  inl, inr, arith, All,
}
use safe_duplicate_finder.Model.{FileMetadataSnapshot}
use safe_duplicate_finder.DeletionModel.{
  PermanentDeleteBatch, PermanentDeleteItem, PermanentDeleteItemState, planned, deleting, deleted,
  failed, recovery_required,
}
use safe_duplicate_finder.Ports.{Ports, Sys, delete_called, delete_done, delete_exact, checkpoint}
use safe_duplicate_finder.Ports.Monad.{Holding, when}
use safe_duplicate_finder.Ports.Hoare.{
  Post, returns, fails, Post-then, Post-branch, Post-lift, Post-mono, Post-or_raise,
}
use safe_duplicate_finder.Ports.Calls.{delete_exact-Post, checkpoint-Post}
use safe_duplicate_finder.FullHash.Streaming.{HasherLaws}
use safe_duplicate_finder.PermanentDelete.{is_deleted}
use safe_duplicate_finder.PermanentDelete.Execute.{
  is_deleting, announce, delete_or_record, delete_item, delete_all,
}
use safe_duplicate_finder.PermanentDelete.Execute.Careful.{
  Quiet, still, heard, Quiet-trans, Quiet-Later, Later, now, later, Later-trans, EntryEnd,
  was_deleted, now_deleted, EntryEnd-later, EntryProof, EntryProof-later, Intended, IsCareful,
  Quiet-IsCareful, Checked, AllChecked, AllChecked-later,
}
use safe_duplicate_finder.PermanentDelete.Execute.Steps.{
  in_state, with_items, update_item-Post, transition_batch-Post,
}
use safe_duplicate_finder.PermanentDelete.Execute.Preflight.{
  append-snoc, length-snoc, entries_of, entries_cons,
}

state_deleting : (st : PermanentDeleteItemState) → is_deleting st ≡ true → st ≡ deleting
unfolding is_deleting
state_deleting deleting h = refl
state_deleting planned h = absurd (ground (arith, h))
state_deleting deleted h = absurd (ground (arith, h))
state_deleting failed h = absurd (ground (arith, h))

state_deleted : (st : PermanentDeleteItemState) → is_deleted st ≡ true → st ≡ deleted
unfolding is_deleted
state_deleted deleted h = refl
state_deleted planned h = absurd (ground (arith, h))
state_deleted deleting h = absurd (ground (arith, h))
state_deleted failed h = absurd (ground (arith, h))

some_inj :
    {a b : FileMetadataSnapshot} {o : Option FileMetadataSnapshot} → o ≡ some a → o ≡ some b → a ≡ b
some_inj p q = cc

module _ {E H : Type 0} (ports : Ports E H) (laws : HasherLaws ports) where
  module _ (loaded before : List PermanentDeleteItem) (item : PermanentDeleteItem)
      (after : List PermanentDeleteItem) where
    -- The item is marked, and its intent stands in the record.
    record Announced (s : Holding PermanentDeleteBatch (Sys E)) (intended : PermanentDeleteItem)
        (s' : Holding PermanentDeleteBatch (Sys E)) : Type 0 where
      pub intended_same : intended ≡ in_state item deleting
      pub held_same : s'.held ≡ with_items s.held (before ++ intended ∷ after)
      pub intent : Intended ports laws item s'.rest.trace
      pub quiet : Quiet s.rest.trace s'.rest.trace

    announce-Post :
        (b : Bool) (s : Holding PermanentDeleteBatch (Sys E))
        → is_deleting item.state ≡ b
        → s.held.items ≡ before ++ item ∷ after
        → Post
            (Announced s)
            (λ e s'. Quiet s.rest.trace s'.rest.trace)
            (announce ports (length before) item b s)
    unfolding announce
    announce-Post true s e same =
        let st = state_deleting item.state e in
        returns (record {
          intended_same = ap (in_state item) st;
          held_same = ap (with_items s.held) same;
          intent = inl st;
          quiet = still;
        })
    announce-Post false s e same =
        Post-mono _ (update_item-Post ports before item item after deleting _ s same)
          (λ changed s₁ h. record {
            intended_same = h.0;
            held_same = rw (h.0) (h.1);
            intent = rw (h.2) (inr (head refl));
            quiet = rw (h.2) (heard refl still);
          })
          (λ e s₁ h. rw h still)

    delete_or_record-Post :
        (intended : PermanentDeleteItem) (seen : FileMetadataSnapshot)
        (s : Holding PermanentDeleteBatch (Sys E))
        → s.held.items ≡ before ++ intended ∷ after
        → Memᴰ item loaded
        → EntryProof ports laws item.entry seen s.rest.trace
        → Intended ports laws item s.rest.trace
        → IsCareful ports laws loaded s.rest.trace
        → Post
            (λ _ s'.
              (s'.held ≡ s.held)
              × IsCareful ports laws loaded s'.rest.trace
              × Later s.rest.trace s'.rest.trace
              × Memᴰ (delete_done seen) s'.rest.trace)
            (λ e s'. IsCareful ports laws loaded s'.rest.trace)
            (delete_or_record ports (length before) intended seen s)
    unfolding delete_or_record
    delete_or_record-Post intended seen s same among proof intent careful =
        let called : IsCareful ports laws loaded (delete_called seen ∷ s.rest.trace) =
          ((item, among, proof, intent), careful) in
        Post-branch _ _ _ (
          Post-mono _ (Post-lift (delete_exact ports seen) s (delete_exact-Post ports s.rest seen))
            (λ _ s₁ h.
              returns (h.0, rw (h.1) called, rw (h.1) (later (later now)), rw (h.1) (head refl)))
            (λ e s₁ h.
              Post-then _ _
                (Post-then _ _
                  (update_item-Post ports before intended intended after failed _ s₁
                    (ap (λ b. b.items) h.0 ∙ same))
                  (λ changed s₂ h₂.
                    Post-mono _ (transition_batch-Post ports recovery_required _ s₂)
                      (λ _ s₃ h₃. rw (h₃.2, h₂.2, h.1) called)
                      (λ _ s₃ h₃. rw (h₃.1, h₂.2, h.1) called))
                  (λ _ s₂ h₂. rw (h₂, h.1) called))
                (λ _ s₂ c. fails c) (λ _ s₂ c. c)))

    delete_item-Post :
        (snap : Option FileMetadataSnapshot) (seen : FileMetadataSnapshot)
        (s : Holding PermanentDeleteBatch (Sys E))
        → s.held.items ≡ before ++ item ∷ after
        → snap ≡ some seen
        → Memᴰ item loaded
        → EntryProof ports laws item.entry seen s.rest.trace
        → IsCareful ports laws loaded s.rest.trace
        → Post
            (λ _ s'.
              (s'.held ≡ with_items s.held (before ++ in_state item deleted ∷ after))
              × IsCareful ports laws loaded s'.rest.trace
              × Later s.rest.trace s'.rest.trace
              × EntryEnd loaded item.entry s'.rest.trace)
            (λ e s'. IsCareful ports laws loaded s'.rest.trace)
            (delete_item ports (length before) item snap s)
    unfolding delete_item
    delete_item-Post snap seen s same kept among proof careful =
        Post-then _ _ (Post-lift (checkpoint ports) s (checkpoint-Post ports s.rest))
          (λ _ s₁ h₁.
            Post-then _ _
              (announce-Post (is_deleting item.state) s₁ refl (ap (λ b. b.items) h₁.0 ∙ same))
              (λ intended s₂ n.
                let quiet : Quiet s.rest.trace s₂.rest.trace =
                  Quiet-trans (rw (h₁.1) still) n.quiet in
                let careful₂ = Quiet-IsCareful ports laws loaded quiet careful in
                Post-or_raise _ snap _ s₂
                  (λ a e.
                    Post-then _ _
                      (delete_or_record-Post intended a s₂ (ap (λ b. b.items) n.held_same) among
                        (rw (some_inj e kept)
                          (EntryProof-later ports laws proof (Quiet-Later quiet)))
                        n.intent careful₂)
                      (λ _ s₃ h₃.
                        Post-then _ _
                          (update_item-Post ports before intended intended after deleted _ s₃
                            (ap (λ b. b.items) (h₃.0 ∙ n.held_same)))
                          (λ changed s₄ h₄. returns (
                            rw (h₄.1, h₃.0, n.held_same, n.intended_same, h₁.0) refl,
                            rw (h₄.2) (h₃.1),
                            rw (h₄.2) (later (Later-trans (Quiet-Later quiet) h₃.2)),
                            now_deleted a (rw (some_inj e kept) (proof.same_file))
                                (rw (h₄.2) (tail h₃.3)),
                          ))
                          (λ e s₄ h₄. rw h₄ (h₃.1)))
                      (λ e s₃ c. c))
                  (λ _. careful₂))
              (λ e s₂ q.
                Quiet-IsCareful ports laws loaded {t = s.rest.trace}
                  (Quiet-trans (rw (h₁.1) still) q) careful))
          (λ e s₁ h₁. rw (h₁.1) careful)

  module _ (loaded before : List PermanentDeleteItem) (item : PermanentDeleteItem)
      (after : List PermanentDeleteItem) where
    -- One turn of the loop: a deleted item is left, another is deleted or the run ends.
    turn-Post :
        (snap : Option FileMetadataSnapshot) (b : Bool) (s : Holding PermanentDeleteBatch (Sys E))
        → is_deleted item.state ≡ b
        → s.held.items ≡ before ++ item ∷ after
        → Checked ports laws loaded item snap s.rest.trace
        → IsCareful ports laws loaded s.rest.trace
        → Post
            (λ _ s'.
              (s'.held ≡ with_items s.held (before ++ in_state item deleted ∷ after))
              × IsCareful ports laws loaded s'.rest.trace
              × Later s.rest.trace s'.rest.trace
              × EntryEnd loaded item.entry s'.rest.trace)
            (λ e s'. IsCareful ports laws loaded s'.rest.trace)
            (when (not b) (delete_item ports (length before) item snap) s)
    unfolding is_deleted
    turn-Post snap true s gone same checked careful = returns (
      ap (with_items s.held)
          (same ∙ ap (λ st. before ++ in_state item st ∷ after) (state_deleted item.state gone)),
      careful,
      now,
      end_of checked,
    )
      where
        end_of :
            Checked ports laws loaded item snap s.rest.trace
            → EntryEnd loaded item.entry s.rest.trace
        end_of (inl (_, ended)) = ended
        end_of (inr (seen, kept, proof, among)) =
            was_deleted item among refl (state_deleted item.state gone)
    turn-Post snap false s left same (inl (gone, _)) careful =
        absurd (ground (arith, sym (ap is_deleted gone) ∙ left))
    turn-Post snap false s left same (inr (seen, kept, proof, among)) careful =
        delete_item-Post loaded before item after snap seen s same kept among proof careful

  abbrev pub AllDeleted : List PermanentDeleteItem → Type 0
  AllDeleted items = All (λ item. item.state ≡ deleted) items

  -- The items from a place on, after the loop.
  pub record DeleteDone (loaded before items : List PermanentDeleteItem)
      (s s' : Holding PermanentDeleteBatch (Sys E)) : Type 0 where
    pub items' : List PermanentDeleteItem
    pub held_same : s'.held ≡ with_items s.held (before ++ items')
    pub entries_same : entries_of items' ≡ entries_of items
    pub all_deleted : AllDeleted items'
    pub careful : IsCareful ports laws loaded s'.rest.trace
    pub on : Later s.rest.trace s'.rest.trace
    pub all_ended : All (λ item. EntryEnd loaded item.entry s'.rest.trace) items'

  pub delete_all-Post :
      (loaded before items : List PermanentDeleteItem) (snaps : List (Option FileMetadataSnapshot))
      (s : Holding PermanentDeleteBatch (Sys E))
      → s.held.items ≡ before ++ items
      → AllChecked ports laws loaded items snaps s.rest.trace
      → IsCareful ports laws loaded s.rest.trace
      → Post
          (λ _ s'. DeleteDone loaded before items s s')
          (λ e s'. IsCareful ports laws loaded s'.rest.trace)
          (delete_all ports (length before) snaps items s)
  unfolding delete_all
  delete_all-Post loaded before [] [] s same checked careful = returns (record {
    items' = [];
    held_same = ap (with_items s.held) same;
    entries_same = refl;
    all_deleted = tt;
    careful = careful;
    on = now;
    all_ended = tt;
  })
  delete_all-Post loaded before [] (_ ∷ _) s same checked careful = absurd checked
  delete_all-Post loaded before (_ ∷ _) [] s same checked careful = absurd checked
  delete_all-Post loaded before (item ∷ items) (snap ∷ snaps) s same (here, checked) careful =
      Post-then _ _
        (turn-Post loaded before item items snap (is_deleted item.state) s refl same here careful)
        (λ _ s₁ h₁.
          let gone = in_state item deleted in
          let before' = before ++ (gone ∷ []) in
          let again : Post (λ _ s'. DeleteDone loaded before' items s₁ s')
              (λ e s'. IsCareful ports laws loaded s'.rest.trace)
              (delete_all ports (suc (length before)) snaps items s₁) =
            rw (sym (length-snoc before gone)) (
              delete_all-Post loaded before' items snaps s₁
                (ap (λ b. b.items) h₁.0 ∙ append-snoc before gone items)
                (AllChecked-later ports laws loaded items snaps h₁.2 checked) (h₁.1)) in
          Post-mono _ again
            (λ _ s₂ r. record {
              items' = gone ∷ r.items';
              held_same =
                  r.held_same
                  ∙ ap (λ b. with_items b (before' ++ r.items')) h₁.0
                  ∙ ap (with_items s.held) (sym (append-snoc before gone r.items'));
              entries_same = entries_cons refl r.entries_same;
              all_deleted = (refl, r.all_deleted);
              careful = r.careful;
              on = Later-trans h₁.2 r.on;
              all_ended = (EntryEnd-later r.on h₁.3, r.all_ended);
            })
            (λ _ _ c. c))
        (λ _ _ c. c)
