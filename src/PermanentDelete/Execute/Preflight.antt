-- ===== src/PermanentDelete/Execute/Preflight.antt =====
-- The first loop of `execute` in crates/dedupe-core/src/permanent_delete.rs.
use mathlib.Core.List.{Memᴰ, append_assoc}
use mathlib.Core.List.Memᴰ.{head, tail}
use safe_duplicate_finder.Base.{
  ◌≡◌, refl, sym, ap, ◌∙◌, Bool, true, false, List, [], ◌∷◌, ◌++◌, map, length, length-append, suc,
  Option, inl, inr, arith, All,
}
use safe_duplicate_finder.Error.{DedupeError}
use safe_duplicate_finder.Model.{FileMetadataSnapshot}
use safe_duplicate_finder.DeletionModel.{
  DeletionEntry, PermanentDeleteBatch, PermanentDeleteItem, PermanentDeleteItemState, planned,
  deleting, deleted, failed,
}
use safe_duplicate_finder.Ports.{Ports, Sys, Event, snapped, not_seen, snapshot_or_not, checkpoint}
use safe_duplicate_finder.Ports.Monad.{Action, Holding, branch, lift}
use safe_duplicate_finder.Ports.Hoare.{Post, returns, Post-then, Post-branch, Post-lift, Post-mono}
use safe_duplicate_finder.Ports.Calls.{snapshot_or_not-Post, checkpoint-Post}
use safe_duplicate_finder.FullHash.Streaming.{HasherLaws}
use safe_duplicate_finder.PermanentDelete.{is_missing}
use safe_duplicate_finder.PermanentDelete.Execute.{
  verify_entry, preflight_present, reconcile_missing, preflight_item, preflight, fail_preflight,
}
use safe_duplicate_finder.PermanentDelete.Execute.Careful.{
  Quiet, still, heard, Quiet-trans, WasBegun, was_deleted, was_missing, Quiet-Later, Checked,
  Checked-later, AllChecked,
}
use safe_duplicate_finder.PermanentDelete.Execute.Steps.{
  in_state, with_items, update_item-Post, fail_preflight-Post, verify_entry-Post,
}

pub append-snoc :
    {A : Type 0} (before : List A) (x : A) (after : List A)
    → before ++ x ∷ after ≡ (before ++ (x ∷ [])) ++ after
append-snoc before x after = sym (append_assoc before (x ∷ []) after)

pub length-snoc :
    {A : Type 0} (before : List A) (x : A) → length (before ++ (x ∷ [])) ≡ suc (length before)
length-snoc before x = omega (arith, length-append before (x ∷ []))

abbrev pub entries_of : List PermanentDeleteItem → List DeletionEntry
entries_of items = map (λ item. item.entry) items

pub entries_cons :
    {a b : DeletionEntry} {es fs : List DeletionEntry} → a ≡ b → es ≡ fs → a ∷ es ≡ b ∷ fs
entries_cons p q i = p i ∷ q i

module _ {E H : Type 0} (ports : Ports E H) (laws : HasherLaws ports) where
  -- The item at a place of the batch, after its turn.
  record ItemDone (loaded before : List PermanentDeleteItem) (item : PermanentDeleteItem)
      (after : List PermanentDeleteItem) (s : Holding PermanentDeleteBatch (Sys E))
      (snap : Option FileMetadataSnapshot) (s' : Holding PermanentDeleteBatch (Sys E))
      : Type 0 where
    pub item' : PermanentDeleteItem
    pub held_same : s'.held ≡ with_items s.held (before ++ item' ∷ after)
    pub entry_same : item'.entry ≡ item.entry
    pub checked : Checked ports laws loaded item' snap s'.rest.trace
    pub quiet : Quiet s.rest.trace s'.rest.trace

  module _ (loaded before : List PermanentDeleteItem) (item : PermanentDeleteItem)
      (after : List PermanentDeleteItem) (among : Memᴰ item loaded) where
    preflight_present-Post :
        (seen : FileMetadataSnapshot) (older : List Event)
        (s : Holding PermanentDeleteBatch (Sys E))
        → s.rest.trace ≡ snapped item.entry.quarantine_path seen ∷ older
        → s.held.items ≡ before ++ item ∷ after
        → Post
            (ItemDone loaded before item after s)
            (λ e s'. Quiet s.rest.trace s'.rest.trace)
            (preflight_present ports item.entry seen s)
    unfolding preflight_present
    preflight_present-Post seen older s looked same = Post-branch _ _ _ (
        Post-mono _
          (Post-lift (verify_entry ports item.entry seen) s
            (verify_entry-Post ports laws item.entry seen older s.rest looked))
          (λ _ s₁ h. returns (record {
            item' = item;
            held_same = h.0 ∙ ap (with_items s.held) same;
            entry_same = refl;
            checked = inr (seen, refl, h.1.0, among);
            quiet = h.1.1;
          }))
          (λ e s₁ h.
            Post-mono _ (fail_preflight-Post ports e s₁) (λ _ _ b. absurd b)
              (λ _ _ q. Quiet-trans h.1 q)))

    reconcile_missing-Post :
        (b : Bool) (error : DedupeError) (s : Holding PermanentDeleteBatch (Sys E))
        → is_missing error ≡ b
        → WasBegun item.state
        → Memᴰ (not_seen item.entry.quarantine_path error) s.rest.trace
        → s.held.items ≡ before ++ item ∷ after
        → Post
            (ItemDone loaded before item after s)
            (λ e s'. Quiet s.rest.trace s'.rest.trace)
            (reconcile_missing ports (length before) item b error s)
    unfolding reconcile_missing
    reconcile_missing-Post true error s gone begun missed same =
        Post-then _ _ (update_item-Post ports before item item after deleted _ s same)
          (λ _ s₁ h. returns (record {
            item' = in_state item deleted;
            held_same = h.1;
            entry_same = refl;
            checked =
                inl (refl, was_missing item error among refl begun gone (rw (h.2) (tail missed)));
            quiet = rw (h.2) (heard refl still);
          }))
          (λ e s₁ h. rw h still)
    reconcile_missing-Post false error s gone begun missed same =
        Post-mono _ (fail_preflight-Post ports error s) (λ _ _ b. absurd b) (λ _ _ q. q)

    ItemDone-after :
        {s s₁ s' : Holding PermanentDeleteBatch (Sys E)} {snap : Option FileMetadataSnapshot}
        → s₁.held ≡ s.held
        → Quiet s.rest.trace s₁.rest.trace
        → ItemDone loaded before item after s₁ snap s'
        → ItemDone loaded before item after s snap s'
    ItemDone-after same quiet d = record {
      item' = d.item';
      held_same = d.held_same ∙ ap (λ b. with_items b (before ++ d.item' ∷ after)) same;
      entry_same = d.entry_same;
      checked = d.checked;
      quiet = Quiet-trans quiet d.quiet;
    }

    -- An item is looked at; what is done on an error keeps the batch as the loop needs it.
    preflight_looked :
        (on_err : DedupeError
          → Action (Holding PermanentDeleteBatch (Sys E)) (Option FileMetadataSnapshot))
        → ((e : DedupeError) (s : Holding PermanentDeleteBatch (Sys E))
            → Memᴰ (not_seen item.entry.quarantine_path e) s.rest.trace
            → s.held.items ≡ before ++ item ∷ after
            → Post
                (ItemDone loaded before item after s)
                (λ e s'. Quiet s.rest.trace s'.rest.trace)
                (on_err e s))
        → (s : Holding PermanentDeleteBatch (Sys E)) → s.held.items ≡ before ++ item ∷ after
        → Post
            (ItemDone loaded before item after s)
            (λ e s'. Quiet s.rest.trace s'.rest.trace)
            (branch
              (lift (snapshot_or_not ports item.entry.quarantine_path))
              (preflight_present ports item.entry)
              on_err
              s)
    preflight_looked on_err h_err s same = Post-branch _ _ _ (
        Post-mono _
          (Post-lift (snapshot_or_not ports item.entry.quarantine_path) s
            (snapshot_or_not-Post ports s.rest item.entry.quarantine_path))
          (λ seen s₁ h.
            let quiet : Quiet s.rest.trace s₁.rest.trace = rw (h.1) (heard refl still) in
            Post-mono _
              (preflight_present-Post seen s.rest.trace s₁ (h.1) (ap (λ b. b.items) h.0 ∙ same))
              (λ _ _ d. ItemDone-after h.0 quiet d) (λ _ _ q. Quiet-trans quiet q))
          (λ e s₁ h.
            Post-mono _ (h_err e s₁ (rw (h.1) (head refl)) (ap (λ b. b.items) h.0 ∙ same))
              (λ _ _ d. ItemDone-after h.0 (rw (h.1) (heard refl still)) d)
              (λ _ _ q. Quiet-trans (rw (h.1) (heard refl still)) q)))

    preflight_item-Post :
        (state : PermanentDeleteItemState) (s : Holding PermanentDeleteBatch (Sys E))
        → item.state ≡ state
        → s.held.items ≡ before ++ item ∷ after
        → Post
            (ItemDone loaded before item after s)
            (λ e s'. Quiet s.rest.trace s'.rest.trace)
            (preflight_item ports (length before) item state s)
    unfolding preflight_item
    preflight_item-Post deleted s gone same = returns (record {
      item' = item;
      held_same = ap (with_items s.held) same;
      entry_same = refl;
      checked = inl (gone, was_deleted item among refl gone);
      quiet = still;
    })
    preflight_item-Post planned s gone same =
        preflight_looked (fail_preflight ports)
          (λ e s₁ _ _.
            Post-mono _ (fail_preflight-Post ports e s₁) (λ _ _ b. absurd b) (λ _ _ q. q))
          s same
    preflight_item-Post deleting s gone same =
        preflight_looked (λ e. reconcile_missing ports (length before) item (is_missing e) e)
          (λ e s₁ missed. reconcile_missing-Post (is_missing e) e s₁ refl (rw gone tt) missed) s
          same
    preflight_item-Post failed s gone same =
        preflight_looked (λ e. reconcile_missing ports (length before) item (is_missing e) e)
          (λ e s₁ missed. reconcile_missing-Post (is_missing e) e s₁ refl (rw gone tt) missed) s
          same

  -- The items from a place on, after the loop, with the snapshots that were kept.
  pub record PreflightDone (loaded before items : List PermanentDeleteItem)
      (s : Holding PermanentDeleteBatch (Sys E)) (snaps : List (Option FileMetadataSnapshot))
      (s' : Holding PermanentDeleteBatch (Sys E)) : Type 0 where
    pub items' : List PermanentDeleteItem
    pub held_same : s'.held ≡ with_items s.held (before ++ items')
    pub entries_same : entries_of items' ≡ entries_of items
    pub checked : AllChecked ports laws loaded items' snaps s'.rest.trace
    pub quiet : Quiet s.rest.trace s'.rest.trace

  pub preflight-Post :
      (loaded before items : List PermanentDeleteItem) (s : Holding PermanentDeleteBatch (Sys E))
      → All (λ item. Memᴰ item loaded) items
      → s.held.items ≡ before ++ items
      → Post
          (PreflightDone loaded before items s)
          (λ e s'. Quiet s.rest.trace s'.rest.trace)
          (preflight ports (length before) items s)
  unfolding preflight
  preflight-Post loaded before [] s among same = returns (record {
    items' = [];
    held_same = ap (with_items s.held) same;
    entries_same = refl;
    checked = tt;
    quiet = still;
  })
  preflight-Post loaded before (item ∷ items) s (here, among) same =
      Post-then _ _ (Post-lift (checkpoint ports) s (checkpoint-Post ports s.rest))
        (λ _ s₁ h₁.
          Post-then _ _
            (preflight_item-Post loaded before item items here item.state s₁ refl
              (ap (λ b. b.items) h₁.0 ∙ same))
            (λ snap s₂ d.
              let quiet : Quiet s.rest.trace s₂.rest.trace =
                Quiet-trans (rw (h₁.1) still) d.quiet in
              let before' = before ++ (d.item' ∷ []) in
              let again : Post (PreflightDone loaded before' items s₂)
                  (λ e s'. Quiet s₂.rest.trace s'.rest.trace)
                  (preflight ports (suc (length before)) items s₂) =
                rw (sym (length-snoc before d.item')) (
                  preflight-Post loaded before' items s₂ among
                    (ap (λ b. b.items) d.held_same ∙ append-snoc before d.item' items)) in
              Post-then _ _ again
                (λ snaps s₃ r. returns (record {
                  items' = d.item' ∷ r.items';
                  held_same =
                      r.held_same
                      ∙ ap (λ b. with_items b (before' ++ r.items'))
                          (d.held_same ∙ ap (λ b. with_items b (before ++ d.item' ∷ items)) h₁.0)
                      ∙ ap (with_items s.held) (sym (append-snoc before d.item' r.items'));
                  entries_same = entries_cons d.entry_same r.entries_same;
                  checked = (
                    Checked-later ports laws loaded d.item' snap (Quiet-Later r.quiet) d.checked,
                    r.checked,
                  );
                  quiet = Quiet-trans quiet r.quiet;
                }))
                (λ e s₃ q. Quiet-trans quiet q))
            (λ e s₂ q. Quiet-trans (rw (h₁.1) still) q))
        (λ e s₁ h₁. rw (h₁.1) still)
