-- ===== src/PermanentDelete/Execute/Authorised.antt =====
-- `execute` as a whole, in crates/dedupe-core/src/permanent_delete.rs.
use mathlib.Core.List.{Memᴰ}
use mathlib.Core.List.Memᴰ.{head, tail}
use safe_duplicate_finder.Base.{
  ◌≡◌, refl, sym, ap, ◌∙◌, Bool, true, false, List, [], ◌∷◌, length, length-map, ℕ, ◌+◌, ◌<◌,
  Option, some, none, arith, All, All-mono, Text, checked_add,
}
use safe_duplicate_finder.Error.{ok}
use safe_duplicate_finder.Model.{Uuid}
use safe_duplicate_finder.DeletionModel.{
  DeletionEntry, PermanentDeleteBatch, PermanentDeleteItem, PermanentDeleteOutcome, executing,
  completed, deleted,
}
use safe_duplicate_finder.Ports.{Ports, Sys, Event, batch_journaled}
use safe_duplicate_finder.Ports.Monad.{Holding, when}
use safe_duplicate_finder.Ports.Hoare.{Post, returns, Post-then, Post-mono}
use safe_duplicate_finder.FullHash.Streaming.{HasherLaws}
use safe_duplicate_finder.PermanentDelete.{is_deleted, count_deleted, outcome, transition_batch}
use safe_duplicate_finder.PermanentDelete.Prepare.{
  u64_length, sum_sizes, is_consistent, validate_loaded_batch,
}
use safe_duplicate_finder.PermanentDelete.Execute.{may_start, run_batch}
use safe_duplicate_finder.PermanentDelete.Execute.Careful.{
  now, later, EntryEnd, EntryEnd-later, Quiet, still, heard, IsCareful, Quiet-IsCareful,
}
use safe_duplicate_finder.PermanentDelete.Execute.Steps.{transition_batch-Post}
use safe_duplicate_finder.PermanentDelete.Execute.Preflight.{entries_of, preflight-Post}
use safe_duplicate_finder.PermanentDelete.Execute.Deleting.{delete_all-Post}

sum_entries : List DeletionEntry → ℕ → Option ℕ
sum_entries [] total = some total
sum_entries (entry ∷ entries) total = elim (checked_add total entry.size_bytes) [
  | none ↦ none
  | some sum ↦ sum_entries entries sum
]

sum_sizes-entries_of :
    (items : List PermanentDeleteItem) (n : ℕ)
    → sum_sizes items n ≡ sum_entries (entries_of items) n
unfolding sum_sizes sum_entries
sum_sizes-entries_of [] n = refl
sum_sizes-entries_of (item ∷ items) n =
    ground (arith, sum_sizes-entries_of items (n + item.entry.size_bytes))

abbrev counted : ℕ → ℕ → PermanentDeleteOutcome
counted entries bytes = record { deleted_entries = entries; deleted_bytes = bytes }

-- Nothing is lost by saturation where the checked sum exists.
pub count_deleted-All :
    (items : List PermanentDeleteItem) (a b t : ℕ)
    → All (λ item. item.state ≡ deleted) items
    → a + length items < 18446744073709551616
    → sum_sizes items b ≡ some t
    → count_deleted items a b ≡ counted (a + length items) t
unfolding count_deleted is_deleted sum_sizes
count_deleted-All [] a b t gone small sum = ground arith
count_deleted-All (item ∷ items) a b t (g, gone) small sum =
    ground (arith, g, count_deleted-All items (a + 1) (b + item.entry.size_bytes) t gone)

pub validated :
    {E H : Type 0} (ports : Ports E H) (uuid_bytes : Uuid → Text) (batch : PermanentDeleteBatch)
    → validate_loaded_batch ports uuid_bytes batch ≡ ok tt
    → (length batch.items ≡ batch.entry_count)
      × (length batch.items < 18446744073709551616)
      × (sum_sizes batch.items 0 ≡ some batch.total_bytes)
unfolding validate_loaded_batch is_consistent
validated ports uuid_bytes batch h =
    from_parts (u64_length batch.items) (sum_sizes batch.items 0) refl refl h
  where
    from_parts :
        (n m : Option ℕ)
        → u64_length batch.items ≡ n
        → sum_sizes batch.items 0 ≡ m
        → validate_loaded_batch ports uuid_bytes batch ≡ ok tt
        → (length batch.items ≡ batch.entry_count)
          × (length batch.items < 18446744073709551616)
          × (sum_sizes batch.items 0 ≡ some batch.total_bytes)
    from_parts (some n) (some m) p q h = let h' = (rw (p, q) at h) in ground (arith, h', p, q)
    from_parts none m p q h = let h' = (rw p at h) in ground (arith, h')
    from_parts (some n) none p q h = let h' = (rw (p, q) at h) in ground (arith, h')

pub sum_entries_same :
    (items items' : List PermanentDeleteItem) (t : ℕ)
    → entries_of items' ≡ entries_of items
    → sum_sizes items 0 ≡ some t
    → sum_sizes items' 0 ≡ some t
sum_entries_same items items' t e h =
    sum_sizes-entries_of items' 0
    ∙ ap (λ es. sum_entries es 0) e
    ∙ sym (sum_sizes-entries_of items 0)
    ∙ h

pub length_same :
    (items items' : List PermanentDeleteItem)
    → entries_of items' ≡ entries_of items
    → length items' ≡ length items
length_same items items' e =
    sym (length-map (λ item. item.entry) items')
    ∙ ap (λ es. length es) e
    ∙ length-map (λ item. item.entry) items

every_member : {A : Type 0} (xs : List A) → All (λ x. Memᴰ x xs) xs
every_member [] = tt
every_member (x ∷ xs) = (head refl, All-mono _ _ (λ _ m. tail m) xs (every_member xs))

module _ {E H : Type 0} (ports : Ports E H) (laws : HasherLaws ports) where
  -- The last entry of a whole run: the batch is completed, and each of its items is deleted, in one
  -- of the three ways.
  pub record Finished (batch : PermanentDeleteBatch) (o : PermanentDeleteOutcome) (t : List Event)
      : Type 0 where
    pub done : PermanentDeleteBatch
    pub older : List Event
    pub recorded : t ≡ batch_journaled done completed ∷ older
    pub all_deleted : All (λ item. item.state ≡ deleted) done.items
    pub all_ended : All (λ item. EntryEnd batch.items item.entry t) done.items
    pub entries_same : entries_of done.items ≡ entries_of batch.items
    pub counted_items : o ≡ outcome done

  begin-Post :
      (b : Bool) (s : Holding PermanentDeleteBatch (Sys E))
      → Post
          (λ _ s'. (s'.held.items ≡ s.held.items) × Quiet s.rest.trace s'.rest.trace)
          (λ e s'. Quiet s.rest.trace s'.rest.trace)
          (when b (transition_batch ports executing none) s)
  begin-Post true s =
      Post-mono _ (transition_batch-Post ports executing none s)
        (λ _ s₁ h. (ap (λ b. b.items) h.1, rw (h.2) (heard refl still))) (λ e s₁ h. rw (h.1) still)
  begin-Post false s = returns (refl, still)

  pub run_batch-Post :
      (s : Holding PermanentDeleteBatch (Sys E))
      → s.rest.trace ≡ []
      → Post
          (λ o s'.
            IsCareful ports laws s.held.items s'.rest.trace × Finished s.held o s'.rest.trace)
          (λ e s'. IsCareful ports laws s.held.items s'.rest.trace)
          (run_batch ports s)
  unfolding run_batch outcome
  run_batch-Post s fresh =
      let loaded = s.held.items in
      let begun : IsCareful ports laws loaded s.rest.trace = rw fresh tt in
      Post-then _ _ (begin-Post (may_start s.held.state) s)
        (λ _ s₁ h₁.
          let careful₁ = Quiet-IsCareful ports laws loaded h₁.1 begun in
          Post-then _ _ (preflight-Post ports laws loaded [] loaded s₁ (every_member loaded) h₁.0)
            (λ snaps s₂ p.
              let careful₂ = Quiet-IsCareful ports laws loaded p.quiet careful₁ in
              let items_same = ap (λ b. b.items) p.held_same in
              Post-then _ _
                (delete_all-Post ports laws loaded [] s₂.held.items snaps s₂ refl
                  (rw items_same (p.checked)) careful₂)
                (λ _ s₃ d.
                  Post-then _ _ (transition_batch-Post ports completed none s₃)
                    (λ _ s₄ h₄. returns (
                      rw (h₄.2) (d.careful),
                      record {
                        done = s₃.held;
                        older = s₃.rest.trace;
                        recorded = h₄.2;
                        all_deleted = rw (d.held_same) (d.all_deleted);
                        all_ended = rw (d.held_same) (
                            All-mono _ _ (λ _ e. rw (h₄.2) (EntryEnd-later (later now) e)) d.items'
                              d.all_ended);
                        entries_same =
                            ap (λ b. entries_of b.items) d.held_same
                            ∙ d.entries_same
                            ∙ ap entries_of items_same
                            ∙ p.entries_same;
                        counted_items = ap outcome h₄.1;
                      },
                    ))
                    (λ e s₄ h₄. rw (h₄.1) (d.careful)))
                (λ e s₃ c. c))
            (λ e s₂ q. Quiet-IsCareful ports laws loaded q careful₁))
        (λ e s₁ q. Quiet-IsCareful ports laws loaded q begun)
