-- ===== src/PermanentDelete/Promised.antt =====
-- What an authorisation promises that crates/dedupe-core/src/permanent_delete.rs prepared.
use mathlib.Core.List.{Memᴰ}
use mathlib.Core.List.Memᴰ.{head, tail}
use safe_duplicate_finder.Base.{
  ◌≡◌, ◌≢◌, refl, ap, true, false, not, List, [], ◌∷◌, map, any, length, length-map, ℕ, Option,
  some, none, arith, All, ℤ, ltb_ℤ, ◌==◌, text_eq_refl, checked_add, Text,
}
use safe_duplicate_finder.Error.{Result, ok, err}
use safe_duplicate_finder.Model.{Uuid}
use safe_duplicate_finder.DeletionModel.{
  DeletionEntry, PermanentDeleteMode, PermanentDeleteBatch, PermanentDeleteChallenge, prepared,
}
use safe_duplicate_finder.Ports.{Ports, Sys, batch_created, new_uuid}
use safe_duplicate_finder.Ports.Hoare.{
  Post, returns, Post-then, Post-guard, Post-or_raise, Post-result,
}
use safe_duplicate_finder.Ports.Calls.{create_batch-Post}
use safe_duplicate_finder.PermanentDelete.{
  sort_by_id, confirmation_phrase, digest_token, digest_selection,
}
use safe_duplicate_finder.PermanentDelete.Prepare.{
  is_retention, check_entry, check_entries, u64_length, planned_item, sum_sizes, new_batch,
  prepare_with_ttl_and_mode, is_consistent, validate_loaded_batch,
}

-- What every entry of a prepared batch satisfies.
pub record IsEligible (mode : PermanentDeleteMode) (now : ℤ) (project_id : Uuid)
    (entry : DeletionEntry) : Type 0 where
  pub same_project : entry.project_id ≡ project_id
  pub retained : is_retention mode ≡ true → ltb_ℤ now entry.retain_until ≡ false
  pub whole_blake3 : length entry.blake3 ≡ 32
  pub whole_sha256 : length entry.sha256 ≡ 32

-- No two entries have the same id.
abbrev pub AreDistinct : List DeletionEntry → Type 0
AreDistinct [] = Unit
AreDistinct (e ∷ es) = All (λ f. f.id ≢ e.id) es × AreDistinct es

-- No entry has an id of the set, nor one of an entry before it.
abbrev AreNew : List Uuid → List DeletionEntry → Type 0
AreNew seen [] = Unit
AreNew seen (e ∷ es) = (any (λ id. id == e.id) seen ≡ false) × AreNew (e.id ∷ seen) es

not_in : (x y : Uuid) (seen : List Uuid) → Memᴰ x seen → any (λ id. id == y) seen ≡ false → y ≢ x
not_in x y [] m h = elim m [ ]
not_in x y (z ∷ seen) (head e) h = ground (arith, e, h)
not_in x y (z ∷ seen) (tail m) h = not_in x y seen m (ground (arith, h))

AreNew-apart :
    (x : Uuid) (seen : List Uuid) (es : List DeletionEntry)
    → Memᴰ x seen
    → AreNew seen es
    → All (λ f. f.id ≢ x) es
AreNew-apart x seen [] m h = tt
AreNew-apart x seen (e ∷ es) m (h, hs) =
    (not_in x e.id seen m h, AreNew-apart x (e.id ∷ seen) es (tail m) hs)

AreNew-AreDistinct : (seen : List Uuid) (es : List DeletionEntry) → AreNew seen es → AreDistinct es
AreNew-AreDistinct seen [] h = tt
AreNew-AreDistinct seen (e ∷ es) (h, hs) =
    (AreNew-apart e.id (e.id ∷ seen) es (head refl) hs, AreNew-AreDistinct (e.id ∷ seen) es hs)

check_entry-IsEligible :
    (mode : PermanentDeleteMode) (now : ℤ) (p : Uuid) (seen : List Uuid) (e : DeletionEntry)
    → check_entry mode now p seen e ≡ ok tt
    → (any (λ id. id == e.id) seen ≡ false) × IsEligible mode now p e
unfolding check_entry
check_entry-IsEligible mode now p seen e h = (
  ground (arith, h),
  record {
    same_project = ground (arith, h);
    retained = λ r. ground (arith, h, r);
    whole_blake3 = ground (arith, h);
    whole_sha256 = ground (arith, h);
  },
)

-- What the loop over the entries makes sure of.
pub record AreChecked (mode : PermanentDeleteMode) (now : ℤ) (p : Uuid) (seen : List Uuid)
    (es : List DeletionEntry) (total t : ℕ) : Type 0 where
  pub eligible : All (IsEligible mode now p) es
  pub new : AreNew seen es
  pub summed : sum_sizes (map planned_item es) total ≡ some t

check_entries-AreChecked :
    (mode : PermanentDeleteMode) (now : ℤ) (p : Uuid) (seen : List Uuid) (es : List DeletionEntry)
    (total t : ℕ)
    → check_entries mode now p seen es total ≡ ok t
    → AreChecked mode now p seen es total t
unfolding check_entries sum_sizes
check_entries-AreChecked mode now p seen [] total t h = record {
  eligible = tt;
  new = tt;
  summed = ground (arith, h);
}
check_entries-AreChecked mode now p seen (e ∷ es) total t h =
    from_parts (check_entry mode now p seen e) (checked_add total e.size_bytes) refl refl h
      (λ sum. check_entries-AreChecked mode now p (e.id ∷ seen) es sum t)
  where
    from_parts :
        (r : Result (Unit {0})) (o : Option ℕ)
        → check_entry mode now p seen e ≡ r
        → checked_add total e.size_bytes ≡ o
        → check_entries mode now p seen (e ∷ es) total ≡ ok t
        → ((sum : ℕ)
            → check_entries mode now p (e.id ∷ seen) es sum ≡ ok t
            → AreChecked mode now p (e.id ∷ seen) es sum t)
        → AreChecked mode now p seen (e ∷ es) total t
    from_parts (err x) o a b h again = let h' = (rw a at h) in absurd (ground (arith, h'))
    from_parts (ok u) none a b h again = let h' = (rw (a, b) at h) in absurd (ground (arith, h'))
    from_parts (ok u) (some sum) a b h again =
        let rest = again sum (rw (a, b) at h) in
        let here = check_entry-IsEligible mode now p seen e a in
        record {
          eligible = (here.1, rest.eligible);
          new = (here.0, rest.new);
          summed = ground (arith, b, rest.summed);
        }

entries_of-planned : (es : List DeletionEntry) → map (λ item. item.entry) (map planned_item es) ≡ es
entries_of-planned [] = refl
entries_of-planned (e ∷ es) = ap (◌∷◌ e) (entries_of-planned es)

one_project :
    (mode : PermanentDeleteMode) (now : ℤ) (p : Uuid) (es : List DeletionEntry)
    → All (IsEligible mode now p) es
    → any (λ item. not (item.entry.project_id == p)) (map planned_item es) ≡ false
one_project mode now p [] h = refl
one_project mode now p (e ∷ es) (h, hs) =
    ground (arith, h.same_project, one_project mode now p es hs)

module _ {E H : Type 0} (ports : Ports E H) (uuid_bytes uuid_text : Uuid → Text)
    (checked_add_signed : ℤ → ℤ → Option ℤ) where
  new_batch-valid :
      (es : List DeletionEntry) (p : Uuid) (mode : PermanentDeleteMode) (raw_token : Text)
      (entry_count total : ℕ) (now expires_at : ℤ) (id : Uuid)
      → AreChecked mode now p [] es 0 total
      → u64_length es ≡ some entry_count
      → validate_loaded_batch ports uuid_bytes (
          new_batch ports uuid_bytes uuid_text checked_add_signed es p mode raw_token entry_count
            total now expires_at id)
        ≡ ok tt
  unfolding validate_loaded_batch is_consistent
  new_batch-valid es p mode raw_token entry_count total now expires_at id c counted =
      rw
        (
          c.summed,
          length-map planned_item es,
          counted,
          entries_of-planned es,
          one_project mode now p es c.eligible,
          text_eq_refl (digest_selection ports uuid_bytes es),
          text_eq_refl (confirmation_phrase entry_count total mode),
        )
        (ground arith)

  -- The stored batch, and the challenge that is handed out for it.
  pub record IsPromised (mode : PermanentDeleteMode) (now ttl : ℤ) (selected : List DeletionEntry)
      (c : PermanentDeleteChallenge) (batch : PermanentDeleteBatch) : Type 0 where
    pub entries_sorted : map (λ item. item.entry) batch.items ≡ sort_by_id selected
    pub all_planned : batch.items ≡ map planned_item (sort_by_id selected)
    pub is_prepared : batch.state ≡ prepared
    pub eligible : All (IsEligible mode now batch.project_id) (sort_by_id selected)
    pub distinct : AreDistinct (sort_by_id selected)
    pub accepted : validate_loaded_batch ports uuid_bytes batch ≡ ok tt
    pub token_accepted : digest_token ports c.token ≡ batch.token_digest
    pub same_phrase : c.confirmation_phrase ≡ batch.confirmation_phrase
    pub same_totals : (c.entry_count ≡ batch.entry_count) × (c.total_bytes ≡ batch.total_bytes)
    pub deadline : checked_add_signed now ttl ≡ some batch.expires_at

  -- A preparation that returns has stored one batch, and nothing else is done: its entries are the
  -- selected ones in the order of their ids, with no id twice, all of one project, with digests of
  -- 32 bytes, and past their retention unless the mode is immediate; all are planned, and the
  -- deadline is the time to live from now. The check of a loaded batch accepts it, with the token
  -- and the phrase of the challenge. A preparation that fails has stored nothing.
  pub prepare_with_ttl_and_mode-IsPromised :
      (selected : List DeletionEntry) (now ttl : ℤ) (mode : PermanentDeleteMode) (s : Sys E)
      → Post
          (λ c s'.
            (batch : PermanentDeleteBatch) × IsPromised mode now ttl selected c batch
            × (s'.trace ≡ batch_created batch ∷ s.trace))
          (λ e s'. s'.trace ≡ s.trace)
          (prepare_with_ttl_and_mode ports uuid_bytes uuid_text checked_add_signed selected now ttl
            mode s)
  unfolding prepare_with_ttl_and_mode new_uuid
  prepare_with_ttl_and_mode-IsPromised selected now ttl mode s =
      Post-guard _ _ _ s
        (λ _.
          Post-guard _ _ _ s
            (λ _.
              Post-or_raise _ _ _ s
                (λ first h.
                  Post-result _ _ s
                    (λ total k.
                      Post-or_raise _ _ _ s
                        (λ entry_count n.
                          Post-or_raise _ _ _ _
                            (λ expires_at d.
                              let checked =
                                check_entries-AreChecked mode now first.project_id [] _ 0 total k in
                              Post-then _ _ (create_batch-Post ports _ _)
                                (λ _ s₁ t. returns (
                                  _,
                                  record {
                                    entries_sorted = entries_of-planned (sort_by_id selected);
                                    all_planned = refl;
                                    is_prepared = refl;
                                    eligible = checked.eligible;
                                    distinct = AreNew-AreDistinct [] _ checked.new;
                                    accepted =
                                        new_batch-valid _ _ mode _ entry_count total now expires_at
                                          _ checked n;
                                    token_accepted = refl;
                                    same_phrase = refl;
                                    same_totals = (refl, refl);
                                    deadline = d;
                                  },
                                  t,
                                ))
                                (λ e s₁ t. t))
                            (λ _. refl))
                        (λ _. refl))
                    (λ e k. refl))
                (λ _. refl))
            (λ _. refl))
        (λ _. refl)
