-- ===== src/PermanentDelete/Execute/Guarded.antt =====
-- The gates of `execute` in crates/dedupe-core/src/permanent_delete.rs, and the call as a whole.
use safe_duplicate_finder.Base.{
  ◌≡◌, refl, ap, ◌∙◌, ◌⊎◌, inl, inr, Bool, true, false, ◌&&◌, List, [], none, arith, Text, text_eq,
  ℤ, ltb_ℤ,
}
use safe_duplicate_finder.Error.{ok, safety, token_expired}
use safe_duplicate_finder.Model.{Uuid}
use safe_duplicate_finder.DeletionModel.{PermanentDeleteBatch, PermanentDeleteOutcome, expired}
use safe_duplicate_finder.Ports.{Ports, Sys, Event}
use safe_duplicate_finder.Ports.Monad.{Holding, when, raise, ◌>>◌}
use safe_duplicate_finder.Ports.Hoare.{
  Post, returns, fails, Post-then, Post-mono, Post-guard, Post-with_held, Post-result,
}
use safe_duplicate_finder.Ports.Calls.{load_batch-Post}
use safe_duplicate_finder.FullHash.Streaming.{HasherLaws}
use safe_duplicate_finder.PermanentDelete.{
  digest_token, constant_time_equal, outcome, transition_batch,
}
use safe_duplicate_finder.PermanentDelete.Prepare.{validate_loaded_batch}
use safe_duplicate_finder.PermanentDelete.Execute.{
  is_completed, is_expired, is_prepared, start, by_state, execute,
}
use safe_duplicate_finder.PermanentDelete.Execute.Careful.{
  Quiet, Quiet-trans, still, heard, IsCareful,
}
use safe_duplicate_finder.PermanentDelete.Execute.Steps.{transition_batch-Post, not-false}
use safe_duplicate_finder.PermanentDelete.Execute.Authorised.{
  Finished, run_batch-Post, validated, count_deleted-All, sum_entries_same, length_same,
}

abbrev pub authorised_totals : PermanentDeleteBatch → PermanentDeleteOutcome
authorised_totals batch = record {
  deleted_entries = batch.entry_count;
  deleted_bytes = batch.total_bytes;
}

module _ {E H : Type 0} (ports : Ports E H) (laws : HasherLaws ports) where
  -- The end of the gate on the deadline: a prepared batch that is late is not run.
  late-Post :
      (b : Bool) (s : Holding PermanentDeleteBatch (Sys E))
      → Post
          (λ _ s'. (b ≡ false) × (s' ≡ s))
          (λ e s'. Quiet s.rest.trace s'.rest.trace)
          (when b (transition_batch ports expired none >> raise (safety token_expired)) s)
  late-Post true s =
      Post-then _ _ (transition_batch-Post ports expired none s)
        (λ _ s₁ h. fails (rw (h.2) (heard refl still))) (λ e s₁ h. rw (h.1) still)
  late-Post false s = returns (refl, refl)

  -- What a loaded batch allows: its evidence is consistent, and the token and the phrase are its own.
  pub record IsAuthorised (uuid_bytes : Uuid → Text) (batch_id : Uuid) (token confirmation : Text)
      (s : Sys E) (batch : PermanentDeleteBatch) : Type 0 where
    pub loaded : (ports.load_deletion batch_id s.env).0 ≡ ok batch
    pub valid : validate_loaded_batch ports uuid_bytes batch ≡ ok tt
    pub token_same : constant_time_equal (digest_token ports token) batch.token_digest ≡ true
    pub phrase_same : text_eq confirmation batch.confirmation_phrase ≡ true

  -- A batch that is run is neither completed nor expired, and not prepared and late.
  abbrev pub MayRun : ℤ → PermanentDeleteBatch → Type 0
  MayRun now batch =
      (is_completed batch.state ≡ false)
      × (is_expired batch.state ≡ false)
      × (is_prepared batch.state && ltb_ℤ batch.expires_at now ≡ false)

  abbrev pub RunOk : ℤ → PermanentDeleteBatch → PermanentDeleteOutcome → List Event → Type 0
  RunOk now batch o t =
      ((is_completed batch.state ≡ true) × (t ≡ []) × (o ≡ outcome batch))
      ⊎ (MayRun now batch × IsCareful ports laws batch.items t × Finished ports laws batch o t)

  abbrev pub RunFailed : ℤ → PermanentDeleteBatch → List Event → Type 0
  RunFailed now batch t = Quiet [] t ⊎ (MayRun now batch × IsCareful ports laws batch.items t)

  by_state-Post :
      (now : ℤ) (b : Bool) (s : Holding PermanentDeleteBatch (Sys E))
      → is_completed s.held.state ≡ b
      → s.rest.trace ≡ []
      → Post
          (λ o s'. RunOk now s.held o s'.rest.trace)
          (λ e s'. RunFailed now s.held s'.rest.trace)
          (by_state ports now b s.held s)
  unfolding by_state start
  by_state-Post now true s e fresh = returns (inl (e, fresh, refl))
  by_state-Post now false s e fresh =
      let quiet : Quiet [] s.rest.trace = rw fresh still in
      Post-guard _ _ _ s
        (λ live.
          Post-then _ _ (late-Post (is_prepared s.held.state && ltb_ℤ s.held.expires_at now) s)
            (λ _ s₁ h.
              let may : MayRun now s.held = (e, live, h.0) in
              Post-mono _ (run_batch-Post ports laws s₁ (rw (h.1) fresh))
                (λ o s₂ r. inr (may, rw (← h.1) (r.0), rw (← h.1) (r.1)))
                (λ x s₂ r. inr (may, rw (← h.1) r)))
            (λ x s₁ q. inl (Quiet-trans quiet q)))
        (λ _. inl quiet)

  Finished-totals :
      (uuid_bytes : Uuid → Text) (batch : PermanentDeleteBatch) (o : PermanentDeleteOutcome)
      (t : List Event)
      → validate_loaded_batch ports uuid_bytes batch ≡ ok tt
      → Finished ports laws batch o t
      → o ≡ authorised_totals batch
  unfolding outcome
  Finished-totals uuid_bytes batch o t good f =
      let v = validated ports uuid_bytes batch good in
      let count_same = length_same batch.items f.done.items f.entries_same in
      f.counted_items
      ∙ count_deleted-All f.done.items 0 0 batch.total_bytes f.all_deleted
          (omega (arith, count_same, v.1))
          (sum_entries_same batch.items f.done.items batch.total_bytes f.entries_same v.2)
      ∙ ap (λ n. record { deleted_entries = n; deleted_bytes = batch.total_bytes })
          (omega (arith, count_same, v.0))

  totals :
      (uuid_bytes : Uuid → Text) (now : ℤ) {t : List Event} (batch : PermanentDeleteBatch)
      (o : PermanentDeleteOutcome)
      → validate_loaded_batch ports uuid_bytes batch ≡ ok tt
      → RunOk now batch o t
      → (is_completed batch.state ≡ true) ⊎ (o ≡ authorised_totals batch)
  totals uuid_bytes now batch o good (inl r) = inl r.0
  totals uuid_bytes now batch o good (inr r) = inr (Finished-totals uuid_bytes batch o _ good r.2)

  after_failure :
      {uuid_bytes : Uuid → Text} {batch_id : Uuid} {token confirmation : Text} (now : ℤ) {s : Sys E}
      {batch : PermanentDeleteBatch} {t : List Event}
      → IsAuthorised uuid_bytes batch_id token confirmation s batch
      → RunFailed now batch t
      → Quiet [] t
        ⊎ ((b : PermanentDeleteBatch) × IsAuthorised uuid_bytes batch_id token confirmation s b
            × MayRun now b
            × IsCareful ports laws b.items t)
  after_failure now a (inl q) = inl q
  after_failure now {batch = batch} a (inr r) = inr (batch, a, r.0, r.1)

  -- A run that starts with an empty trace, and fails, has called no deletion, or the batch that the
  -- journal holds was consistent, the token and the phrase were its own and it was neither
  -- completed, expired nor late; then each call that deletes is for an item of the batch, whose
  -- intent to delete was recorded before, and for a snapshot taken in this run that shows the
  -- authorised path, identity and size, directly behind which the file was read with both authorised
  -- digests. If it returns, all of that holds, or the batch was completed before and nothing is
  -- done. A run that did the work ends with the record of a completed batch with the same entries,
  -- all in the state `deleted`, and returns the authorised totals; and for each entry, an item with
  -- it was loaded as deleted, or its deletion was begun before this run and the look for its file
  -- failed in this run with an error that means that it is missing, or the call that deletes a
  -- snapshot that matches the entry has succeeded in this run.
  pub execute-IsCareful :
      (uuid_bytes : Uuid → Text) (batch_id : Uuid) (token confirmation : Text) (now : ℤ) (s : Sys E)
      → s.trace ≡ []
      → Post
          (λ o s'.
            (batch : PermanentDeleteBatch) × IsAuthorised uuid_bytes batch_id token confirmation s
              batch
            × RunOk now batch o s'.trace
            × ((is_completed batch.state ≡ true) ⊎ (o ≡ authorised_totals batch)))
          (λ e s'.
            Quiet [] s'.trace
            ⊎ ((batch : PermanentDeleteBatch) × IsAuthorised uuid_bytes batch_id token confirmation
                  s batch
                × MayRun now batch
                × IsCareful ports laws batch.items s'.trace))
          (execute ports uuid_bytes batch_id token confirmation now s)
  unfolding execute
  execute-IsCareful uuid_bytes batch_id token confirmation now s fresh =
      Post-then _ _ (load_batch-Post ports s batch_id)
        (λ batch s₁ h₁.
          let idle : Quiet [] s₁.trace = rw (h₁.1, fresh) still in
          Post-result _ (validate_loaded_batch ports uuid_bytes batch) s₁
            (λ _ good.
              Post-guard _ _ _ s₁
                (λ key.
                  Post-guard _ _ _ s₁
                    (λ words.
                      let authorised : IsAuthorised uuid_bytes batch_id token confirmation s batch =
                        record {
                          loaded = h₁.0;
                          valid = good;
                          token_same = not-false _ key;
                          phrase_same = not-false _ words;
                        } in
                      Post-with_held batch (by_state ports now (is_completed batch.state) batch) s₁
                        (Post-mono _
                          (by_state-Post now (is_completed batch.state)
                            (record { held = batch; rest = s₁ }) refl (h₁.1 ∙ fresh))
                          (λ o s₂ r. (batch, authorised, r, totals uuid_bytes now batch o good r))
                          (λ e s₂ r. after_failure now authorised r)))
                    (λ _. inl idle))
                (λ _. inl idle))
            (λ e _. inl idle))
        (λ e s₁ h₁. inl (rw (h₁, fresh) still))
