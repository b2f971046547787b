-- ===== src/PermanentDelete/Prepare.antt =====
-- crates/dedupe-core/src/permanent_delete.rs: `prepare` and its variants, and the check of a batch
-- that was loaded again.
use safe_duplicate_finder.Base.{
  ℕ, Bool, true, false, not, ◌&&◌, ◌||◌, Option, none, some, List, [], ◌∷◌, map, Text, length, any,
  text_eq, get_elem?, ltb, ◌==◌, if◌then◌else◌, checked_add, u64_mod, ◌*◌, ℤ, pos, ltb_ℤ, leb_ℤ,
}
use safe_duplicate_finder.Error.{
  Result, ok, ok_or, refuse_if, ◌>>=◌ as then_try, safety, state, invalid_input, no_entry_selected,
  ttl_not_positive, entry_selected_twice, batch_crosses_projects, retention_not_expired,
  invalid_content_evidence, selected_bytes_overflow, selected_count_overflow, expiry_overflow,
  stored_bytes_overflow, stored_count_overflow, stored_authorization_inconsistent,
}
use safe_duplicate_finder.Model.{Uuid}
use safe_duplicate_finder.DeletionModel.{
  DeletionEntry, PermanentDeleteMode, retention_expired, immediate, PermanentDeleteBatch,
  PermanentDeleteItem, PermanentDeleteChallenge, planned, prepared,
}
use safe_duplicate_finder.Ports.{Ports, Sys, create_batch, new_uuid}
use safe_duplicate_finder.Ports.Monad.{Action, ◌>>=◌, ◌>>◌, pure, raise_if, or_raise, lift_result}
use safe_duplicate_finder.PermanentDelete.{
  sort_by_id, confirmation_phrase, digest_token, digest_selection,
}

unfoldable pub is_retention : PermanentDeleteMode → Bool
is_retention retention_expired = true
is_retention immediate = false

-- The gates on one entry, with the ids that the set `unique` holds already.
unfoldable pub check_entry :
    PermanentDeleteMode → ℤ → Uuid → List Uuid → DeletionEntry → Result (Unit {0})
check_entry mode now project_id unique entry =
    then_try
      (refuse_if (any (λ id. id == entry.id) unique)
        (invalid_input (entry_selected_twice entry.id)))
      (λ _.
        then_try (refuse_if (not (entry.project_id == project_id)) (safety batch_crosses_projects))
          (λ _.
            then_try
              (refuse_if (is_retention mode && ltb_ℤ now entry.retain_until)
                (safety (retention_not_expired entry.id)))
              (λ _.
                refuse_if (not (length entry.blake3 == 32) || not (length entry.sha256 == 32))
                  (state (invalid_content_evidence entry.id)))))

-- The loop over the entries, with the set and the sum so far.
unfoldable pub check_entries :
    PermanentDeleteMode → ℤ → Uuid → List Uuid → List DeletionEntry → ℕ → Result ℕ
check_entries mode now project_id unique [] total_bytes = ok total_bytes
check_entries mode now project_id unique (entry ∷ entries) total_bytes =
    then_try (check_entry mode now project_id unique entry) (λ _.
      then_try (ok_or (checked_add total_bytes entry.size_bytes) (safety selected_bytes_overflow))
        (λ total. check_entries mode now project_id (entry.id ∷ unique) entries total))

-- `u64::try_from(entries.len())`
abbrev pub u64_length : {A : Type 0} → List A → Option ℕ
u64_length xs = if ltb (length xs) u64_mod then some (length xs) else none

abbrev pub is_empty : {A : Type 0} → List A → Bool
is_empty [] = true
is_empty (_ ∷ _) = false

abbrev pub planned_item : DeletionEntry → PermanentDeleteItem
planned_item entry = record { entry = entry; state = planned }

-- `Duration::minutes(DEFAULT_TOKEN_TTL_MINUTES)`, in nanoseconds, as all times are.
abbrev pub default_ttl : ℤ
default_ttl = pos (10 * 60 * 1000000000)

-- The sum of the sizes of stored entries, `try_fold` with `checked_add`.
unfoldable pub sum_sizes : List PermanentDeleteItem → ℕ → Option ℕ
sum_sizes [] total = some total
sum_sizes (item ∷ items) total = elim (checked_add total item.entry.size_bytes) [
  | none ↦ none
  | some sum ↦ sum_sizes items sum
]

-- `uuid_bytes` is `Uuid::as_bytes` of the crate uuid.
module _ {E H : Type 0} (ports : Ports E H) (uuid_bytes : Uuid → Text) where
  -- What makes stored evidence consistent, with the count and the sum that were computed.
  unfoldable pub is_consistent : PermanentDeleteBatch → ℕ → ℕ → Bool
  is_consistent batch entry_count bytes =
      entry_count == batch.entry_count
      && bytes == batch.total_bytes
      && text_eq (digest_selection ports uuid_bytes (map (λ item. item.entry) batch.items))
          batch.selection_digest
      && text_eq batch.confirmation_phrase (confirmation_phrase entry_count bytes batch.mode)
      && not (any (λ item. not (item.entry.project_id == batch.project_id)) batch.items)

  unfoldable pub validate_loaded_batch : PermanentDeleteBatch → Result (Unit {0})
  validate_loaded_batch batch =
      then_try (ok_or (u64_length batch.items) (state stored_count_overflow)) (λ entry_count.
        then_try (ok_or (sum_sizes batch.items 0) (state stored_bytes_overflow)) (λ bytes.
          refuse_if (not (is_consistent batch entry_count bytes))
            (safety stored_authorization_inconsistent)))

-- From the crates uuid and chrono: `Uuid::as_bytes`, `Uuid::to_string` and
-- `DateTime::checked_add_signed`.
module _ {E H : Type 0} (ports : Ports E H) (uuid_bytes uuid_text : Uuid → Text)
    (checked_add_signed : ℤ → ℤ → Option ℤ) where
  -- The batch that is stored, from the checked entries and what was drawn and computed.
  abbrev pub new_batch :
      List DeletionEntry
      → Uuid
      → PermanentDeleteMode
      → Text
      → ℕ
      → ℕ
      → ℤ
      → ℤ
      → Uuid
      → PermanentDeleteBatch
  new_batch entries project_id mode raw_token entry_count total_bytes now expires_at id = record {
    id = id;
    project_id = project_id;
    state = prepared;
    mode = mode;
    token_digest = digest_token ports raw_token;
    selection_digest = digest_selection ports uuid_bytes entries;
    confirmation_phrase = confirmation_phrase entry_count total_bytes mode;
    entry_count = entry_count;
    total_bytes = total_bytes;
    created_at = now;
    expires_at = expires_at;
    items = map planned_item entries;
  }

  unfoldable pub prepare_with_ttl_and_mode :
      List DeletionEntry → ℤ → ℤ → PermanentDeleteMode → Action (Sys E) PermanentDeleteChallenge
  prepare_with_ttl_and_mode selected now ttl mode = do
    raise_if (is_empty selected) (invalid_input no_entry_selected)
    raise_if (leb_ℤ ttl (pos 0)) (invalid_input ttl_not_positive)
    let entries = sort_by_id selected
    -- `entries[0]`, which is there
    first ← or_raise (get_elem? entries 0) (invalid_input no_entry_selected)
    total_bytes ← lift_result (check_entries mode now first.project_id [] entries 0)
    entry_count ← or_raise (u64_length entries) (safety selected_count_overflow)
    token_id ← new_uuid ports
    let raw_token = uuid_text token_id
    expires_at ← or_raise (checked_add_signed now ttl) (state expiry_overflow)
    id ← new_uuid ports
    let batch =
        new_batch entries first.project_id mode raw_token entry_count total_bytes now expires_at id
    create_batch ports batch
    pure (record {
      batch_id = batch.id;
      token = raw_token;
      mode = mode;
      confirmation_phrase = batch.confirmation_phrase;
      entry_count = entry_count;
      total_bytes = total_bytes;
      expires_at = expires_at;
    })

  unfoldable pub prepare_with_ttl :
      List DeletionEntry → ℤ → ℤ → Action (Sys E) PermanentDeleteChallenge
  prepare_with_ttl entries now ttl = prepare_with_ttl_and_mode entries now ttl retention_expired

  unfoldable pub prepare : List DeletionEntry → ℤ → Action (Sys E) PermanentDeleteChallenge
  prepare entries now = prepare_with_ttl entries now default_ttl

  unfoldable pub prepare_immediate :
      List DeletionEntry → ℤ → Action (Sys E) PermanentDeleteChallenge
  prepare_immediate entries now = prepare_with_ttl_and_mode entries now default_ttl immediate
