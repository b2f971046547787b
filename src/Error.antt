-- ===== src/Error.antt =====
-- crates/dedupe-core/src/error.rs: the errors of every core operation, and the `?` operator on
-- results. The message of an error is the `Reason` that the source puts into words.
use safe_duplicate_finder.Base.{ℕ, Bool, true, false, Option, none, some}
use safe_duplicate_finder.Paths.{FilePath}

-- `std::io::ErrorKind`, as far as the program tells the kinds apart.
pub data IoKind : Type 0 where
  not_found interrupted would_block timed_out already_exists other_kind : IoKind

-- One constructor for each message, with the values that are printed in it.
pub data Reason : Type 0 where
  new_change_starts_planned source_evidence_changed : Reason
  invalid_transaction_transition : Reason
  destination_identity_mismatch destination_blake3_mismatch destination_sha256_mismatch : Reason
  both_paths_missing : Reason
  group_without_keeper : ℕ → Reason
  keeper_changed keeper_evidence_stale : FilePath → Reason
  source_outside_root : FilePath → FilePath → Reason
  quarantine_needs_identity quarantine_needs_stable_evidence : Reason
  not_a_quarantine_transaction not_a_restore_transaction : Reason
  only_verified_quarantine_restores : Reason
  quick_hash_in_full_stream : Reason
  empty_group manual_keeper_not_in_group : Reason
  plan_evidence_stale : FilePath → Reason
  no_entry_selected ttl_not_positive : Reason
  entry_selected_twice : ℕ → Reason
  batch_crosses_projects : Reason
  retention_not_expired : ℕ → Reason
  invalid_content_evidence : ℕ → Reason
  selected_bytes_overflow selected_count_overflow expiry_overflow : Reason
  wrong_token wrong_phrase token_expired : Reason
  missing_preflight_snapshot : ℕ → Reason
  entry_identity_mismatch entry_content_changed : ℕ → Reason
  stored_bytes_overflow stored_count_overflow stored_authorization_inconsistent : Reason
  invalid_batch_transition invalid_item_transition : Reason
  no_root_given path_escapes_root : Reason
  task_lost : Reason
  external_reason : ℕ → Reason

pub data DedupeError : Type 0 where
  safety : Reason → DedupeError
  cancelled : DedupeError
  io : FilePath → IoKind → DedupeError
  durability : Reason → DedupeError
  state : Reason → DedupeError
  invalid_input : Reason → DedupeError
  serialization : DedupeError

-- The I/O kinds that a later attempt may not meet again.
transient : IoKind → Bool
transient interrupted = true
transient would_block = true
transient timed_out = true
transient _ = false

unfoldable pub retryable : DedupeError → Bool
unfolding transient
retryable (io path kind) = transient kind
retryable (durability _) = true
retryable (state _) = true
retryable (safety _) = false
retryable cancelled = false
retryable (invalid_input _) = false
retryable serialization = false

pub data Result (A : Type 0) : Type 0 where
  ok : A → Result A
  err : DedupeError → Result A

-- `m?` in a function with no state.
infixl 5 ◌>>=◌ ◌>>◌
abbrev pub ◌>>=◌ : {A B : Type 0} → Result A → (A → Result B) → Result B
ok a >>= f = f a
err e >>= f = err e

abbrev pub ◌>>◌ : {B : Type 0} → Result (Unit {0}) → Result B → Result B
m >> k = m >>= λ _. k

-- `if bad { return Err(e) }`
abbrev pub refuse_if : Bool → DedupeError → Result (Unit {0})
refuse_if true e = err e
refuse_if false e = ok tt

-- `option.ok_or_else(e)`
abbrev pub ok_or : {A : Type 0} → Option A → DedupeError → Result A
ok_or none e = err e
ok_or (some a) e = ok a
