-- ===== src/Model/States.antt =====
-- The state machine of `TransactionState::can_transition_to` in crates/dedupe-core/src/model.rs:
-- it is acyclic, and leads to `verified` only by way of `moving`.
use safe_duplicate_finder.Base.{
  ℕ, ◌+◌, ◌<◌, ◌≤◌, ◌≡◌, refl, Bool, true, false, List, [], ◌∷◌, any, length, IsPath, arith, inl,
  inr, Bool-cases,
}
use safe_duplicate_finder.Model.{
  TransactionState, planned, preflight_validated, moving, moved_unverified, verified,
  preflight_failed, move_failed, verify_failed, recovery_required, cancelled_state,
  reconciled_source_only, reconciled_both, reconciled_missing, can_transition_to,
}

-- How far a transaction has come.
abbrev rank : TransactionState → ℕ
rank planned = 0
rank preflight_validated = 1
rank moving = 2
rank moved_unverified = 3
rank move_failed = 4
rank verify_failed = 4
rank recovery_required = 5
rank verified = 6
rank preflight_failed = 6
rank cancelled_state = 6
rank reconciled_source_only = 6
rank reconciled_both = 6
rank reconciled_missing = 6

can_transition_to-rank :
    (s next : TransactionState) → can_transition_to s next ≡ true → rank s < rank next
unfolding can_transition_to
can_transition_to-rank s next h = ground arith

rank_bound : (s : TransactionState) → rank s ≤ 6
rank_bound s = ground arith

path_length :
    (s : TransactionState) (path : List TransactionState)
    → IsPath can_transition_to s path
    → length path + rank s ≤ 6
path_length s [] h = omega (arith, rank_bound s)
path_length s (next ∷ path) h =
    omega (arith, can_transition_to-rank s next h.0, path_length next path h.1)

-- No transaction goes through more than six transitions, whatever state it starts in.
pub transitions_bounded :
    (s : TransactionState) (path : List TransactionState)
    → IsPath can_transition_to s path
    → length path ≤ 6
transitions_bounded s path h = omega (arith, path_length s path h)

abbrev pub is_moving : TransactionState → Bool
is_moving moving = true
is_moving _ = false

abbrev pub ends_verified : TransactionState → Bool
ends_verified verified = true
ends_verified _ = false

-- The states that can be reached with no move announced.
abbrev before_move : TransactionState → Bool
before_move planned = true
before_move preflight_validated = true
before_move preflight_failed = true
before_move cancelled_state = true
before_move reconciled_source_only = true
before_move reconciled_both = true
before_move reconciled_missing = true
before_move _ = false

before_move-step :
    (s next : TransactionState)
    → before_move s ≡ true
    → can_transition_to s next ≡ true
    → is_moving next ≡ false
    → (before_move next ≡ true) × (ends_verified next ≡ false)
unfolding can_transition_to
before_move-step s next h step other = ground arith

verified_from :
    (s : TransactionState) (path : List TransactionState)
    → before_move s ≡ true
    → IsPath can_transition_to s path
    → any ends_verified path ≡ true
    → any is_moving path ≡ true
verified_from s [] h p v = cc
verified_from s (next ∷ path) h p v = elim (Bool-cases (is_moving next)) [
  | inl m ↦ rw m refl
  | inr m ↦ ground (arith, before_move-step s next h p.0 m, verified_from next path)
]

-- A planned transaction becomes `verified` only on a path that goes through `moving`.
pub verified_needs_moving :
    (path : List TransactionState)
    → IsPath can_transition_to planned path
    → any ends_verified path ≡ true
    → any is_moving path ≡ true
verified_needs_moving path p v = verified_from planned path refl p v
