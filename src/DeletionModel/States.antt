-- ===== src/DeletionModel/States.antt =====
-- The state machines of crates/dedupe-core/src/permanent_delete.rs.
use safe_duplicate_finder.Base.{◌≡◌, refl, Bool, true, false, List, [], ◌∷◌, any, IsPath, arith}
use safe_duplicate_finder.DeletionModel.{
  PermanentDeleteBatchState, prepared, executing, completed, recovery_required, expired,
  batch_can_transition_to, PermanentDeleteItemState, planned, deleting, deleted, failed,
  item_can_transition_to,
}

abbrev pub is_deleting : PermanentDeleteItemState → Bool
is_deleting deleting = true
is_deleting _ = false

abbrev pub is_deleted : PermanentDeleteItemState → Bool
is_deleted deleted = true
is_deleted _ = false

abbrev pub is_executing : PermanentDeleteBatchState → Bool
is_executing executing = true
is_executing _ = false

abbrev pub is_completed : PermanentDeleteBatchState → Bool
is_completed completed = true
is_completed _ = false

item_path :
    (path : List PermanentDeleteItemState)
    → IsPath item_can_transition_to planned path
    → any is_deleted path ≡ true
    → any is_deleting path ≡ true
unfolding item_can_transition_to
item_path [] p d = ground (arith, d)
item_path (deleting ∷ path) p d = refl
item_path (planned ∷ path) p d = absurd (ground (arith, p.0))
item_path (deleted ∷ path) p d = absurd (ground (arith, p.0))
item_path (failed ∷ path) p d = absurd (ground (arith, p.0))

no_return :
    (path : List PermanentDeleteBatchState)
    → IsPath batch_can_transition_to expired path
    → any is_completed path ≡ false
unfolding batch_can_transition_to
no_return [] p = refl
no_return (next ∷ path) p = absurd (ground (arith, p.0))

batch_path :
    (path : List PermanentDeleteBatchState)
    → IsPath batch_can_transition_to prepared path
    → any is_completed path ≡ true
    → any is_executing path ≡ true
unfolding batch_can_transition_to
batch_path [] p d = ground (arith, d)
batch_path (executing ∷ path) p d = refl
batch_path (expired ∷ path) p d = absurd (ground (arith, d, no_return path p.1))
batch_path (prepared ∷ path) p d = absurd (ground (arith, p.0))
batch_path (completed ∷ path) p d = absurd (ground (arith, p.0))
batch_path (recovery_required ∷ path) p d = absurd (ground (arith, p.0))

-- A path on which a planned item becomes deleted goes through `deleting`, the recorded intent, and
-- one on which a prepared batch becomes completed goes through `executing`.
pub deletion_needs_intent :
    (items : List PermanentDeleteItemState) (batches : List PermanentDeleteBatchState)
    → IsPath item_can_transition_to planned items
    → IsPath batch_can_transition_to prepared batches
    → any is_deleted items ≡ true
    → any is_completed batches ≡ true
    → (any is_deleting items ≡ true) × (any is_executing batches ≡ true)
deletion_needs_intent items batches p q d c = (item_path items p d, batch_path batches q c)
