-- ===== src/KeepPolicy/Marking.antt =====
-- The loop of crates/dedupe-core/src/keep_policy.rs that marks the members of a group.
use safe_duplicate_finder.Base.{
  ℕ, zero, suc, ◌+◌, ◌<◌, ◌≡◌, refl, Bool, true, ◌||◌, some, List, [], ◌∷◌, All, map, any,
  get_elem?, count, arith,
}
use safe_duplicate_finder.Model.{
  DuplicateMember, MemberReason, ProvenFile, is_keep, is_quarantine, keep,
}
use safe_duplicate_finder.KeepPolicy.{mark}

abbrev pub is_kept : DuplicateMember → Bool
is_kept m = is_keep m.action

abbrev pub file_of : DuplicateMember → ProvenFile
file_of m = m.file

-- Every member of a marked group is kept or goes to quarantine.
abbrev pub IsMarked : DuplicateMember → Type 0
IsMarked m = is_keep m.action || is_quarantine m.action ≡ true

module _ (reason : MemberReason) (keeper : ℕ) where
  pub mark-IsMarked :
      (index : ℕ) (ms : List DuplicateMember) → All IsMarked (mark reason keeper index ms)
  unfolding mark
  mark-IsMarked index [] = tt
  mark-IsMarked index (m ∷ ms) = ground (arith, mark-IsMarked (index + 1) ms)

  pub map-mark :
      (index : ℕ) (ms : List DuplicateMember)
      → map file_of (mark reason keeper index ms) ≡ map file_of ms
  unfolding mark
  map-mark index [] = refl
  map-mark index (m ∷ ms) = ground (arith, map-mark (index + 1) ms)

  count-mark_past :
      (index : ℕ) (ms : List DuplicateMember)
      → keeper < index
      → count is_kept (mark reason keeper index ms) ≡ 0
  unfolding mark
  count-mark_past index [] h = refl
  count-mark_past index (m ∷ ms) h = ground (arith, count-mark_past (index + 1) ms)

  pub count-mark :
      (index i : ℕ) (ms : List DuplicateMember) {kept : DuplicateMember}
      → keeper ≡ index + i
      → get_elem? ms i ≡ some kept
      → count is_kept (mark reason keeper index ms) ≡ 1
  unfolding mark
  count-mark index i [] e h = cc
  count-mark index zero (m ∷ ms) e h = ground (arith, count-mark_past (index + 1) ms)
  count-mark index (suc i) (m ∷ ms) {kept} e h =
      ground (arith, count-mark (index + 1) i ms {kept = kept} (omega arith) h)

  pub mark-at :
      (index i : ℕ) (ms : List DuplicateMember) {kept : DuplicateMember}
      → keeper ≡ index + i
      → get_elem? ms i ≡ some kept
      → get_elem? (mark reason keeper index ms) i
        ≡ some (record kept { action = keep; reason = reason })
  unfolding mark
  mark-at index i [] e h = cc
  mark-at index zero (m ∷ ms) e h = ground arith
  mark-at index (suc i) (m ∷ ms) e h = mark-at (index + 1) i ms (omega arith) h

pub any_of_count :
    (ms : List DuplicateMember) → count is_kept ms ≡ 1 → any (λ m. is_keep m.action) ms ≡ true
any_of_count [] h = ground arith
any_of_count (m ∷ ms) h = ground (arith, any_of_count ms)
