-- ===== src/DryRun/Reclaimable.antt =====
-- `maximum_reclaimable_bytes` of crates/dedupe-core/src/model.rs against what a report counts.
use native.Mathlib.Nat.{mul-suc}
use safe_duplicate_finder.Base.{
  ℕ, ◌+◌, ◌-◌, ◌*◌, ◌≡◌, ap, ◌∙◌, true, List, [], ◌∷◌, All, count, length, map, saturating_mul,
  arith, ◌||◌, suc, zero, if◌then◌else◌,
}
use safe_duplicate_finder.Model.{
  DuplicateGroup, DuplicateMember, KeepPolicy, MemberAction, keep, quarantine, manual, is_keep,
  is_quarantine, maximum_reclaimable_bytes,
}
use safe_duplicate_finder.KeepPolicy.Marking.{IsMarked, file_of}
use safe_duplicate_finder.KeepPolicy.Applied.{IsApplied, apply-IsApplied}
use safe_duplicate_finder.KeepPolicy.{apply}
use safe_duplicate_finder.Ports.Hoare.{Post, Post-mono}
use safe_duplicate_finder.DryRun.Summary.{quarantined_bytes, capped}

abbrev pub HasSize : ℕ → DuplicateMember → Type 0
HasSize n m = m.file.metadata.size_bytes ≡ n

times_one_more : (n c : ℕ) → n * (1 + c) ≡ n * c + n
times_one_more n c = ap (λ k. n * k) (omega arith) ∙ mul-suc n c

marked_step :
    (a : MemberAction) (n q c l z : ℕ)
    → is_keep a || is_quarantine a ≡ true
    → z ≡ n
    → q + n * c ≡ n * l
    → (if is_quarantine a then z else 0) + q + n * ((if is_keep a then 1 else 0) + c) ≡ n * suc l
marked_step keep n q c l z h e r = omega (arith, times_one_more n c, mul-suc n l, r)
marked_step quarantine n q c l z h e r =
    omega (arith, ap (λ k. n * k) (no_more c), mul-suc n l, r, e)
  where
    no_more : (c : ℕ) → 0 + c ≡ c
    no_more c = omega arith
marked_step manual n q c l z h e r = absurd (ground (arith, h))

marked_bytes :
    (n : ℕ) (ms : List DuplicateMember)
    → All IsMarked ms
    → All (HasSize n) ms
    → quarantined_bytes ms + n * count (λ m. is_keep m.action) ms ≡ n * length ms
marked_bytes n [] h s = ground arith
marked_bytes n (m ∷ ms) (h, hs) (s, ss) =
    marked_step m.action n _ _ (length ms) _ h s (marked_bytes n ms hs ss)

one_back : (l : ℕ) → suc l - 1 ≡ l
one_back l = omega arith

less_one : (n l q : ℕ) → q + n * 1 ≡ n * l → q ≡ n * (l - 1)
less_one n zero q h = omega (arith, h)
less_one n (suc l) q h = omega (arith, h, mul-suc n l, ap (λ k. n * k) (one_back l))

capped_product : (n k : ℕ) → capped (n * k) ≡ saturating_mul n k
capped_product n k = ground arith

applied_bytes :
    (policy : KeepPolicy) (g g' : DuplicateGroup)
    → IsApplied policy g g'
    → All (HasSize g'.size_bytes) g'.members
    → capped (quarantined_bytes g'.members) ≡ maximum_reclaimable_bytes g'
unfolding maximum_reclaimable_bytes
applied_bytes policy g g' a sizes =
    let marked = marked_bytes g'.size_bytes g'.members a.all_marked sizes in
    let exact =
      less_one g'.size_bytes (length g'.members) (quarantined_bytes g'.members)
        (rw (a.one_kept) at marked) in
    rw exact (capped_product g'.size_bytes (length g'.members - 1))

files_sized :
    (n : ℕ) (ms : List DuplicateMember)
    → All (HasSize n) ms
    → All (λ f. f.metadata.size_bytes ≡ n) (map file_of ms)
files_sized n [] h = tt
files_sized n (m ∷ ms) (h, hs) = (h, files_sized n ms hs)

members_sized :
    (n : ℕ) (ms : List DuplicateMember)
    → All (λ f. f.metadata.size_bytes ≡ n) (map file_of ms)
    → All (HasSize n) ms
members_sized n [] h = tt
members_sized n (m ∷ ms) (h, hs) = (h, members_sized n ms hs)

-- If all members of a group have the group's size, and a policy is applied to it, then the bytes
-- that a report counts for the group are its maximum of reclaimable bytes; or it fails, and leaves
-- the group as it was.
pub apply-maximum_reclaimable_bytes :
    (policy : KeepPolicy) (g : DuplicateGroup)
    → All (HasSize g.size_bytes) g.members
    → Post
        (λ _ g'. capped (quarantined_bytes g'.members) ≡ maximum_reclaimable_bytes g')
        (λ _ g'. g' ≡ g)
        (apply policy g)
apply-maximum_reclaimable_bytes policy g sizes =
    Post-mono _ (apply-IsApplied policy g)
      (λ _ g' a.
        let same : g'.size_bytes ≡ g.size_bytes = ap (λ x. x.size_bytes) a.same_group in
        applied_bytes policy g g' a (
          members_sized g'.size_bytes g'.members
            (rw (a.same_files, same) (files_sized g.size_bytes g.members sizes))))
      (λ _ _ h. h.0)
