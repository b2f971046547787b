-- ===== src/QuickHash/Offsets.antt =====
-- Where crates/dedupe-core/src/quick_hash.rs samples a file.
use Prim.Native.Nat.{◌/◌, min, compare}
use safe_duplicate_finder.Base.{
  ℕ, ◌+◌, ◌-◌, ◌<◌, ◌≤◌, ◌≡◌, refl, ◌∙◌, true, false, List, [], ◌∷◌, All, any, Pairwise, length,
  sort_by, insert_by, leb, ◌==◌, if◌then◌else◌, Bool-cases, inl, inr, arith,
}
use safe_duplicate_finder.QuickHash.{dedup, dedup_after, sample_offsets, sample_bytes, wanted_at}

-- The offsets written out.
abbrev offsets_of : ℕ → List ℕ
offsets_of size =
    if leb size 65536
    then 0 ∷ []
    else if size / 2 == 32768
    then 0 ∷ (size - 65536) ∷ []
    else 0 ∷ (size / 2 - 32768) ∷ (size - 65536) ∷ []

three :
    (m t : ℕ)
    → m < t
    → dedup (sort_by compare (0 ∷ m ∷ t ∷ [])) ≡ (if m == 0 then 0 ∷ t ∷ [] else 0 ∷ m ∷ t ∷ [])
unfolding dedup dedup_after sort_by insert_by
three m t h = ground (arith, h)

same_test :
    (size : ℕ)
    → 65536 < size
    → (if size / 2 - 32768 == 0
        then 0 ∷ (size - 65536) ∷ []
        else 0 ∷ (size / 2 - 32768) ∷ (size - 65536) ∷ [])
      ≡ (if size / 2 == 32768
          then 0 ∷ (size - 65536) ∷ []
          else 0 ∷ (size / 2 - 32768) ∷ (size - 65536) ∷ [])
same_test size big = ground (arith, big)

sample_offsets-closed : (size : ℕ) → sample_offsets size ≡ offsets_of size
unfolding sample_offsets
sample_offsets-closed size = elim (Bool-cases (leb size 65536)) [
  | inl e ↦ rw e refl
  | inr e ↦
      let big : 65536 < size = ground (arith, e) in
      rw e (three (size / 2 - 32768) (size - 65536) (omega (arith, big)) ∙ same_test size big)
]

-- What the sampled regions of a file of `size` bytes promise.
pub record AreSamples (size : ℕ) (offsets : List ℕ) : Type 0 where
  pub ascending : Pairwise (λ a b. a < b) offsets
  pub inside : All (λ o. o + wanted_at size o ≤ size) offsets
  pub full : All (λ o. wanted_at size o ≡ min sample_bytes size) offsets
  pub few : length offsets ≤ 3
  pub from_start : any (λ o. o == 0) offsets ≡ true
  pub to_end : any (λ o. o + wanted_at size o == size) offsets ≡ true

one_sample : (size : ℕ) → leb size 65536 ≡ true → AreSamples size (0 ∷ [])
one_sample size e = record {
  ascending = (tt, tt);
  inside = (ground (arith, e), tt);
  full = (ground (arith, e), tt);
  few = omega arith;
  from_start = refl;
  to_end = ground (arith, e);
}

two_samples : (size : ℕ) → 65536 < size → AreSamples size (0 ∷ (size - 65536) ∷ [])
two_samples size big = record {
  ascending = ((omega (arith, big), tt), (tt, tt));
  inside = (omega (arith, big), (omega (arith, big), tt));
  full = (omega (arith, big), (omega (arith, big), tt));
  few = omega arith;
  from_start = refl;
  to_end = ground (arith, big);
}

three_samples :
    (size : ℕ)
    → 65536 < size
    → size / 2 == 32768 ≡ false
    → AreSamples size (0 ∷ (size / 2 - 32768) ∷ (size - 65536) ∷ [])
three_samples size big e =
    let above : 32768 < size / 2 = ground (arith, big, e) in
    record {
      ascending =
          ((omega (arith, above), (omega (arith, big), tt)), ((omega (arith, big), tt), (tt, tt)));
      inside = (omega (arith, big), (omega (arith, big), (omega (arith, big), tt)));
      full = (omega (arith, big), (omega (arith, big), (omega (arith, big), tt)));
      few = omega arith;
      from_start = refl;
      to_end = ground (arith, big);
    }

-- The sampled regions of a file lie inside it, in ascending order with none twice, at most three of
-- them, from the first byte to the last; each is a full sample unless the whole file is smaller.
pub sample_offsets-AreSamples : (size : ℕ) → AreSamples size (sample_offsets size)
sample_offsets-AreSamples size =
    rw (sample_offsets-closed size) (elim (Bool-cases (leb size 65536)) [
      | inl e ↦ rw e (one_sample size e)
      | inr e ↦
          let big : 65536 < size = ground (arith, e) in
          rw e (elim (Bool-cases (size / 2 == 32768)) [
            | inl m ↦ rw m (two_samples size big)
            | inr m ↦ rw m (three_samples size big m)
          ])
    ])
