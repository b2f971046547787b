-- ===== src/PermanentDelete/Sorted.antt =====
-- The order of the entries in crates/dedupe-core/src/permanent_delete.rs: what sorting by id gives,
-- and that a digest of a selection does not see whether it was sorted before.
use safe_duplicate_finder.Base.{
  ℕ, ◌≤◌, ◌≡◌, refl, ap, Bool, inl, inr, List, [], ◌∷◌, count, All, All-mono, leb, leb→le, le→leb,
  Bool-cases, arith, Text,
}
use safe_duplicate_finder.Model.{Uuid}
use safe_duplicate_finder.DeletionModel.{DeletionEntry}
use safe_duplicate_finder.Ports.{Ports}
use safe_duplicate_finder.PermanentDelete.{insert_by_id, sort_by_id, feed_entries, digest_selection}
use safe_duplicate_finder.PermanentDelete.Strings.{selection_context}

abbrev pub IsSorted : List DeletionEntry → Type 0
IsSorted [] = Unit
IsSorted (e ∷ es) = All (λ f. e.id ≤ f.id) es × IsSorted es

insert_by_id-All :
    (n : ℕ) (e : DeletionEntry) (es : List DeletionEntry)
    → n ≤ e.id
    → All (λ f. n ≤ f.id) es
    → All (λ f. n ≤ f.id) (insert_by_id e es)
unfolding insert_by_id
insert_by_id-All n e [] h hs = (h, tt)
insert_by_id-All n e (x ∷ xs) h (hx, hs) = elim (Bool-cases (leb e.id x.id)) [
  | inl first ↦ rw first (h, (hx, hs))
  | inr later ↦ rw later (hx, insert_by_id-All n e xs h hs)
]

insert_by_id-IsSorted :
    (e : DeletionEntry) (es : List DeletionEntry) → IsSorted es → IsSorted (insert_by_id e es)
unfolding insert_by_id
insert_by_id-IsSorted e [] h = (tt, tt)
insert_by_id-IsSorted e (x ∷ xs) (hx, hs) = elim (Bool-cases (leb e.id x.id)) [
  | inl first ↦
      let least = leb→le e.id x.id first in
      rw first ((least, All-mono _ _ (λ f g. omega (arith, least, g)) xs hx), (hx, hs))
  | inr later ↦
      rw later
        (insert_by_id-All x.id e xs (ground (arith, later)) hx, insert_by_id-IsSorted e xs hs)
]

insert_by_id-count :
    (p : DeletionEntry → Bool) (e : DeletionEntry) (es : List DeletionEntry)
    → count p (insert_by_id e es) ≡ count p (e ∷ es)
unfolding insert_by_id
insert_by_id-count p e [] = refl
insert_by_id-count p e (x ∷ xs) = elim (Bool-cases (leb e.id x.id)) [
  | inl first ↦ rw first refl
  | inr later ↦ rw later (omega (arith, insert_by_id-count p e xs))
]

insert_least :
    (e : DeletionEntry) (es : List DeletionEntry)
    → All (λ f. e.id ≤ f.id) es
    → insert_by_id e es ≡ e ∷ es
unfolding insert_by_id
insert_least e [] h = refl
insert_least e (x ∷ xs) (h, hs) = rw (le→leb e.id x.id h) refl

sorted_same : (es : List DeletionEntry) → IsSorted es → sort_by_id es ≡ es
unfolding sort_by_id
sorted_same [] h = refl
sorted_same (e ∷ es) (h, hs) = rw (sorted_same es hs) (insert_least e es h)

sort_by_id-IsSorted : (es : List DeletionEntry) → IsSorted (sort_by_id es)
unfolding sort_by_id
sort_by_id-IsSorted [] = tt
sort_by_id-IsSorted (e ∷ es) = insert_by_id-IsSorted e (sort_by_id es) (sort_by_id-IsSorted es)

sort_by_id-count :
    (p : DeletionEntry → Bool) (es : List DeletionEntry) → count p (sort_by_id es) ≡ count p es
unfolding sort_by_id
sort_by_id-count p [] = refl
sort_by_id-count p (e ∷ es) =
    omega (arith, insert_by_id-count p e (sort_by_id es), sort_by_id-count p es)

-- Sorting by id gives the same entries, each as often as before, in the order of their ids; and the
-- digest of a selection is the same before and after.
pub sort_by_id_lem :
    {E H : Type 0} (ports : Ports E H) (uuid_bytes : Uuid → Text) (es : List DeletionEntry)
    → IsSorted (sort_by_id es)
      × ((p : DeletionEntry → Bool) → count p (sort_by_id es) ≡ count p es)
      × (digest_selection ports uuid_bytes (sort_by_id es) ≡ digest_selection ports uuid_bytes es)
unfolding digest_selection
sort_by_id_lem ports uuid_bytes es = (
  sort_by_id-IsSorted es,
  λ p. sort_by_id-count p es,
  ap
      (λ xs.
        ports.blake3_finalize
          (feed_entries ports uuid_bytes (ports.blake3_derive_key selection_context) xs))
      (sorted_same (sort_by_id es) (sort_by_id-IsSorted es)),
)
