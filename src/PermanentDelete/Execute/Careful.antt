-- ===== src/PermanentDelete/Execute/Careful.antt =====
-- What a careful run of `execute` in crates/dedupe-core/src/permanent_delete.rs leaves in the trace.
use mathlib.Core.List.{Memᴰ}
use mathlib.Core.List.Memᴰ.{tail}
use safe_duplicate_finder.Base.{
  ◌≡◌, ◌⊎◌, inl, inr, Bool, true, false, List, [], ◌∷◌, Option, some, arith,
}
use safe_duplicate_finder.Model.{FileMetadataSnapshot, HashResult, blake3_full, sha256_full}
use safe_duplicate_finder.DeletionModel.{
  DeletionEntry, PermanentDeleteItem, PermanentDeleteItemState, deleting, deleted, failed,
}
use safe_duplicate_finder.Error.{DedupeError}
use safe_duplicate_finder.PermanentDelete.{is_missing}
use safe_duplicate_finder.Ports.{
  Ports, Event, snapped, not_seen, delete_done, delete_called, item_journaled,
}
use safe_duplicate_finder.FullHash.Streaming.{HasherLaws, Hashed}
use safe_duplicate_finder.PermanentDelete.Execute.{matches_entry, proves_entry}

abbrev pub is_delete : Event → Bool
is_delete (delete_called seen) = true
is_delete _ = false

-- The trace went on, and nothing was deleted meanwhile.
pub data Quiet (t : List Event) : List Event → Type 0 where
  still : Quiet t t
  heard : {u : List Event} {e : Event} → is_delete e ≡ false → Quiet t u → Quiet t (e ∷ u)

pub data Later (t : List Event) : List Event → Type 0 where
  now : Later t t
  later : {u : List Event} {e : Event} → Later t u → Later t (e ∷ u)

pub Quiet-trans : {t u v : List Event} → Quiet t u → Quiet u v → Quiet t v
Quiet-trans p still = p
Quiet-trans p (heard d q) = heard d (Quiet-trans p q)

pub Later-trans : {t u v : List Event} → Later t u → Later u v → Later t v
Later-trans p now = p
Later-trans p (later q) = later (Later-trans p q)

pub Later-Memᴰ : {e : Event} {t u : List Event} → Later t u → Memᴰ e t → Memᴰ e u
Later-Memᴰ now m = m
Later-Memᴰ (later q) m = tail (Later-Memᴰ q m)

-- An item whose deletion was begun before the run.
abbrev pub WasBegun : PermanentDeleteItemState → Type 0
WasBegun deleting = Unit
WasBegun failed = Unit
WasBegun _ = ⊥

-- How the work on an entry of a batch, loaded with these items, has ended by the point `t`: the item
-- was loaded as deleted; or its deletion was begun before, and no file was found at its path now; or
-- the call that deletes the snapshot that the entry authorises has succeeded.
pub data EntryEnd (loaded : List PermanentDeleteItem) (entry : DeletionEntry) (t : List Event)
    : Type 0 where
  was_deleted :
      (item : PermanentDeleteItem)
      → Memᴰ item loaded
      → item.entry ≡ entry
      → item.state ≡ deleted
      → EntryEnd loaded entry t
  was_missing :
      (item : PermanentDeleteItem) (error : DedupeError)
      → Memᴰ item loaded
      → item.entry ≡ entry
      → WasBegun item.state
      → is_missing error ≡ true
      → Memᴰ (not_seen entry.quarantine_path error) t
      → EntryEnd loaded entry t
  now_deleted :
      (seen : FileMetadataSnapshot)
      → matches_entry entry seen ≡ true
      → Memᴰ (delete_done seen) t
      → EntryEnd loaded entry t

pub EntryEnd-later :
    {loaded : List PermanentDeleteItem} {entry : DeletionEntry} {t u : List Event}
    → Later t u
    → EntryEnd loaded entry t
    → EntryEnd loaded entry u
EntryEnd-later q (was_deleted item m e d) = was_deleted item m e d
EntryEnd-later q (was_missing item x m e b f n) = was_missing item x m e b f (Later-Memᴰ q n)
EntryEnd-later q (now_deleted seen f n) = now_deleted seen f (Later-Memᴰ q n)

pub Quiet-Later : {t u : List Event} → Quiet t u → Later t u
Quiet-Later still = now
Quiet-Later (heard d q) = later (Quiet-Later q)

module _ {E H : Type 0} (ports : Ports E H) (laws : HasherLaws ports) where
  -- Before the point `t` of the run, a snapshot was taken that showed the entry's path, identity and size of a
  -- regular file, and behind it two stable passes over the file gave the entry's digests.
  pub record EntryProof (entry : DeletionEntry) (seen : FileMetadataSnapshot) (t : List Event)
      : Type 0 where
    pub blake3_result : HashResult
    pub sha256_result : HashResult
    pub older : List Event
    pub from : List Event
    pub middle : List Event
    pub to : List Event
    pub looked : from ≡ snapped entry.quarantine_path seen ∷ older
    pub same_file : matches_entry entry seen ≡ true
    pub blake3_pass : Hashed ports laws blake3_full entry.quarantine_path from blake3_result middle
    pub sha256_pass : Hashed ports laws sha256_full entry.quarantine_path middle sha256_result to
    pub same_content : proves_entry entry blake3_result sha256_result ≡ true
    pub before_then : Later to t

  pub EntryProof-later :
      {entry : DeletionEntry} {seen : FileMetadataSnapshot} {t u : List Event}
      → EntryProof entry seen t
      → Later t u
      → EntryProof entry seen u
  EntryProof-later p q = record {
    blake3_result = p.blake3_result;
    sha256_result = p.sha256_result;
    older = p.older;
    from = p.from;
    looked = p.looked;
    middle = p.middle;
    to = p.to;
    same_file = p.same_file;
    blake3_pass = p.blake3_pass;
    sha256_pass = p.sha256_pass;
    same_content = p.same_content;
    before_then = Later-trans p.before_then q;
  }

  -- The intent to delete is recorded: in this run, or it was when the item was loaded.
  abbrev pub Intended : PermanentDeleteItem → List Event → Type 0
  Intended item t = (item.state ≡ deleting) ⊎ Memᴰ (item_journaled item deleting) t

  -- Every call that deletes is for an item of the batch whose file was proved, after the intent.
  abbrev pub IsCareful : List PermanentDeleteItem → List Event → Type 0
  IsCareful loaded [] = Unit
  IsCareful loaded (delete_called seen ∷ older) =
      ((item : PermanentDeleteItem) × Memᴰ item loaded
        × EntryProof item.entry seen older
        × Intended item older)
      × IsCareful loaded older
  IsCareful loaded (_ ∷ older) = IsCareful loaded older

  pub IsCareful-heard :
      (loaded : List PermanentDeleteItem) (e : Event) (t : List Event)
      → is_delete e ≡ false
      → IsCareful loaded t
      → IsCareful loaded (e ∷ t)
  IsCareful-heard loaded (delete_called seen) t d h = absurd (ground (arith, d))
  IsCareful-heard loaded _ t d h = h

  pub Quiet-IsCareful :
      (loaded : List PermanentDeleteItem) {t u : List Event}
      → Quiet t u
      → IsCareful loaded t
      → IsCareful loaded u
  Quiet-IsCareful loaded still h = h
  Quiet-IsCareful loaded (heard {u} {e} d q) h =
      IsCareful-heard loaded e u d (Quiet-IsCareful loaded q h)

  -- After the first loop: the item is deleted, and how is known, or its file was proved and the snapshot is kept.
  abbrev pub Checked :
      List PermanentDeleteItem
      → PermanentDeleteItem
      → Option FileMetadataSnapshot
      → List Event
      → Type 0
  Checked loaded item snap t =
      ((item.state ≡ deleted) × EntryEnd loaded item.entry t)
      ⊎ ((seen : FileMetadataSnapshot) × (snap ≡ some seen)
          × EntryProof item.entry seen t
          × Memᴰ item loaded)

  abbrev pub AllChecked :
      List PermanentDeleteItem
      → List PermanentDeleteItem
      → List (Option FileMetadataSnapshot)
      → List Event
      → Type 0
  AllChecked loaded [] [] t = Unit
  AllChecked loaded (item ∷ items) (snap ∷ snaps) t =
      Checked loaded item snap t × AllChecked loaded items snaps t
  AllChecked loaded _ _ t = ⊥

  pub Checked-later :
      (loaded : List PermanentDeleteItem) (item : PermanentDeleteItem)
      (snap : Option FileMetadataSnapshot) {t u : List Event}
      → Later t u
      → Checked loaded item snap t
      → Checked loaded item snap u
  Checked-later loaded item snap q (inl (h, w)) = inl (h, EntryEnd-later q w)
  Checked-later loaded item snap q (inr (seen, e, p, m)) = inr (seen, e, EntryProof-later p q, m)

  pub AllChecked-later :
      (loaded : List PermanentDeleteItem) {t u : List Event} (items : List PermanentDeleteItem)
      (snaps : List (Option FileMetadataSnapshot))
      → Later t u
      → AllChecked loaded items snaps t
      → AllChecked loaded items snaps u
  AllChecked-later loaded [] [] q h = tt
  AllChecked-later loaded (item ∷ items) (snap ∷ snaps) q (h, hs) =
      (Checked-later loaded item snap q h, AllChecked-later loaded items snaps q hs)
  AllChecked-later loaded [] (_ ∷ _) q h = absurd h
  AllChecked-later loaded (_ ∷ _) [] q h = absurd h
