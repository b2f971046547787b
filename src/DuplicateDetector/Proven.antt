-- ===== src/DuplicateDetector/Proven.antt =====
-- What the groups of crates/dedupe-core/src/duplicate_detector.rs promise.
use mathlib.Core.List.{Memᴰ}
use safe_duplicate_finder.Base.{
  ℕ, ◌≤◌, ◌≡◌, ◌≢◌, refl, inl, inr, true, false, any, Option, some, none, List, [], ◌∷◌, length,
  length-map, All, All-map, All-mono, Pairwise, Pairwise-map, Text, text_eq_refl, arith, Bool-cases,
}
use safe_duplicate_finder.Model.{
  ComparisonMode, strict, content, FileIdentity, identity_eq, HashAlgorithm, blake3_full,
  sha256_full, HashResult, FileMetadataSnapshot, ProvenFile, manual, DuplicateGroup,
}
use safe_duplicate_finder.Paths.{FilePath}
use safe_duplicate_finder.Metadata.{is_stable}
use safe_duplicate_finder.Ports.{Ports, Event, Read, snapped, opened}
use safe_duplicate_finder.FullHash.Streaming.{
  HasherLaws, Hashed, Observed, unseen, Observed-trans, reads_to_end, content_digest, contents,
}
use safe_duplicate_finder.DuplicateDetector.{
  is_hard_link, has_one_link, keep_independent, member_of, at_least_two, name_of_group, new_group,
}

-- Two files that the identities, where they are known, tell apart.
abbrev pub AreIndependent : Option FileIdentity → Option FileIdentity → Type 0
AreIndependent (some i) (some j) = i ≢ j
AreIndependent _ _ = Unit

abbrev NotSeen : List FileIdentity → Option FileIdentity → Type 0
NotSeen seen none = Unit
NotSeen seen (some i) = any (identity_eq i) seen ≡ false

identity_eq_refl : (i : FileIdentity) → identity_eq i i ≡ true
unfolding identity_eq
identity_eq_refl i = ground (arith, text_eq_refl i.volume_id, text_eq_refl i.file_id)

not_first :
    (i : FileIdentity) (seen : List FileIdentity) (o : Option FileIdentity)
    → NotSeen (i ∷ seen) o
    → AreIndependent (some i) o
not_first i seen none h = tt
not_first i seen (some j) h =
    λ same. ground (arith, h, identity_eq_refl i, rw same at (identity_eq_refl i), rw same at h)

not_later :
    (i : FileIdentity) (seen : List FileIdentity) (o : Option FileIdentity)
    → NotSeen (i ∷ seen) o
    → NotSeen seen o
not_later i seen none h = tt
not_later i seen (some j) h = ground (arith, h)

unknown_first : (o p : Option FileIdentity) → o ≡ none → AreIndependent o p
unknown_first none p h = tt
unknown_first (some i) p h = absurd (ground (arith, h))

known_first :
    (i : FileIdentity) (seen : List FileIdentity) (o p : Option FileIdentity)
    → o ≡ some i
    → NotSeen (i ∷ seen) p
    → AreIndependent o p
known_first i seen o p h n = rw h (not_first i seen p n)

abbrev identity_of : ProvenFile → Option FileIdentity
identity_of file = file.metadata.identity

abbrev ApartFiles : ProvenFile → ProvenFile → Type 0
ApartFiles a b = AreIndependent (identity_of a) (identity_of b)

abbrev Kept : List FileIdentity → List ProvenFile → Type 0
Kept seen kept = All (λ f. NotSeen seen (identity_of f)) kept × Pairwise ApartFiles kept

keep_independent-Kept :
    (seen : List FileIdentity) (files : List ProvenFile) → Kept seen (keep_independent seen files)
unfolding keep_independent
keep_independent-Kept seen [] = (tt, tt)
keep_independent-Kept seen (file ∷ files) =
    by_identity (identity_of file) refl (keep_independent-Kept seen files)
      (λ i. keep_independent-Kept (i ∷ seen) files)
  where
    by_identity :
        (o : Option FileIdentity)
        → identity_of file ≡ o
        → Kept seen (keep_independent seen files)
        → ((i : FileIdentity) → Kept (i ∷ seen) (keep_independent (i ∷ seen) files))
        → Kept seen (keep_independent seen (file ∷ files))
    by_identity none e (h, hs) more =
        simp (e, keep_independent)
          (
            (tt, h),
            (
              All-mono _ (ApartFiles file)
                  (λ f _. unknown_first (identity_of file) (identity_of f) e)
                  (keep_independent seen files) h,
              hs,
            ),
          )
    by_identity (some i) e (h, hs) more = elim (Bool-cases (any (identity_eq i) seen)) [
      | inl s ↦ simp (e, s, keep_independent) (h, hs)
      | inr s ↦
          simp (e, s, keep_independent)
            (
              (
                refl,
                All-mono _ _ (λ f n. not_later i seen (identity_of f) n)
                    (keep_independent (i ∷ seen) files) (more i).0,
              ),
              (
                All-mono _ (ApartFiles file)
                    (λ f n. known_first i seen (identity_of file) (identity_of f) e n)
                    (keep_independent (i ∷ seen) files) (more i).0,
                (more i).1,
              ),
            )
    ]

pub keep_independent-apart :
    (files : List ProvenFile) → Pairwise ApartFiles (keep_independent [] files)
keep_independent-apart files = (keep_independent-Kept [] files).1

pub keep_independent-All :
    (P : ProvenFile → Type 0) (seen : List FileIdentity) (files : List ProvenFile)
    → All P files
    → All P (keep_independent seen files)
unfolding keep_independent
keep_independent-All P seen [] h = tt
keep_independent-All P seen (file ∷ files) (h, hs) =
    by_identity (identity_of file) refl (keep_independent-All P seen files hs)
      (λ i. keep_independent-All P (i ∷ seen) files hs)
  where
    by_identity :
        (o : Option FileIdentity)
        → identity_of file ≡ o
        → All P (keep_independent seen files)
        → ((i : FileIdentity) → All P (keep_independent (i ∷ seen) files))
        → All P (keep_independent seen (file ∷ files))
    by_identity none e ks more = simp (e, keep_independent) (h, ks)
    by_identity (some i) e ks more = elim (Bool-cases (any (identity_eq i) seen)) [
      | inl s ↦ simp (e, s, keep_independent) ks
      | inr s ↦ simp (e, s, keep_independent) (h, more i)
    ]

abbrev pub SameName : ComparisonMode → FileMetadataSnapshot → Option Text → Type 0
SameName strict file name = name ≡ some file.normalized_name
SameName content file name = name ≡ none

module _ {E H : Type 0} (ports : Ports E H) (laws : HasherLaws ports) where
  -- The run from t to t' has read the file to its end between two snapshots of it, and the result is
  -- that of these bytes and of these snapshots. Other files may be looked at between.
  pub record ReadThrough (algorithm : HashAlgorithm) (path : FilePath) (t : List Event)
      (r : HashResult) (t' : List Event) : Type 0 where
    pub before : FileMetadataSnapshot
    pub reads : List Read
    pub after : FileMetadataSnapshot
    pub t₁ : List Event
    pub t₂ : List Event
    pub t₃ : List Event
    pub until_before : Observed t t₁
    pub until_reads : Observed (snapped path before ∷ t₁) t₂
    pub until_after : Observed (opened path reads ∷ t₂) t₃
    pub until_end : Observed (snapped path after ∷ t₃) t'
    pub ended : reads_to_end reads ≡ true
    pub digest_of_contents : r.digest ≡ content_digest ports laws algorithm (contents reads)
    pub stable_iff : r.stable ≡ is_stable before after

  pub Hashed-ReadThrough :
      {algorithm : HashAlgorithm} {path : FilePath} {t u : List Event} {r : HashResult}
      {t' : List Event}
      → Observed t u
      → Hashed ports laws algorithm path u r t'
      → ReadThrough algorithm path t r t'
  Hashed-ReadThrough {path = path} {u = u} o h = record {
    before = h.before;
    reads = h.reads;
    after = h.after;
    t₁ = u;
    t₂ = snapped path h.before ∷ u;
    t₃ = opened path h.reads ∷ snapped path h.before ∷ u;
    until_before = o;
    until_reads = unseen;
    until_after = unseen;
    until_end = rw (h.seen) unseen;
    ended = h.ended;
    digest_of_contents = h.digest_of_contents;
    stable_iff = h.stable_iff;
  }

  pub ReadThrough-later :
      {algorithm : HashAlgorithm} {path : FilePath} {t : List Event} {r : HashResult}
      {u v : List Event}
      → Observed u v
      → ReadThrough algorithm path t r u
      → ReadThrough algorithm path t r v
  ReadThrough-later o h = record {
    before = h.before;
    reads = h.reads;
    after = h.after;
    t₁ = h.t₁;
    t₂ = h.t₂;
    t₃ = h.t₃;
    until_before = h.until_before;
    until_reads = h.until_reads;
    until_after = h.until_after;
    until_end = Observed-trans h.until_end o;
    ended = h.ended;
    digest_of_contents = h.digest_of_contents;
    stable_iff = h.stable_iff;
  }

  module _ (mode : ComparisonMode) (candidates : List FileMetadataSnapshot) (t : List Event)
      (t' : List Event) where
    -- A file that may stand in a group of the size, the name and the digests, by the run from t to
    -- t'.
    pub record IsProven (size : ℕ) (name : Option Text) (blake3 sha256 : Text) (file : ProvenFile)
        : Type 0 where
      pub is_candidate : Memᴰ file.metadata candidates
      pub same_size : file.metadata.size_bytes ≡ size
      pub same_name : SameName mode file.metadata name
      pub no_hard_link : is_hard_link file.metadata.link_kind ≡ false
      pub one_link : has_one_link file.metadata.hardlink_count ≡ true
      pub between : List Event
      pub blake3_read : ReadThrough blake3_full file.metadata.path t file.blake3 between
      pub blake3_same : file.blake3.digest ≡ blake3
      pub blake3_stable : file.blake3.stable ≡ true
      pub sha256_read : ReadThrough sha256_full file.metadata.path between file.sha256 t'
      pub sha256_same : file.sha256.digest ≡ sha256
      pub sha256_stable : file.sha256.stable ≡ true

    pub record IsProvenGroup (group : DuplicateGroup) : Type 0 where
      pub two : 2 ≤ length group.members
      pub same_mode : group.mode ≡ mode
      pub proven :
          All
            (λ m. IsProven group.size_bytes group.normalized_name group.blake3 group.sha256 m.file)
            group.members
      pub independent : Pairwise (λ a b. ApartFiles a.file b.file) group.members
      pub undecided : All (λ m. m.action ≡ manual) group.members

    pub new_group-IsProvenGroup :
        (size : ℕ) (name blake3 sha256 : Text) (files : List ProvenFile) (id : ℕ)
        → at_least_two (keep_independent [] files) ≡ true
        → All (IsProven size (name_of_group mode name) blake3 sha256) files
        → IsProvenGroup (new_group mode size name blake3 sha256 (keep_independent [] files) id)
    new_group-IsProvenGroup size name blake3 sha256 files id n h =
        let kept = keep_independent [] files in
        record {
          two = ground (arith, n, length-map member_of kept);
          same_mode = refl;
          proven = All-map _ _ member_of (λ f p. p) kept (keep_independent-All _ [] files h);
          independent = Pairwise-map _ member_of kept (keep_independent-apart files);
          undecided =
              All-map (λ f. Unit {0}) _ member_of (λ f _. refl) kept
                (keep_independent-All _ [] files (All-mono _ _ (λ _ _. tt) files h));
        }

  pub IsProvenGroup-later :
      (mode : ComparisonMode) (candidates : List FileMetadataSnapshot) (t u v : List Event)
      → Observed u v
      → (groups : List DuplicateGroup) → All (IsProvenGroup mode candidates t u) groups
      → All (IsProvenGroup mode candidates t v) groups
  IsProvenGroup-later mode candidates t u v o groups h =
      All-mono _ _
        (λ group g. record {
          two = g.two;
          same_mode = g.same_mode;
          proven =
              All-mono _ _
                (λ m p. record {
                  is_candidate = p.is_candidate;
                  same_size = p.same_size;
                  same_name = p.same_name;
                  no_hard_link = p.no_hard_link;
                  one_link = p.one_link;
                  between = p.between;
                  blake3_read = p.blake3_read;
                  blake3_same = p.blake3_same;
                  blake3_stable = p.blake3_stable;
                  sha256_read = ReadThrough-later o p.sha256_read;
                  sha256_same = p.sha256_same;
                  sha256_stable = p.sha256_stable;
                })
                group.members g.proven;
          independent = g.independent;
          undecided = g.undecided;
        })
        groups h
