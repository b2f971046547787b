-- ===== src/DuplicateDetector/Grouping.antt =====
-- How one stage of crates/dedupe-core/src/duplicate_detector.rs groups its results by their digests.
use safe_duplicate_finder.Base.{
  ◌≡◌, refl, ◌⊎◌, inl, inr, Bool, true, false, List, [], ◌∷◌, ◌++◌, All, All-mono, All-append,
  Pairwise, Text, text_eq, text_eq→eq, text_eq_refl, arith, Bool-cases, if◌then◌else◌,
}
use safe_duplicate_finder.DuplicateDetector.{HashGroups, push_entry}

-- Each entry of the map has the property for its digest.
abbrev pub Holds : {B : Type 0} → (Text → B → Type 0) → HashGroups B → Type 0
Holds P groups = All (λ g. All (P g.0) g.1) groups

pub Holds-mono :
    {B : Type 0} {P Q : Text → B → Type 0}
    → ((d : Text) (x : B) → P d x → Q d x)
    → (groups : HashGroups B) → Holds P groups
    → Holds Q groups
Holds-mono {P = P} {Q} f groups h =
    All-mono _ _ (λ g a. All-mono (P g.0) (Q g.0) (f g.0) g.1 a) groups h

pub push_entry-Holds :
    {B : Type 0} (P : Text → B → Type 0) (digest : Text) (x : B) (groups : HashGroups B)
    → P digest x
    → Holds P groups
    → Holds P (push_entry digest x groups)
unfolding push_entry
push_entry-Holds P digest x [] h hs = ((h, tt), tt)
push_entry-Holds P digest x ((key, xs) ∷ groups) h (k, hs) =
    elim (Bool-cases (text_eq key digest)) [
      | inl e ↦
          rw (e, push_entry)
            (All-append (P key) xs (x ∷ []) k (rw (text_eq→eq key digest e) h, tt), hs)
      | inr e ↦ rw (e, push_entry) (k, push_entry-Holds P digest x groups h hs)
    ]

-- What the map has under a digest.
abbrev pub members_of : {B : Type 0} → Text → HashGroups B → List B
members_of digest [] = []
members_of digest ((key, xs) ∷ groups) = if text_eq key digest then xs else members_of digest groups

pub push_entry-members_of :
    {B : Type 0} (digest d : Text) (x : B) (groups : HashGroups B)
    → members_of d (push_entry digest x groups)
      ≡ (if text_eq digest d then members_of d groups ++ (x ∷ []) else members_of d groups)
unfolding push_entry
push_entry-members_of digest d x [] = refl
push_entry-members_of digest d x ((key, xs) ∷ groups) = elim (Bool-cases (text_eq key digest)) [
  | inl e ↦ rw (e, push_entry, ← text_eq→eq key digest e) (same_key (text_eq key d))
  | inr e ↦
      rw (e, push_entry, push_entry-members_of digest d x groups)
        (other_key (Bool-cases (text_eq key d)) e)
]
  where
    same_key :
        (b : Bool)
        → (if b then xs ++ (x ∷ []) else members_of d groups) ≡ (
            if b
            then (if b then xs else members_of d groups) ++ (x ∷ [])
            else (if b then xs else members_of d groups))
    same_key true = refl
    same_key false = refl

    other_key :
        (text_eq key d ≡ true) ⊎ (text_eq key d ≡ false)
        → text_eq key digest ≡ false
        → (if text_eq key d
            then xs
            else (if text_eq digest d
                then members_of d groups ++ (x ∷ [])
                else members_of d groups))
          ≡ (if text_eq digest d
              then (if text_eq key d then xs else members_of d groups) ++ (x ∷ [])
              else (if text_eq key d then xs else members_of d groups))
    other_key (inr e) f = rw e refl
    other_key (inl e) f = elim (Bool-cases (text_eq digest d)) [
      | inr g ↦ rw (e, g) refl
      | inl g ↦
          absurd (ground (arith, f, text_eq_refl digest, text_eq→eq key d e, text_eq→eq digest d g))
    ]

-- No key occurs twice.
abbrev pub DistinctKeys : {B : Type 0} → HashGroups B → Type 0
DistinctKeys groups = Pairwise (λ g h. text_eq g.0 h.0 ≡ false) groups

push_entry-apart :
    {B : Type 0} (key digest : Text) (x : B) (groups : HashGroups B)
    → text_eq key digest ≡ false
    → All (λ h. text_eq key h.0 ≡ false) groups
    → All (λ h. text_eq key h.0 ≡ false) (push_entry digest x groups)
unfolding push_entry
push_entry-apart key digest x [] n hs = (n, tt)
push_entry-apart key digest x ((other, xs) ∷ groups) n (h, hs) =
    elim (Bool-cases (text_eq other digest)) [
      | inl e ↦ rw (e, push_entry) (h, hs)
      | inr e ↦ rw (e, push_entry) (h, push_entry-apart key digest x groups n hs)
    ]

pub push_entry-DistinctKeys :
    {B : Type 0} (digest : Text) (x : B) (groups : HashGroups B)
    → DistinctKeys groups
    → DistinctKeys (push_entry digest x groups)
unfolding push_entry
push_entry-DistinctKeys digest x [] h = (tt, tt)
push_entry-DistinctKeys digest x ((key, xs) ∷ groups) (h, hs) =
    elim (Bool-cases (text_eq key digest)) [
      | inl e ↦ rw (e, push_entry) (h, hs)
      | inr e ↦
          rw (e, push_entry)
            (push_entry-apart key digest x groups e h, push_entry-DistinctKeys digest x groups hs)
    ]
