-- ===== src/Base/Lists.antt =====
-- Lists measured by native numbers, tests on all members, and texts as lists of bytes.
use Prim.Native.Nat.{ℕ, zero, suc, ◌+◌}
use mathlib.Core.Path.{◌≡◌, refl, ap, ◌∙◌}
use mathlib.Core.Logic.{◌↔◌, inl, inr}
use mathlib.Core.Bool.{Bool, true, false, ◌&&◌, ◌||◌}
use mathlib.Core.Option.{Option, none, some}
use mathlib.Core.List.{List, [], ◌∷◌, ◌++◌, map}
use mathlib.Core.List.{Memᴰ, Permᴰ}
use mathlib.Core.List.Memᴰ.{head, tail}
use native.Mathlib.Omega.{arith}
use safe_duplicate_finder.Base.Tests.{◌==◌, if◌then◌else◌, Bool-cases}

module _ {ℓ} {A : Type ℓ} where
  abbrev pub length : List A → ℕ
  length [] = 0
  length (_ ∷ xs) = suc (length xs)

  abbrev pub get_elem? : List A → ℕ → Option A
  get_elem? [] i = none
  get_elem? (x ∷ xs) zero = some x
  get_elem? (x ∷ xs) (suc i) = get_elem? xs i

  abbrev pub count : (A → Bool) → List A → ℕ
  count p [] = 0
  count p (x ∷ xs) = (if p x then 1 else 0) + count p xs

  abbrev pub all : (A → Bool) → List A → Bool
  all p [] = true
  all p (x ∷ xs) = p x && all p xs

  abbrev pub any : (A → Bool) → List A → Bool
  any p [] = false
  any p (x ∷ xs) = p x || any p xs

  abbrev pub All {κ} : (A → Type κ) → List A → Type κ
  All P [] = Unit
  All P (x ∷ xs) = P x × All P xs

  -- Every member stands in the relation to each after it.
  abbrev pub Pairwise {κ} : (A → A → Type κ) → List A → Type κ
  Pairwise R [] = Unit
  Pairwise R (x ∷ xs) = All (R x) xs × Pairwise R xs

  -- `iter().filter(p)`
  abbrev pub keep_if : (A → Bool) → List A → List A
  keep_if p [] = []
  keep_if p (x ∷ xs) = let rest = keep_if p xs in if p x then x ∷ rest else rest

  pub length-append : (xs ys : List A) → length (xs ++ ys) ≡ length xs + length ys
  length-append [] ys = omega arith
  length-append (x ∷ xs) ys = omega (arith, length-append xs ys)

  pub count-append : (p : A → Bool) (xs ys : List A) → count p (xs ++ ys) ≡ count p xs + count p ys
  count-append p [] ys = omega arith
  count-append p (x ∷ xs) ys = ground (arith, count-append p xs ys)

  pub get_elem?-append :
      (done : List A) (x : A) (xs : List A) → get_elem? (done ++ (x ∷ xs)) (length done) ≡ some x
  get_elem?-append [] x xs = refl
  get_elem?-append (d ∷ done) x xs = get_elem?-append done x xs

  pub length-snoc : (xs : List A) (x : A) → length (xs ++ (x ∷ [])) ≡ suc (length xs)
  length-snoc xs x = length-append xs (x ∷ []) ∙ omega arith

  pub All-append {κ} : (P : A → Type κ) (xs ys : List A) → All P xs → All P ys → All P (xs ++ ys)
  All-append P [] ys hx hy = hy
  All-append P (x ∷ xs) ys hx hy = (hx.0, All-append P xs ys hx.1 hy)

pub length-map {ℓ κ} :
    {A : Type ℓ} {B : Type κ} (f : A → B) (xs : List A) → length (map f xs) ≡ length xs
length-map f [] = refl
length-map f (x ∷ xs) = ap suc (length-map f xs)

pub All-map {ℓ κ μ} :
    {A : Type ℓ} {B : Type κ} (P : A → Type μ) (Q : B → Type μ) (f : A → B)
    → ((a : A) → P a → Q (f a))
    → (xs : List A) → All P xs
    → All Q (map f xs)
All-map P Q f h [] _ = tt
All-map P Q f h (x ∷ xs) hx = (h x hx.0, All-map P Q f h xs hx.1)

pub All-mono {ℓ κ} :
    {A : Type ℓ} (P Q : A → Type κ) → ((a : A) → P a → Q a) → (xs : List A) → All P xs → All Q xs
All-mono P Q h [] _ = tt
All-mono P Q h (x ∷ xs) hx = (h x hx.0, All-mono P Q h xs hx.1)

-- A text or a digest, as its bytes.
abbrev pub Text : Type 0
Text = List ℕ

unfoldable pub text_eq : Text → Text → Bool
text_eq [] [] = true
text_eq (a ∷ xs) (b ∷ ys) = a == b && text_eq xs ys
text_eq _ _ = false

pub text_eq_refl : (a : Text) → text_eq a a ≡ true
unfolding text_eq
text_eq_refl [] = refl
text_eq_refl (a ∷ xs) = ground (arith, text_eq_refl xs)

pub text_eq→eq : (a b : Text) → text_eq a b ≡ true → a ≡ b
unfolding text_eq
text_eq→eq [] [] h = refl
text_eq→eq [] (b ∷ ys) h = ground arith
text_eq→eq (a ∷ xs) [] h = ground arith
text_eq→eq (a ∷ xs) (b ∷ ys) h = ground (arith, text_eq→eq xs ys)

pub text_eq_iff : (a b : Text) → (text_eq a b ≡ true) ↔ (a ≡ b)
text_eq_iff a b = (text_eq→eq a b, λ e. rw e (text_eq_refl b))

-- A sequence of states, each of which the one before it may step to.
abbrev pub IsPath : {S : Type 0} → (S → S → Bool) → S → List S → Type 0
IsPath step s [] = Unit
IsPath step s (next ∷ rest) = (step s next ≡ true) × IsPath step next rest

pub All-at {ℓ κ} : {A : Type ℓ} (P : A → Type κ) (x : A) (xs : List A) → Memᴰ x xs → All P xs → P x
All-at P x [] m h = elim m [ ]
All-at P x (y ∷ ys) (head e) (h, _) = rw e h
All-at P x (y ∷ ys) (tail m) (_, hs) = All-at P x ys m hs

pub All-self {ℓ} : {A : Type ℓ} (xs : List A) → All (λ x. Memᴰ x xs) xs
All-self [] = tt
All-self (x ∷ xs) = (head refl, All-mono _ _ (λ _ m. tail m) xs (All-self xs))

pub count-map {ℓ κ} :
    {A : Type ℓ} {B : Type κ} (p : B → Bool) (f : A → B) (xs : List A)
    → count p (map f xs) ≡ count (λ x. p (f x)) xs
count-map p f [] = refl
count-map p f (x ∷ xs) = omega (arith, count-map p f xs)

-- The members that a filter keeps are members, and pass its test.
pub keep_if-All :
    {A : Type 0} (p : A → Bool) (P : A → Type 0) (xs : List A)
    → All P xs
    → All (λ x. P x × (p x ≡ true)) (keep_if p xs)
keep_if-All p P [] h = tt
keep_if-All p P (x ∷ xs) (h, hs) = elim (Bool-cases (p x)) [
  | inl e ↦ rw e ((h, e), keep_if-All p P xs hs)
  | inr e ↦ rw e (keep_if-All p P xs hs)
]

pub All-Permᴰ : {A : Type 0} (P : A → Type 0) {xs ys : List A} → Permᴰ xs ys → All P xs → All P ys
All-Permᴰ P Permᴰ.nil h = tt
All-Permᴰ P (Permᴰ.cons e d) (h, hs) = (rw e at h, All-Permᴰ P d hs)
All-Permᴰ P (Permᴰ.swap e f) (h, (k, hs)) = (rw f at k, (rw e at h, hs))
All-Permᴰ P (Permᴰ.trans d d') h = All-Permᴰ P d' (All-Permᴰ P d h)

pub Pairwise-mono {ℓ κ} :
    {A : Type ℓ} (R Q : A → A → Type κ)
    → ((a b : A) → R a b → Q a b)
    → (xs : List A) → Pairwise R xs
    → Pairwise Q xs
Pairwise-mono R Q f [] h = tt
Pairwise-mono R Q f (x ∷ xs) (h, hs) = (All-mono (R x) (Q x) (f x) xs h, Pairwise-mono R Q f xs hs)

pub Pairwise-map {ℓ κ μ} :
    {A : Type ℓ} {B : Type κ} (R : B → B → Type μ) (f : A → B) (xs : List A)
    → Pairwise (λ a b. R (f a) (f b)) xs
    → Pairwise R (map f xs)
Pairwise-map R f [] h = tt
Pairwise-map R f (x ∷ xs) (h, hs) = (All-map _ (R (f x)) f (λ a r. r) xs h, Pairwise-map R f xs hs)
