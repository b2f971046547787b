-- ===== src/Ports/Hoare.antt =====
-- Postconditions of an action on its two ways to end, and the rule for each construct.
use safe_duplicate_finder.Base.{Bool, true, false, ◌≡◌, refl, Option, none, some}
use safe_duplicate_finder.Error.{DedupeError, Result, ok, err}
use safe_duplicate_finder.Ports.Monad.{
  Action, continue_with, raise_if, or_raise, branch_with, Holding, lift, pure, raise, ◌>>◌,
  with_held,
}

-- `Q` of the value and the state if it returns, `X` of the error and the state if it fails.
abbrev pub Ends :
    {S A : Type 0} → (A → S → Type 0) → (DedupeError → S → Type 0) → Result A × S → Type 0
Ends Q X (ok a, s) = Q a s
Ends Q X (err e, s) = X e s

pub record Post {S A : Type 0} (Q : A → S → Type 0) (X : DedupeError → S → Type 0)
    (r : Result A × S) : Type 0 where
  pub ends : Ends Q X r

pub returns :
    {S A : Type 0} {Q : A → S → Type 0} {X : DedupeError → S → Type 0} {a : A} {s : S}
    → Q a s
    → Post Q X (ok a, s)
returns h = record { ends = h }

pub fails :
    {S A : Type 0} {Q : A → S → Type 0} {X : DedupeError → S → Type 0} {e : DedupeError} {s : S}
    → X e s
    → Post Q X (err e, s)
fails h = record { ends = h }

module _ {S A B : Type 0} {Q : B → S → Type 0} {X : DedupeError → S → Type 0} where
  pub Post-bind :
      (f : A → Action S B) (r : Result A × S)
      → Post (λ a s. Post Q X (f a s)) X r
      → Post Q X (continue_with r f)
  Post-bind f (ok a, s) h = h.ends
  Post-bind f (err e, s) h = record { ends = h.ends }

  pub Post-branch :
      (f : A → Action S B) (g : DedupeError → Action S B) (r : Result A × S)
      → Post (λ a s. Post Q X (f a s)) (λ e s. Post Q X (g e s)) r
      → Post Q X (branch_with r f g)
  Post-branch f g (ok a, s) h = h.ends
  Post-branch f g (err e, s) h = h.ends

module _ {S A : Type 0} {Q : A → S → Type 0} {X : DedupeError → S → Type 0} where
  pub Post-mono :
      {Q' : A → S → Type 0} {X' : DedupeError → S → Type 0}
      → (r : Result A × S) → Post Q' X' r
      → ((a : A) (s : S) → Q' a s → Q a s)
      → ((e : DedupeError) (s : S) → X' e s → X e s)
      → Post Q X r
  Post-mono (ok a, s) h f g = record { ends = f a s h.ends }
  Post-mono (err e, s) h f g = record { ends = g e s h.ends }

-- Run `m`, of which `Q'` and `X'` are known, and go on with `f`.
pub Post-then :
    {S A B : Type 0} {Q : B → S → Type 0} {X : DedupeError → S → Type 0} {Q' : A → S → Type 0}
    {X' : DedupeError → S → Type 0} (f : A → Action S B) (r : Result A × S)
    → Post Q' X' r
    → ((a : A) (s : S) → Q' a s → Post Q X (f a s))
    → ((e : DedupeError) (s : S) → X' e s → X e s)
    → Post Q X (continue_with r f)
Post-then f (ok a, s) h k x = k a s h.ends
Post-then f (err e, s) h k x = record { ends = x e s h.ends }

-- Run `m`; if it fails, run the handler `g` and fail all the same, or else go on with `f`.
pub Post-recover :
    {S A B : Type 0} {Q : B → S → Type 0} {X : DedupeError → S → Type 0} {Q' : A → S → Type 0}
    {X' : DedupeError → S → Type 0} (f : A → Action S B) (g : DedupeError → Action S (Unit {0}))
    (r : Result A × S)
    → Post Q' X' r
    → ((a : A) (s : S) → Q' a s → Post Q X (f a s))
    → ((e : DedupeError) (s : S) → X' e s → Post (λ _ s'. X e s') X (g e s))
    → Post Q X (continue_with (branch_with r pure (λ e. g e >> raise e)) f)
Post-recover f g (ok a, s) h k x = k a s h.ends
Post-recover f g (err e, s) h k x =
    Post-bind f (continue_with (g e s) (λ _. raise e))
      (Post-then (λ _. raise e) (g e s) (x e s h.ends) (λ _ s' y. fails y) (λ _ _ y. y))

-- An early return, `if b { return Err(e) }`, and the rest.
pub Post-guard :
    {S B : Type 0} {Q : B → S → Type 0} {X : DedupeError → S → Type 0} (f : Unit {0} → Action S B)
    (b : Bool) (e : DedupeError) (s : S)
    → (b ≡ false → Post Q X (f tt s))
    → (b ≡ true → X e s)
    → Post Q X (continue_with (raise_if b e s) f)
unfolding raise_if
Post-guard f true e s k x = fails (x refl)
Post-guard f false e s k x = k refl

-- What a lifted action does to the rest of the state; what is held stays.
pub Post-lift :
    {Y S A : Type 0} {Q : A → S → Type 0} {X : DedupeError → S → Type 0} (m : Action S A)
    (s : Holding Y S)
    → Post Q X (m s.rest)
    → Post
        (λ a s'. (s'.held ≡ s.held) × Q a s'.rest)
        (λ e s'. (s'.held ≡ s.held) × X e s'.rest)
        (lift m s)
Post-lift {Y} {S} {A} {Q} {X} m s h = from_result (m s.rest).0 (m s.rest).1 h
  where
    from_result :
        (r : Result A) (t : S)
        → Post Q X (r, t)
        → Post {S = Holding Y S}
            (λ a s'. (s'.held ≡ s.held) × Q a s'.rest)
            (λ e s'. (s'.held ≡ s.held) × X e s'.rest)
            (r, record s { rest = t })
    from_result (ok a) t h = returns (refl, h.ends)
    from_result (err e) t h = fails (refl, h.ends)

-- A test at the end of an action.
pub Post-check :
    {S : Type 0} {Q : Unit {0} → S → Type 0} {X : DedupeError → S → Type 0} (b : Bool)
    (e : DedupeError) (s : S)
    → (b ≡ false → Q tt s)
    → (b ≡ true → X e s)
    → Post Q X (raise_if b e s)
unfolding raise_if
Post-check true e s k x = fails (x refl)
Post-check false e s k x = returns (k refl)

pub raise_if-Post :
    {S : Type 0} (b : Bool) (e : DedupeError) (s : S)
    → Post (λ _ s'. (b ≡ false) × (s' ≡ s)) (λ _ s'. s' ≡ s) (raise_if b e s)
raise_if-Post b e s = Post-check b e s (λ h. (h, refl)) (λ _. refl)

-- `option.ok_or_else(e)?` and the rest.
pub Post-or_raise :
    {S A B : Type 0} {Q : B → S → Type 0} {X : DedupeError → S → Type 0} (f : A → Action S B)
    (o : Option A) (e : DedupeError) (s : S)
    → ((a : A) → o ≡ some a → Post Q X (f a s))
    → (o ≡ none → X e s)
    → Post Q X (continue_with (or_raise o e s) f)
unfolding or_raise
Post-or_raise f (some a) e s k x = k a refl
Post-or_raise f none e s k x = fails (x refl)

-- A block that holds a value of its own.
pub Post-with_held :
    {Y S A : Type 0} {Q : A → S → Type 0} {X : DedupeError → S → Type 0} (y : Y)
    (m : Action (Holding Y S) A) (s : S)
    → Post (λ a s'. Q a s'.rest) (λ e s'. X e s'.rest) (m (record { held = y; rest = s }))
    → Post Q X (with_held y m s)
Post-with_held {Y} {S} {A} {Q} {X} y m s h =
    from_result (m (record { held = y; rest = s })).0 (m (record { held = y; rest = s })).1 h
  where
    from_result :
        (r : Result A) (t : Holding Y S)
        → Post (λ a s'. Q a s'.rest) (λ e s'. X e s'.rest) (r, t)
        → Post Q X (r, t.rest)
    from_result (ok a) t g = returns g.ends
    from_result (err e) t g = fails g.ends

-- `result?` and the rest.
pub Post-result :
    {S A B : Type 0} {Q : B → S → Type 0} {X : DedupeError → S → Type 0} (f : A → Action S B)
    (r : Result A) (s : S)
    → ((a : A) → r ≡ ok a → Post Q X (f a s))
    → ((e : DedupeError) → r ≡ err e → X e s)
    → Post Q X (continue_with (r, s) f)
Post-result f (ok a) s k x = k a refl
Post-result f (err e) s k x = fails (x e refl)
