-- ===== src/Ports/Monad.antt =====
-- Stateful code that may fail: `?`, early returns and error handlers, over any state. What was
-- done before an error stays done.
use safe_duplicate_finder.Base.{Bool, true, false, Option, none, some}
use safe_duplicate_finder.Error.{DedupeError, Result, ok, err}

abbrev pub Action : Type 0 → Type 0 → Type 0
Action S A = S → Result A × S

abbrev pub continue_with : {S A B : Type 0} → Result A × S → (A → Action S B) → Result B × S
continue_with (ok a, s) f = f a s
continue_with (err e, s) f = (err e, s)

infixl 5 ◌>>=◌ ◌>>◌
abbrev pub ◌>>=◌ : {S A B : Type 0} → Action S A → (A → Action S B) → Action S B
◌>>=◌ m f s = continue_with (m s) f

abbrev pub ◌>>◌ : {S B : Type 0} → Action S (Unit {0}) → Action S B → Action S B
m >> k = m >>= λ _. k

abbrev pub pure : {S A : Type 0} → A → Action S A
pure a s = (ok a, s)

abbrev pub raise : {S A : Type 0} → DedupeError → Action S A
raise e s = (err e, s)

abbrev pub lift_result : {S A : Type 0} → Result A → Action S A
lift_result r s = (r, s)

-- `if bad { return Err(e) }`
unfoldable pub raise_if : {S : Type 0} → Bool → DedupeError → Action S (Unit {0})
raise_if true e = raise e
raise_if false e = pure tt

unfoldable pub or_raise : {S A : Type 0} → Option A → DedupeError → Action S A
or_raise none e = raise e
or_raise (some a) e = pure a

-- `match m { Ok(a) => f a, Err(e) => h e }`
abbrev pub branch_with :
    {S A B : Type 0} → Result A × S → (A → Action S B) → (DedupeError → Action S B) → Result B × S
branch_with (ok a, s) f h = f a s
branch_with (err e, s) f h = h e s

abbrev pub branch :
    {S A B : Type 0} → Action S A → (A → Action S B) → (DedupeError → Action S B) → Action S B
branch m f h s = branch_with (m s) f h

-- `if let Err(e) = m { h(e)?; return Err(e) }`
abbrev pub on_error : {S A : Type 0} → Action S A → (DedupeError → Action S (Unit {0})) → Action S A
on_error m h = branch m pure (λ e. h e >> raise e)

abbrev pub when : {S : Type 0} → Bool → Action S (Unit {0}) → Action S (Unit {0})
when true m = m
when false m = pure tt

-- A `&mut` argument beside the rest of the state.
pub record Holding (X S : Type 0) : Type 0 where
  pub held : X
  pub rest : S

abbrev pub lift : {X S A : Type 0} → Action S A → Action (Holding X S) A
lift m s = ((m s.rest).0, record s { rest = (m s.rest).1 })

abbrev pub get_held : {X S : Type 0} → Action (Holding X S) X
get_held s = (ok s.held, s)

abbrev pub put_held : {X S : Type 0} → X → Action (Holding X S) (Unit {0})
put_held x s = (ok tt, record s { held = x })

abbrev pub get_state : {S : Type 0} → Action S S
get_state s = (ok s, s)

abbrev pub put_state : {S : Type 0} → S → Action S (Unit {0})
put_state s' s = (ok tt, s')

-- A block with a `let mut` of its own, which is gone when it ends.
abbrev pub with_held : {X S A : Type 0} → X → Action (Holding X S) A → Action S A
with_held x m s = let ended = m (record { held = x; rest = s }) in (ended.0, ended.1.rest)
