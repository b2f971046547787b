-- ===== src/PathNormalization/Lexical.antt =====
-- The components that crates/dedupe-core/src/path_normalization.rs leaves.
use mathlib.Core.List.{append_assoc, append-nil}
use safe_duplicate_finder.Base.{
  ◌≡◌, refl, ◌∙◌, ap, sym, Bool, true, false, some, List, [], ◌∷◌, ◌++◌, All, All-append, arith,
  Option-cases, inl, inr,
}
use safe_duplicate_finder.Paths.{Component, prefix, root_dir, cur_dir, parent_dir, normal}
use safe_duplicate_finder.Error.{ok}
use safe_duplicate_finder.PathNormalization.{pop, lexical_components}

abbrev pub is_plain : Component → Bool
is_plain cur_dir = false
is_plain parent_dir = false
is_plain _ = true

abbrev pub ArePlain : List Component → Type 0
ArePlain cs = All (λ c. is_plain c ≡ true) cs

some_inj : {A : Type 0} {a b : A} → some a ≡ some b → a ≡ b
some_inj h = cc

ok_inj : {A : Type 0} {a b : A} → ok a ≡ ok b → a ≡ b
ok_inj h = cc

pop-ArePlain : (cs front : List Component) → pop cs ≡ some front → ArePlain cs → ArePlain front
unfolding pop
pop-ArePlain [] front e h = absurd (ground (arith, e))
pop-ArePlain (c ∷ []) [] e h = tt
pop-ArePlain (c ∷ []) (x ∷ xs) e h = absurd (ground (arith, e))
pop-ArePlain (c ∷ d ∷ cs) front e (h, hs) = elim (Option-cases (pop (d ∷ cs))) [
  | inl n ↦ absurd (let e' = (rw n at e) in ground (arith, e'))
  | inr (rest, n) ↦
      let e' : some (c ∷ rest) ≡ some front = (rw n at e) in
      rw (← some_inj e') (h, pop-ArePlain (d ∷ cs) rest n hs)
]

lexical_components-ArePlain :
    (normalized cs n : List Component)
    → ArePlain normalized
    → lexical_components normalized cs ≡ ok n
    → ArePlain n
unfolding lexical_components
lexical_components-ArePlain normalized [] n h e = rw (← ok_inj e) h
lexical_components-ArePlain normalized (cur_dir ∷ cs) n h e =
    lexical_components-ArePlain normalized cs n h e
lexical_components-ArePlain normalized (parent_dir ∷ cs) n h e =
    elim (Option-cases (pop normalized)) [
      | inl p ↦ absurd (let e' = (rw (p, lexical_components) at e) in ground (arith, e'))
      | inr (front, p) ↦
          lexical_components-ArePlain front cs n (pop-ArePlain normalized front p h)
            (rw (p, lexical_components) at e)
    ]
lexical_components-ArePlain normalized (prefix t ∷ cs) n h e =
    lexical_components-ArePlain (normalized ++ (prefix t ∷ [])) cs n
      (All-append _ normalized _ h (refl, tt)) e
lexical_components-ArePlain normalized (root_dir ∷ cs) n h e =
    lexical_components-ArePlain (normalized ++ (root_dir ∷ [])) cs n
      (All-append _ normalized _ h (refl, tt)) e
lexical_components-ArePlain normalized (normal t ∷ cs) n h e =
    lexical_components-ArePlain (normalized ++ (normal t ∷ [])) cs n
      (All-append _ normalized _ h (refl, tt)) e

pushed :
    (normalized : List Component) (c : Component) (cs : List Component)
    → lexical_components (normalized ++ (c ∷ [])) cs ≡ ok ((normalized ++ (c ∷ [])) ++ cs)
    → lexical_components (normalized ++ (c ∷ [])) cs ≡ ok (normalized ++ c ∷ cs)
pushed normalized c cs e = e ∙ ap ok (append_assoc normalized (c ∷ []) cs)

plain_same :
    (normalized cs : List Component)
    → ArePlain cs
    → lexical_components normalized cs ≡ ok (normalized ++ cs)
unfolding lexical_components
plain_same normalized [] h = ap ok (sym (append-nil normalized))
plain_same normalized (cur_dir ∷ cs) h = absurd (ground (arith, h.0))
plain_same normalized (parent_dir ∷ cs) h = absurd (ground (arith, h.0))
plain_same normalized (prefix t ∷ cs) (_, h) =
    pushed normalized (prefix t) cs (plain_same (normalized ++ (prefix t ∷ [])) cs h)
plain_same normalized (root_dir ∷ cs) (_, h) =
    pushed normalized root_dir cs (plain_same (normalized ++ (root_dir ∷ [])) cs h)
plain_same normalized (normal t ∷ cs) (_, h) =
    pushed normalized (normal t) cs (plain_same (normalized ++ (normal t ∷ [])) cs h)

-- What the lexical normalization leaves has no `.` and no `..`, and is its own normal form.
pub lexical_components-idempotent :
    (cs n : List Component)
    → lexical_components [] cs ≡ ok n
    → ArePlain n × (lexical_components [] n ≡ ok n)
lexical_components-idempotent cs n e =
    let plain = lexical_components-ArePlain [] cs n tt e in (plain, plain_same [] n plain)
