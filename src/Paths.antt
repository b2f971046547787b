-- ===== src/Paths.antt =====
-- `std::path::PathBuf`, as far as the program reads it: the text, and the components that the
-- platform's parser finds in it. Paths are compared by their components.
use Prim.Native.Nat.{compare, Ordering}
use safe_duplicate_finder.Base.{
  ℕ, then_with, cmp_list, cmp_text, IsOrder, by_key-IsOrder, then_with-IsOrder, cmp_list-IsOrder,
  compare-IsOrder, ◌≡◌, refl, Bool, true, false, ◌&&◌, Option, none, some, List, [], ◌∷◌, ◌++◌,
  Text, text_eq, text_eq_refl, text_eq→eq, arith,
}

-- `std::path::Component`
pub data Component : Type 0 where
  prefix : Text → Component
  root_dir : Component
  cur_dir : Component
  parent_dir : Component
  normal : Text → Component

pub record FilePath : Type 0 where
  pub os_str : Text
  pub components : List Component

unfoldable pub component_eq : Component → Component → Bool
unfolding text_eq
component_eq (prefix a) (prefix b) = text_eq a b
component_eq root_dir root_dir = true
component_eq cur_dir cur_dir = true
component_eq parent_dir parent_dir = true
component_eq (normal a) (normal b) = text_eq a b
component_eq _ _ = false

unfoldable pub components_eq : List Component → List Component → Bool
unfolding component_eq
components_eq [] [] = true
components_eq (a ∷ xs) (b ∷ ys) = component_eq a b && components_eq xs ys
components_eq _ _ = false

-- `left == right` on paths
unfoldable pub path_eq : FilePath → FilePath → Bool
unfolding components_eq
path_eq p q = components_eq p.components q.components

-- `Path::strip_prefix`, on the components
unfoldable pub strip_prefix : List Component → List Component → Option (List Component)
unfolding component_eq
strip_prefix [] cs = some cs
strip_prefix (r ∷ rs) [] = none
strip_prefix (r ∷ rs) (c ∷ cs) = elim (component_eq r c) [
  | true ↦ strip_prefix rs cs
  | false ↦ none
]

-- `Path::starts_with`
unfoldable pub starts_with : FilePath → FilePath → Bool
unfolding strip_prefix
starts_with p root = elim (strip_prefix root.components p.components) [
  | none ↦ false
  | some _ ↦ true
]

pub component_eq_refl : (c : Component) → component_eq c c ≡ true
unfolding component_eq
component_eq_refl (prefix a) = text_eq_refl a
component_eq_refl root_dir = refl
component_eq_refl cur_dir = refl
component_eq_refl parent_dir = refl
component_eq_refl (normal a) = text_eq_refl a

pub component_eq→eq : (c d : Component) → component_eq c d ≡ true → c ≡ d
unfolding component_eq
component_eq→eq (prefix a) (prefix b) h = ground (arith, text_eq→eq a b)
component_eq→eq (normal a) (normal b) h = ground (arith, text_eq→eq a b)
component_eq→eq root_dir root_dir h = refl
component_eq→eq c d h = ground arith

pub components_eq_refl : (cs : List Component) → components_eq cs cs ≡ true
unfolding components_eq
components_eq_refl [] = refl
components_eq_refl (c ∷ cs) = ground (arith, component_eq_refl c, components_eq_refl cs)

pub components_eq→eq : (cs ds : List Component) → components_eq cs ds ≡ true → cs ≡ ds
unfolding components_eq
components_eq→eq [] [] h = refl
components_eq→eq [] (d ∷ ds) h = ground arith
components_eq→eq (c ∷ cs) [] h = ground arith
components_eq→eq (c ∷ cs) (d ∷ ds) h = ground (arith, component_eq→eq c d, components_eq→eq cs ds)

pub path_eq_refl : (p : FilePath) → path_eq p p ≡ true
unfolding path_eq
path_eq_refl p = components_eq_refl p.components

pub path_eq→components : (p q : FilePath) → path_eq p q ≡ true → p.components ≡ q.components
unfolding path_eq
path_eq→components p q h = components_eq→eq _ _ h

-- A path that has the root's components in front is taken apart at the root.
pub strip_prefix-append : (rs cs : List Component) → strip_prefix rs (rs ++ cs) ≡ some cs
unfolding strip_prefix
strip_prefix-append [] cs = refl
strip_prefix-append (r ∷ rs) cs = ground (arith, component_eq_refl r, strip_prefix-append rs cs)

pub append-strip_prefix : (rs cs ds : List Component) → strip_prefix rs cs ≡ some ds → cs ≡ rs ++ ds
unfolding strip_prefix
append-strip_prefix [] cs ds h = ground arith
append-strip_prefix (r ∷ rs) [] ds h = ground arith
append-strip_prefix (r ∷ rs) (c ∷ cs) ds h =
    ground (arith, component_eq→eq r c, append-strip_prefix rs cs ds)

-- `left.cmp(right)` on paths: component by component. (Two prefixes are compared as texts.)
abbrev component_rank : Component → ℕ
component_rank (prefix _) = 0
component_rank root_dir = 1
component_rank cur_dir = 2
component_rank parent_dir = 3
component_rank (normal _) = 4

abbrev component_text : Component → Text
component_text (prefix a) = a
component_text (normal a) = a
component_text _ = []

unfoldable pub cmp_path : FilePath → FilePath → Ordering
cmp_path p q =
    cmp_list
      (λ a b.
        then_with (compare (component_rank a) (component_rank b))
          (cmp_text (component_text a) (component_text b)))
      p.components q.components

pub cmp_path-IsOrder : IsOrder cmp_path
unfolding cmp_path
cmp_path-IsOrder =
    by_key-IsOrder _ (λ (p : FilePath). p.components)
      (cmp_list-IsOrder _ (
        then_with-IsOrder _ _ (by_key-IsOrder compare component_rank compare-IsOrder)
          (by_key-IsOrder cmp_text component_text (cmp_list-IsOrder compare compare-IsOrder))))
