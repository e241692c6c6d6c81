-- ===== src/Std/FilePath.antt =====
-- `std::path` on Unix. A path is the list of its components, by which `Path` compares two paths,
-- takes a prefix and finds a parent; `components` reads them from the text.
use marstack_container.Prelude.{
  Bool, true, false, ◌≡◌, ◌≢◌, refl, Option, none, some, List, [], ◌∷◌, ◌++◌, arith, if◌then◌else◌,
  is_empty, init, ◌&&◌, map,
}
use marstack_container.Std.Text.{
  Text, codes, text_eq, text_eq_self, eq_of_text_eq, split, join as join_text,
}

-- `std::path::Component`; the prefixes of Windows do not occur.
pub data Component : Type 0 where
  root_dir cur_dir parent_dir : Component
  normal : Text → Component

abbrev pub FilePath : Type 0
FilePath = List Component

unfoldable pub component_eq : Component → Component → Bool
component_eq root_dir root_dir = true
component_eq cur_dir cur_dir = true
component_eq parent_dir parent_dir = true
component_eq (normal s) (normal t) = text_eq s t
component_eq _ _ = false

-- `Path::eq`.
unfoldable pub path_eq : FilePath → FilePath → Bool
unfolding component_eq
path_eq [] [] = true
path_eq [] (y ∷ ys) = false
path_eq (x ∷ xs) [] = false
path_eq (x ∷ xs) (y ∷ ys) = component_eq x y && path_eq xs ys

-- `p.starts_with(base)`, component by component.
unfoldable pub starts_with : FilePath → FilePath → Bool
unfolding component_eq
starts_with xs [] = true
starts_with [] (y ∷ ys) = false
starts_with (x ∷ xs) (y ∷ ys) = component_eq x y && starts_with xs ys

-- `p.strip_prefix(base)`.
unfoldable pub strip_prefix : FilePath → FilePath → Option FilePath
unfolding component_eq
strip_prefix xs [] = some xs
strip_prefix [] (y ∷ ys) = none
strip_prefix (x ∷ xs) (y ∷ ys) =
    let rest = strip_prefix xs ys in if component_eq x y then rest else none

abbrev pub is_root : Component → Bool
is_root root_dir = true
is_root _ = false

unfoldable pub is_absolute : FilePath → Bool
is_absolute [] = false
is_absolute (c ∷ cs) = is_root c

-- The component that a piece between separators stands for; `.` counts only at the start.
unfoldable pub piece : Bool → Text → FilePath
piece first s =
    if is_empty s
    then []
    else if text_eq s (codes ".")
    then (if first then cur_dir ∷ [] else [])
    else if text_eq s (codes "..")
    then parent_dir ∷ []
    else normal s ∷ []

unfoldable pub pieces : List Text → FilePath
unfolding piece
pieces [] = []
pieces (s ∷ ss) = piece false s ++ pieces ss

unfoldable pub from_pieces : List Text → FilePath
unfolding pieces
from_pieces [] = []
from_pieces (s ∷ []) = piece true s
from_pieces (s ∷ t ∷ ss) =
    if is_empty s then root_dir ∷ pieces (t ∷ ss) else piece true s ++ pieces (t ∷ ss)

-- `Path::new(s).components()`.
unfoldable pub components : Text → FilePath
unfolding from_pieces split
components s = from_pieces (split b'/' s)

-- An ordinary name, neither the root nor `.` nor `..`.
abbrev pub IsNormal : Component → Type 0
IsNormal (normal s) = Unit
IsNormal _ = ⊥

abbrev without_cur : FilePath → FilePath
without_cur (cur_dir ∷ cs) = cs
without_cur cs = cs

-- `base.join(p)` and `base.push(p)`: an absolute path replaces the base.
unfoldable pub join : FilePath → FilePath → FilePath
unfolding is_absolute
join [] p = p
join (b ∷ bs) p = if is_absolute p then p else (b ∷ bs) ++ without_cur p

-- `PathBuf::pop`: the root has no parent.
unfoldable pub pop : FilePath → FilePath
pop [] = []
pop (root_dir ∷ []) = root_dir ∷ []
pop (c ∷ cs) = init (c ∷ cs)

-- `Path::parent`.
unfoldable pub parent : FilePath → Option FilePath
parent [] = none
parent (root_dir ∷ []) = none
parent (c ∷ cs) = some (init (c ∷ cs))

unfoldable pub component_text : Component → Text
component_text root_dir = []
component_text cur_dir = codes "."
component_text parent_dir = codes ".."
component_text (normal s) = s

-- `p.display().to_string()`, with one separator between components.
unfoldable pub display : FilePath → Text
unfolding component_text join_text
display [] = []
display (root_dir ∷ []) = codes "/"
display (c ∷ cs) = join_text (codes "/") (map component_text (c ∷ cs))

component_eq_self : (c : Component) → component_eq c c ≡ true
unfolding component_eq
component_eq_self root_dir = refl
component_eq_self cur_dir = refl
component_eq_self parent_dir = refl
component_eq_self (normal s) = text_eq_self s

pub path_eq_self : (p : FilePath) → path_eq p p ≡ true
unfolding path_eq
path_eq_self [] = refl
path_eq_self (c ∷ cs) = ground (arith, component_eq_self c, path_eq_self cs)

pub eq_of_component_eq : (c d : Component) → component_eq c d ≡ true → c ≡ d
unfolding component_eq
eq_of_component_eq (normal s) (normal t) h = ground (arith, eq_of_text_eq s t)
eq_of_component_eq root_dir d h = ground arith
eq_of_component_eq cur_dir d h = ground arith
eq_of_component_eq parent_dir d h = ground arith
eq_of_component_eq (normal s) d h = ground arith

pub eq_of_path_eq : (p q : FilePath) → path_eq p q ≡ true → p ≡ q
unfolding path_eq
eq_of_path_eq [] [] h = refl
eq_of_path_eq [] (y ∷ ys) h = cc
eq_of_path_eq (x ∷ xs) [] h = cc
eq_of_path_eq (x ∷ xs) (y ∷ ys) h = ground (arith, eq_of_component_eq x y, eq_of_path_eq xs ys)

pub starts_with-append : (p q : FilePath) → starts_with (p ++ q) p ≡ true
unfolding starts_with
starts_with-append [] q = refl
starts_with-append (c ∷ cs) q = ground (arith, component_eq_self c, starts_with-append cs q)

-- A path begins with a base exactly when it is the base and a rest.
pub strip_prefix-eq-some :
    (p base rest : FilePath) → strip_prefix p base ≡ some rest → p ≡ base ++ rest
unfolding strip_prefix
strip_prefix-eq-some p [] rest h = ground arith
strip_prefix-eq-some [] (y ∷ ys) rest h = cc
strip_prefix-eq-some (x ∷ xs) (y ∷ ys) rest h =
    ground (arith, eq_of_component_eq x y, strip_prefix-eq-some xs ys rest)

-- A name pushed onto a path that is not empty becomes its last component.
pub join-normal :
    (base : FilePath) (s : Text) → base ≢ [] → join base (normal s ∷ []) ≡ base ++ normal s ∷ []
unfolding join
join-normal [] s h = absurd (h refl)
join-normal (b ∷ bs) s h = refl

pub append-ne-nil : (base : FilePath) (c : Component) → (base ++ c ∷ []) ≢ []
append-ne-nil [] c e = cc
append-ne-nil (b ∷ bs) c e = cc

components_absolute :
    components (codes "/a/../b/./c")
    ≡ root_dir ∷ normal (codes "a") ∷ parent_dir ∷ normal (codes "b") ∷ normal (codes "c") ∷ []
unfolding components text_eq
components_absolute = refl

components_relative :
    components (codes "./a//b/") ≡ cur_dir ∷ normal (codes "a") ∷ normal (codes "b") ∷ []
unfolding components text_eq
components_relative = refl
