-- ===== src/Rootfs/Overlay.antt =====
-- rootfs/overlay.rs: the layers of an overlay and the option string that mounts them. A directory
-- is its text, since the option string is made of that text.
pub mod RoundTrip
pub mod Prepare
pub mod Disjoint
pub mod Fits
pub mod Mount
pub mod OptionString
use marstack_container.Prelude.{
  ℕ, ◌+◌, Bool, true, false, not, ◌&&◌, ◌||◌, Option, none, some, List, [], ◌∷◌, ◌++◌, map, ◌==◌,
  ltb, leb, if◌then◌else◌, is_empty, last?,
}
use marstack_container.Std.Text.{Text, codes, contains, join, trim}
use marstack_container.Std.FilePath.{components, is_absolute}
use marstack_container.Std.Map.{Map, get}
use marstack_container.Error.{Result, ok, err, overlay, traverse, ◌>>=◌}

abbrev pub lowerdir : Text
lowerdir = codes "dev.mars.overlay.lowerdir"

abbrev pub upperdir : Text
upperdir = codes "dev.mars.overlay.upperdir"

abbrev pub workdir : Text
workdir = codes "dev.mars.overlay.workdir"

abbrev pub max_option_bytes : ℕ
max_option_bytes = 4096

pub record Layers : Type 0 where
  pub lower : List Text
  pub upper : Option Text
  pub work : Option Text

-- The text of `bundle.join(dir)` for a relative directory.
unfoldable pub join_dir : Text → Text → Text
join_dir base dir = elim (last? base) [
  | none ↦ dir
  | some c ↦ if c == b'/' then base ++ dir else base ++ (b'/' ∷ dir)
]

unfoldable pub absolute : Text → Text → Text
unfolding join_dir
absolute bundle dir = if is_absolute (components dir) then dir else join_dir bundle dir

-- The loop over the characters: whether the last one was a backslash, and the part so far.
unfoldable pub split_from : Bool → Text → Text → List Text
split_from escaped current [] = current ∷ []
split_from true current (c ∷ cs) = split_from false (current ++ c ∷ []) cs
split_from false current (c ∷ cs) =
    let after_escape = split_from true current cs in
    let next_part = current ∷ split_from false [] cs in
    let same_part = split_from false (current ++ c ∷ []) cs in
    if c == b'\\' then after_escape else if c == b':' then next_part else same_part

-- `filter(|part| !part.is_empty())`.
unfoldable pub non_empty : List Text → List Text
non_empty [] = []
non_empty (p ∷ ps) = let rest = non_empty ps in if is_empty p then rest else p ∷ rest

unfoldable pub split_lowerdir : Text → List Text
unfolding split_from non_empty
split_lowerdir value = non_empty (split_from false [] value)

-- `text.replace(c, by)`.
unfoldable pub replace : ℕ → Text → Text → Text
replace c by [] = []
replace c by (x ∷ xs) = let rest = replace c by xs in if x == c then by ++ rest else x ∷ rest

unfoldable pub escape_text : Text → Text
unfolding replace
escape_text t = replace b':' (codes "\\:") (replace b'\\' (codes "\\\\") t)

unfoldable pub escape : Text → Result Text
escape t = if contains b',' t then err (overlay "contains a comma") else ok (escape_text t)

-- The escaped directory of an optional option, with its name.
unfoldable pub option_part : Text → Option Text → Result (List Text)
option_part name none = ok []
option_part name (some dir) = do e ← escape dir; ok ((name ++ e) ∷ [])

unfoldable pub options : Layers → Result Text
options l = do
  lower ← traverse escape l.lower
  upper ← option_part (codes "upperdir=") l.upper
  work ← option_part (codes "workdir=") l.work
  ok (join (codes ",") ((codes "lowerdir=" ++ join (codes ":") lower) ∷ (upper ++ work)))

-- `option.filter(|value| !value.trim().is_empty())`.
unfoldable pub given : Option Text → Option Text
given none = none
given (some value) = if is_empty (trim value) then none else some value

is_some : Option Text → Bool
is_some none = false
is_some (some t) = true

-- `dir.map(|dir| absolute(bundle, dir))`.
over : Text → Option Text → Option Text
unfolding absolute
over bundle none = none
over bundle (some dir) = some (absolute bundle dir)

unfoldable pub from_annotations : Map Text → Text → Result (Option Layers)
unfolding given is_some over
from_annotations annotations bundle =
    let upper = get upperdir annotations in
    let work = get workdir annotations in
    elim (given (get lowerdir annotations)) [
      | none ↦
          if is_some upper || is_some work
          then err (overlay "upperdir or workdir is set but lowerdir is not")
          else ok none
      | some lower ↦
          let dirs = map (absolute bundle) (split_lowerdir lower) in
          if is_empty dirs
          then err (overlay "lowerdir lists no directories")
          else ok
              (some (record { lower = dirs; upper = over bundle upper; work = over bundle work }))
    ]
