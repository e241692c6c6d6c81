-- ===== src/Rootfs/Overlay/Mount.antt =====
-- rootfs/overlay.rs: the mount of an overlay, and the shorter option string of paths relative to a
-- common parent where the string of absolute paths is longer than a page.
use marstack_container.Prelude.{
  true, false, Option, none, some, List, [], ◌∷◌, ◌++◌, leb, is_empty, ℕ, ltb, ◌+◌, ◌&&◌,
  if◌then◌else◌,
}
use mathlib.Core.Option
use marstack_container.Std.Text.{Text, codes, split, join}
use marstack_container.Std.FilePath.{
  FilePath, root_dir, component_eq, components, piece, parent, is_absolute, strip_prefix,
}
use marstack_container.Error.{Error, Result, ok, err, overlay}
use marstack_container.Exec.{Exec, lift, attempt, if_some, ◌>>=◌, ◌>>◌}
use marstack_container.Os.{Os, nix_call}
use marstack_container.Syscall.{MountCall, chdir, flags_of}
use marstack_container.Rootfs.Overlay.{Layers, options, max_option_bytes}

-- `Option::into_iter().collect()`.
abbrev listed : Option Text → List Text
listed none = []
listed (some dir) = dir ∷ []

abbrev pub all_dirs : Layers → List Text
all_dirs l = l.lower ++ (listed l.upper ++ listed l.work)

-- `zip`, `take_while` and `truncate`.
unfoldable pub shared_prefix : FilePath → FilePath → FilePath
shared_prefix [] ds = []
shared_prefix (c ∷ cs) [] = []
shared_prefix (c ∷ cs) (d ∷ ds) =
    let rest = shared_prefix cs ds in if component_eq c d then c ∷ rest else []

unfoldable pub shared_from : FilePath → List Text → Option FilePath
unfolding shared_prefix
shared_from shared [] = some shared
shared_from shared (dir ∷ dirs) = elim (parent (components dir)) [
  | none ↦ none
  | some candidate ↦ shared_from (shared_prefix shared candidate) dirs
]

unfoldable pub shared_of : List Text → Option FilePath
unfolding shared_from
shared_of [] = none
shared_of (dir ∷ dirs) = elim (parent (components dir)) [
  | none ↦ none
  | some shared ↦ shared_from shared dirs
]

-- `if joined.is_absolute() { Some(joined) } else { None }`.
unfoldable pub absolute_only : Option FilePath → Option FilePath
absolute_only none = none
absolute_only (some joined) = if is_absolute joined then some joined else none

unfoldable pub common_parent : Layers → Option FilePath
unfolding shared_of absolute_only
common_parent l = absolute_only (shared_of (all_dirs l))

-- The components that the text before the first separator, or the whole of it, begins the path
-- with, and the pieces after it.
unfoldable pub head_of : List Text → FilePath × List Text
head_of [] = ([], [])
head_of (s ∷ []) = (piece true s, [])
head_of (s ∷ t ∷ ss) = (if is_empty s then root_dir ∷ [] else piece true s, t ∷ ss)

-- The pieces after those of the base; a piece that is no component is passed over.
unfoldable pub after_base : List Text → FilePath → Option (List Text)
after_base ss [] = some ss
after_base [] (c ∷ cs) = none
after_base (s ∷ ss) (c ∷ cs) =
    let skipped = after_base ss (c ∷ cs) in
    let matched = after_base ss cs in
    elim (piece false s) [ [] ↦ skipped | d ∷ ds ↦ if component_eq d c then matched else none ]

-- Without the pieces at the start, and at the end, that are no components.
unfoldable pub trim_left : List Text → List Text
trim_left [] = []
trim_left (s ∷ ss) = let rest = trim_left ss in if is_empty (piece false s) then rest else s ∷ ss

unfoldable pub trim_right : List Text → List Text
trim_right [] = []
trim_right (s ∷ ss) =
    let rest = trim_right ss in if is_empty rest && is_empty (piece false s) then [] else s ∷ rest

-- The text of `path.strip_prefix(base)` for an absolute base, if it is not empty.
unfoldable pub strip : FilePath → Text → Option Text
unfolding head_of after_base trim_left trim_right
strip base dir =
    let (start, ss) = head_of (split b'/' dir) in
    elim (strip_prefix base start) [
      | none ↦ none
      | some left ↦ elim (after_base ss left) [
        | none ↦ none
        | some rest ↦
            let text = join (codes "/") (trim_right (trim_left rest)) in
            if is_empty text then none else some text
      ]
    ]

-- `iter().map(strip).collect::<Option<Vec<_>>>()`.
unfoldable pub strip_all : FilePath → List Text → Option (List Text)
strip_all base [] = some []
strip_all base (dir ∷ dirs) = elim (strip base dir) [
  | none ↦ none
  | some rest ↦ Option.map (λ rests. rest ∷ rests) (strip_all base dirs)
]

unfoldable pub strip_one : FilePath → Option Text → Option (Option Text)
strip_one base none = some none
strip_one base (some dir) = Option.map some (strip base dir)

unfoldable pub relative_to : Layers → FilePath → Option Layers
unfolding strip_all strip_one
relative_to l base = elim (strip_all base l.lower) [
  | none ↦ none
  | some lower ↦ elim (strip_one base l.upper) [
    | none ↦ none
    | some upper ↦
        Option.map (λ work. record { lower = lower; upper = upper; work = work })
          (strip_one base l.work)
  ]
]

abbrev pub page_full : Error
page_full = overlay "the mount option string is over the page the kernel accepts"

-- `options.len()` counts the bytes of UTF-8.
unfoldable pub utf8_bytes : Text → ℕ
utf8_bytes [] = 0
utf8_bytes (c ∷ cs) =
    let rest = utf8_bytes cs in
    (if ltb c 0x80 then 1 else if ltb c 0x800 then 2 else if ltb c 0x10000 then 3 else 4) + rest

-- The options relative to a base, if they fit.
unfoldable pub shortened_at : Layers → FilePath → Result (Text × Option FilePath)
shortened_at l base = elim (relative_to l base) [
  | none ↦ err page_full
  | some relative ↦ elim (options relative) [
    | err e ↦ err e
    | ok short ↦
        if leb (utf8_bytes short) max_option_bytes then ok (short, some base) else err page_full
  ]
]

-- The option string, and the directory to which its paths are relative.
unfoldable pub mount_data : Layers → Result (Text × Option FilePath)
unfolding shortened_at
mount_data l = elim (options l) [
  | err e ↦ err e
  | ok full ↦
      if leb (utf8_bytes full) max_option_bytes
      then ok (full, none)
      else elim (common_parent l) [ none ↦ err page_full | some base ↦ shortened_at l base ]
]

abbrev pub overlay_call : FilePath → Text → MountCall
overlay_call target data_text = record {
  source = some (components (codes "overlay"));
  target = target;
  fstype = some (codes "overlay");
  flags = flags_of [];
  data_text = some data_text;
}

module _ (os : Os) where
  -- The mount, from the base if there is one and back at the root after it.
  unfoldable pub mount_from : FilePath → Text → Option FilePath → Exec os.World (Unit {0})
  mount_from target data_text base = do
    if_some base (λ dir. nix_call os "chdir to overlay base" (os.sys (chdir dir)))
    result ← attempt (nix_call os "mount overlay" (os.mount (overlay_call target data_text)))
    if_some base (λ dir. nix_call os "chdir back to /" (os.sys (chdir (root_dir ∷ []))))
    lift result

  unfoldable pub mount_at : FilePath → Layers → Exec os.World (Unit {0})
  unfolding mount_from mount_data
  mount_at target l w = elim (mount_data l) [
    | err e ↦ (err e, w)
    | ok (data_text, base) ↦ mount_from target data_text base w
  ]
