-- ===== src/Bundle/Lookup.antt =====
-- The program that `resolve_executable` finds, and the arguments that reach execve.
use marstack_container.Prelude.{
  ◌≡◌, refl, ◌⊎◌, inl, inr, sym, ap, ◌∙◌, Bool, true, false, List, [], ◌∷◌, ◌++◌, arith, All,
  is_empty, Bool-cases, if◌then◌else◌,
}
use marstack_container.Std.Text.{Text, contains, split}
use marstack_container.Std.FilePath
use marstack_container.Std.FilePath.{FilePath, components}
use marstack_container.Error.{Result, ok, err, nul_byte, traverse, >>=-eq-ok, ok-injective}
use marstack_container.Os.{Os}
use marstack_container.Bundle.Load.{search_dirs, search_path, resolve_executable, to_cstrings}

module _ (os : Os) (program : Text) (w : os.World) where
  -- The program's place in a directory of the path.
  abbrev pub candidate : Text → FilePath
  candidate dir = FilePath.join (components dir) (components program)

  -- A directory that the search passes over.
  abbrev pub Passed : Text → Type 0
  Passed dir = (is_empty dir ≡ true) ⊎ (os.is_file (candidate dir) w ≡ false)

  abbrev pub FirstIn : List Text → FilePath → Type 0
  FirstIn dirs path =
      (before : List Text) × (dir : Text) × (after : List Text) × (dirs ≡ before ++ dir ∷ after)
      × All Passed before
      × (is_empty dir ≡ false)
      × (path ≡ candidate dir)
      × (os.is_file path w ≡ true)

  Passed-FirstIn :
      (dir : Text) (dirs : List Text) (path : FilePath)
      → Passed dir
      → FirstIn dirs path
      → FirstIn (dir ∷ dirs) path
  Passed-FirstIn dir dirs path p (before, found, after, e, ps, named, at, there) =
      (dir ∷ before, found, after, ap (λ ds. dir ∷ ds) e, (p, ps), named, at, there)

  search_dirs-FirstIn :
      (dirs : List Text) (path : FilePath)
      → search_dirs os program dirs w ≡ ok path
      → FirstIn dirs path
  unfolding search_dirs
  search_dirs-FirstIn [] path h = cc
  search_dirs-FirstIn (dir ∷ dirs) path h = elim (Bool-cases (is_empty dir)) [
    | inl empty ↦
        Passed-FirstIn dir dirs path (inl empty) (search_dirs-FirstIn dirs path (ground arith))
    | inr named ↦ elim (Bool-cases (os.is_file (candidate dir) w)) [
      | inl there ↦ ([], dir, dirs, refl, tt, named, ground arith, ground arith)
      | inr absent ↦
          Passed-FirstIn dir dirs path (inr absent) (search_dirs-FirstIn dirs path (ground arith))
    ]
  ]

  -- A program without a slash in its name that resolves is a file in the first directory of the
  -- search path of the environment that is not empty and has it as a file.
  resolve_executable-FirstIn :
      (env : List Text) (own_rootfs : Bool) (path : FilePath)
      → contains b'/' program ≡ false
      → resolve_executable os program env own_rootfs w ≡ ok path
      → FirstIn (split b':' (search_path env)) path
  unfolding resolve_executable
  resolve_executable-FirstIn env own_rootfs path plain h =
      search_dirs-FirstIn (split b':' (search_path env)) path (ground arith)

traverse-clean_of :
    (values strings : List Text)
    → traverse (λ value. if contains 0 value then err (nul_byte value) else ok value) values
      ≡ ok strings
    → (strings ≡ values) × All (λ v. contains 0 v ≡ false) values
unfolding traverse
traverse-clean_of [] strings h = (ground arith, tt)
traverse-clean_of (v ∷ vs) strings h = elim (Bool-cases (contains 0 v)) [
  | inl nul ↦ cc (rw nul at h)
  | inr clean ↦
      let f : Text → Result Text =
        λ value. if contains 0 value then err (nul_byte value) else ok value in
      let (rest, e, h1) = >>=-eq-ok (traverse f vs) (λ ys. ok (v ∷ ys)) (rw clean at h) in
      let (same, all_clean) = traverse-clean_of vs rest e in
      (sym (ok-injective h1) ∙ ap (λ r. v ∷ r) same, (clean, all_clean))
]

-- When texts are taken as C strings they are taken unchanged, and none of them has a nul character.
pub to_cstrings-no_nul :
    (values strings : List Text)
    → to_cstrings values ≡ ok strings
    → (strings ≡ values) × All (λ v. contains 0 v ≡ false) values
unfolding to_cstrings
to_cstrings-no_nul values strings h = traverse-clean_of values strings h
