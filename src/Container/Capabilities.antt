-- ===== src/Container/Capabilities.antt =====
-- container/capabilities.rs: the capability sets of a process. A capability is its number in the
-- kernel and the list of a set its traversal. The package caps, which reads and changes the sets,
-- is the parameter `Caps`. A capability of config.json is the name it has there.
pub mod Raised
use Prim.Native.String.{String}
use marstack_container.Prelude.{
  ℕ, ◌==◌, ◌&&◌, Bool, true, false, not, Option, none, some, List, [], ◌∷◌, any, all, if◌then◌else◌,
}
use marstack_container.Std.Text.{Text}
use marstack_container.Error.{Result, ok, err, invalid}
use marstack_container.Exec.{Exec, lift, look, guard, for_each, ◌>>=◌, ◌>>◌}
use marstack_container.Os.{Os, Answer, done, failed}
use marstack_container.Syscall
use marstack_container.Spec.{LinuxCapabilities}
use marstack_container.Bundle.Validate.{flatten}

pub data CapSet : Type 0 where
  effective permitted inheritable ambient bounding : CapSet

pub record Caps (os : Os) : Type 0 where
  pub from_str : Text → Option ℕ
  pub read : CapSet → os.World → Answer (List ℕ)
  pub set : CapSet → List ℕ → os.World → Answer (Unit {0}) × os.World
  pub clear : CapSet → os.World → Answer (Unit {0}) × os.World
  pub raise : CapSet → ℕ → os.World → Answer (Unit {0}) × os.World
  pub drop : CapSet → ℕ → os.World → Answer (Unit {0}) × os.World

unfoldable pub member : ℕ → List ℕ → Bool
member c set = any (λ d. c == d) set

-- `HashSet::insert`.
unfoldable pub insert : List ℕ → ℕ → List ℕ
unfolding member
insert set c = if member c set then set else c ∷ set

unfoldable pub is_subset : List ℕ → List ℕ → Bool
unfolding member
is_subset set other = all (λ c. member c other) set

unfoldable pub difference : List ℕ → List ℕ → List ℕ
unfolding member
difference [] other = []
difference (c ∷ cs) other = if member c other then difference cs other else c ∷ difference cs other

-- `.map_err(…)` into an invalid configuration.
abbrev pub valid : {A : Type 0} → String → Answer A → Result A
valid c (done a) = ok a
valid c (failed e) = err (invalid c)

module _ (os : Os) where
  abbrev pub caps_call :
      String → (os.World → Answer (Unit {0}) × os.World) → Exec os.World (Unit {0})
  caps_call c f w = let (a, w') = f w in (valid c a, w')

  unfoldable pub keep_caps_across_setuid : Bool → Exec os.World (Unit {0})
  keep_caps_across_setuid keep =
      caps_call "prctl(PR_SET_KEEPCAPS)" (os.sys (Syscall.keep_caps keep))

  unfoldable pub set_no_new_privs : Exec os.World (Unit {0})
  set_no_new_privs = caps_call "prctl(PR_SET_NO_NEW_PRIVS)" (os.sys Syscall.set_no_new_privs)

module _ (os : Os) (caps : Caps os) where
  unfoldable pub parse_from : List ℕ → List Text → Result (List ℕ)
  unfolding insert
  parse_from set [] = ok set
  parse_from set (name ∷ names) = elim (caps.from_str name) [
    | none ↦ err (invalid "a capability that this kernel's capability set does not contain")
    | some c ↦ parse_from (insert set c) names
  ]

  unfoldable pub parse : Option (List Text) → Result (List ℕ)
  unfolding parse_from
  parse names = parse_from [] (flatten names)

  unfoldable pub drop_one : ℕ → Exec os.World (Unit {0})
  drop_one c = caps_call os "drop from the bounding set" (caps.drop bounding c)

  unfoldable pub drop_bounding : LinuxCapabilities → Exec os.World (Unit {0})
  unfolding parse drop_one difference
  drop_bounding spec = do
    wanted ← lift (parse spec.bounding_names)
    current ← look (λ w. valid "read the bounding capability set" (caps.read bounding w))
    for_each drop_one (difference current wanted)

  unfoldable pub raise_one : List ℕ → List ℕ → ℕ → Exec os.World (Unit {0})
  unfolding member
  raise_one permitted_set inheritable_set c = do
    guard (member c permitted_set && member c inheritable_set)
        (invalid "an ambient capability that is not in both permitted and inheritable")
    caps_call os "raise into ambient" (caps.raise ambient c)

  unfoldable pub set_all : List ℕ → List ℕ → List ℕ → Exec os.World (Unit {0})
  set_all permitted_set effective_set inheritable_set = do
    caps_call os "set the effective capability set" (caps.set effective effective_set)
    caps_call os "set the permitted capability set" (caps.set permitted permitted_set)
    caps_call os "set the inheritable capability set" (caps.set inheritable inheritable_set)
    caps_call os "clear the ambient capability set" (caps.clear ambient)

  unfoldable pub apply : LinuxCapabilities → Exec os.World (Unit {0})
  unfolding parse is_subset set_all raise_one
  apply spec = do
    permitted_set ← lift (parse spec.permitted_names)
    effective_set ← lift (parse spec.effective_names)
    inheritable_set ← lift (parse spec.inheritable_names)
    ambient_set ← lift (parse spec.ambient_names)
    guard (is_subset effective_set permitted_set)
        (invalid "an effective capability that is not in permitted")
    set_all permitted_set effective_set inheritable_set
    for_each (raise_one permitted_set inheritable_set) ambient_set
