-- ===== src/Container/Init/Ordered.antt =====
-- The order in which the init gives things up: as a list of acts, and what has to hold at each.
use marstack_container.Prelude.{
  ◌≡◌, Bool, true, false, ◌||◌, Option, none, some, List, [], ◌∷◌, ◌++◌, if◌then◌else◌,
}
use marstack_container.Exec.{Exec, optional}
use marstack_container.Os.{Os}
use marstack_container.Spec.{Process, LinuxCapabilities, LinuxSeccomp}
use marstack_container.Container.Process
use marstack_container.Container.Capabilities
use marstack_container.Container.Capabilities.{Caps, set_no_new_privs}
use marstack_container.Container.Seccomp.{Scmp}
use marstack_container.Container.Init.Securing.{wants_no_new_privs, load_filter}

pub data Act : Type 0 where
  filter : LinuxSeccomp → Act
  drop_bounding : LinuxCapabilities → Act
  drop_ids : Process → Act
  set_caps : LinuxCapabilities → Act
  no_new_privs : Act

abbrev pub flag_acts : Bool → List Act
flag_acts true = no_new_privs ∷ []
flag_acts false = []

-- The bounding set goes first and the capability sets last, with the ids between them.
abbrev pub process_acts : Option Process → List Act
process_acts none = []
process_acts (some p) =
    optional drop_bounding p.capabilities
    ++ (drop_ids p ∷ (optional set_caps p.capabilities ++ flag_acts (wants_no_new_privs (some p))))

-- The filter comes last if the process wants no new privileges, and first if it does not.
abbrev pub acts : Option Process → Option LinuxSeccomp → List Act
acts process spec =
    if wants_no_new_privs process
    then process_acts process ++ optional filter spec
    else optional filter spec ++ process_acts process

module _ (os : Os) (caps : Caps os) (scmp : Scmp os) where
  abbrev pub perform : Act → Exec os.World (Unit {0})
  perform (filter spec) = load_filter os scmp spec
  perform (drop_bounding c) = Capabilities.drop_bounding os caps c
  perform (drop_ids p) = Process.drop_privileges os p
  perform (set_caps c) = Capabilities.apply os caps c
  perform no_new_privs = set_no_new_privs os

-- What the process may still do: act with the privileges it started with, which a change of its ids
-- takes, and load a filter without them, which no_new_privs gives.
pub record Powers : Type 0 where
  pub privileged : Bool
  pub has_no_new_privs : Bool

abbrev pub allows : Powers → Act → Bool
allows s (filter spec) = s.privileged || s.has_no_new_privs
allows s (drop_bounding c) = s.privileged
allows s (drop_ids p) = s.privileged
allows s (set_caps c) = true
allows s no_new_privs = true

abbrev pub after : Powers → Act → Powers
after s (filter spec) = s
after s (drop_bounding c) = s
after s (drop_ids p) = record s { privileged = false }
after s (set_caps c) = record s { privileged = false }
after s no_new_privs = record s { has_no_new_privs = true }

-- Each act is allowed where it stands.
abbrev pub IsAllowed : Powers → List Act → Type 0
IsAllowed s [] = Unit
IsAllowed s (a ∷ rest) = (allows s a ≡ true) × IsAllowed (after s a) rest

-- The powers after all acts.
abbrev pub after_all : Powers → List Act → Powers
after_all s [] = s
after_all s (a ∷ rest) = after_all (after s a) rest

abbrev pub initial : Powers
initial = record { privileged = true; has_no_new_privs = false }
