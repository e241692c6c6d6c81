-- ===== src/Container/Init/Securing.antt =====
-- container/init.rs: what the init gives up before its program runs: the section "security".
use marstack_container.Prelude.{Bool, not, Option}
use marstack_container.Exec.{Exec, pure, when, if_some, ◌>>=◌, ◌>>◌}
use marstack_container.Os.{Os}
use marstack_container.Spec.{Process, LinuxSeccomp}
use marstack_container.Bundle.Load.{and_then, or_false}
use marstack_container.Container.Process.{drop_privileges}
use marstack_container.Container.Capabilities
use marstack_container.Container.Capabilities.{Caps, set_no_new_privs}
use marstack_container.Container.Seccomp
use marstack_container.Container.Seccomp.{Scmp}

unfoldable pub wants_no_new_privs : Option Process → Bool
wants_no_new_privs process = or_false (and_then process (λ p. p.no_new_privileges))

module _ (os : Os) (scmp : Scmp os) where
  -- The number of rules is only logged.
  unfoldable pub load_filter : LinuxSeccomp → Exec os.World (Unit {0})
  load_filter spec = Seccomp.apply os scmp spec >>= λ rules. pure tt

module _ (os : Os) (caps : Caps os) where
  unfoldable pub restrict : Process → Bool → Exec os.World (Unit {0})
  restrict p no_new_privs = do
    if_some p.capabilities (Capabilities.drop_bounding os caps)
    drop_privileges os p
    if_some p.capabilities (Capabilities.apply os caps)
    when no_new_privs (set_no_new_privs os)

module _ (os : Os) (caps : Caps os) (scmp : Scmp os) where
  -- Without no_new_privs the filter is loaded while the process may still load one, with it last.
  unfoldable pub secure : Option Process → Option LinuxSeccomp → Exec os.World (Unit {0})
  unfolding wants_no_new_privs load_filter restrict
  secure process filter = do
    let no_new_privs = wants_no_new_privs process
    when (not no_new_privs) (if_some filter (load_filter os scmp))
    if_some process (λ p. restrict os caps p no_new_privs)
    when no_new_privs (if_some filter (load_filter os scmp))
