-- ===== src/Tests/Starts.antt =====
-- What the runs of a sample init have done, in which order.
use marstack_container.Prelude.{ℕ, ◌≡◌, some, List, [], ◌∷◌}
use marstack_container.Prelude.Int.{ℤ}
use marstack_container.Std.Text.{codes}
use marstack_container.Error.{ok}
use marstack_container.Exec.{TakenIf}
use marstack_container.Os.{done}
use marstack_container.Syscall.{unshare}
use marstack_container.Spec.{user, cgroup}
use marstack_container.Bundle.Load
use marstack_container.Bundle.Load.{time_offsets}
use marstack_container.Bundle.Validate.{flatten}
use marstack_container.Sync.{cgroup_applied, init_pid, send, expect}
use marstack_container.Container.Seccomp.{ScmpAction, action, prepare}
use marstack_container.Container.Seccomp.Rules.{Rule, rules, AllCalled, build-AllCalled}
use marstack_container.Container.Init.Securing.{secure}
use marstack_container.Container.Init.Main.{Program, set_up}
use marstack_container.Container.Init.Isolated.{Joins, Makes, IsMapped, stage_one-IsMade}
use marstack_container.Exec.{Chain}
use marstack_container.Spec.{mount, uts, ipc, pid, network, time}
use marstack_container.Container.Init.Entered.{Started, container_init-Started}
use marstack_container.Tests.Cradle.{Cradle, cradle}
use marstack_container.Tests.Samples.{json}
use marstack_container.Tests.Privileges.{cradle_caps}
use marstack_container.Tests.Inits.{
  init_codec, cradle_pty, cradle_scmp, syscall_number, profile, plan, rooted, waking,
  profile_builds, stage_one_runs, init_runs,
}

build-AllCalled_example :
    (default : ScmpAction) × (f : List ℕ) × (rs : List Rule) × (action profile.default_action
        profile.default_errno_ret
      ≡ ok default)
    × (prepare cradle cradle_scmp profile default ≡ ok f)
    × (rules syscall_number (flatten profile.syscalls) ≡ ok rs)
    × AllCalled cradle cradle_scmp default f 0 rs (321 ∷ 0 ∷ []) 2
build-AllCalled_example = build-AllCalled cradle cradle_scmp profile (321 ∷ 0 ∷ []) 2 profile_builds

stage_one-IsMade_example :
    (v1 v2 v3 v4 : Cradle) × (child : ℤ) × Chain
      (Joins cradle)
      plan.join
      (waking (codes "u" ∷ []))
      v1
    × Chain
        (λ kind. TakenIf (plan.unshare_flags kind) (Makes cradle (time_offsets plan.bundle) kind))
        (user ∷ mount ∷ uts ∷ ipc ∷ pid ∷ network ∷ time ∷ [])
        v1
        v2
    × TakenIf (plan.unshare_flags user) (IsMapped cradle init_codec) v2 v3
    × (cradle.fork v3 ≡ (done child, v4))
    × (send cradle init_codec (init_pid child []) v4 ≡ (ok tt, waking []))
stage_one-IsMade_example =
    stage_one-IsMade cradle init_codec [] plan (waking (codes "u" ∷ [])) (waking []) stage_one_runs

container_init-Started_example :
    (pid : ℤ) × (program : Program) × (v1 v2 v3 v4 : Cradle) × (expect cradle init_codec
        (codes "CgroupApplied")
        (waking (codes "c" ∷ []))
      ≡ (ok (cgroup_applied pid), v1))
    × TakenIf rooted.cgroup_ns (λ x y. cradle.sys (unshare cgroup) x ≡ (done tt, y)) v1 v2
    × (set_up cradle json init_codec cradle_pty cradle_caps cradle_scmp rooted
          (record rooted.state { pid = some pid })
          v2
        ≡ (ok program, v3))
    × (secure cradle cradle_caps cradle_scmp rooted.bundle.spec.process
          (Load.seccomp rooted.bundle)
          v3
        ≡ (ok tt, v4))
    × Started cradle json init_codec cradle_pty cradle_caps cradle_scmp [] rooted
        (record rooted.state { pid = some pid })
        program
        v4
        (waking [])
container_init-Started_example =
    container_init-Started cradle json init_codec cradle_pty cradle_caps cradle_scmp [] rooted
      (waking (codes "c" ∷ [])) (waking []) init_runs
