-- ===== src/Cli/Written.antt =====
-- The files that an update by options writes.
use marstack_container.Prelude.{
  ℕ, ◌≡◌, refl, ◌∙◌, ap, if◌then◌else◌, ◌||◌, Option, none, some, List, ◌++◌, arith, append-nil,
}
use marstack_container.Prelude.Int.{ℤ}
use marstack_container.Std.Text.{Text, codes}
use marstack_container.Std.Decimal.{to_string}
use marstack_container.Spec.{LinuxResources}
use marstack_container.Error.{ok}
use marstack_container.Os.{Os}
use marstack_container.Cgroup.V2.{Cgroup}
use marstack_container.Cgroup.Values.{limit_value, swap_value, cpu_max_value, shares_to_weight}
use marstack_container.Cgroup.Apply.{period_or_default, apply}
use marstack_container.Cgroup.Plan.{
  memory_settings, cpu_settings, Setting, setting, one, unless_zero, unless_empty, settings,
  write_all, apply-write_all,
}
use marstack_container.Cli.Update.{
  UpdateArgs, given, touches_memory, touches_cpu, built, from_flags,
}

abbrev pub memory_list : Option ℤ → Option ℤ → List Setting
memory_list memory memory_swap =
    setting memory (λ bytes. one (codes "memory.max") (limit_value bytes))
    ++ setting memory_swap (λ swap. one (codes "memory.swap.max") (swap_value swap memory))

abbrev pub cpu_list : Option ℤ → Option ℕ → Option ℕ → Option Text → Option Text → List Setting
cpu_list quota period share cpus mems =
    setting quota (λ q. one (codes "cpu.max") (cpu_max_value q (period_or_default period)))
    ++ (setting share
          (λ n. unless_zero n (one (codes "cpu.weight") (to_string (shares_to_weight n))))
        ++ (setting cpus (λ list. unless_empty list (one (codes "cpuset.cpus") list))
            ++ setting mems (λ list. unless_empty list (one (codes "cpuset.mems") list))))

-- The setting of each option, in the order of the files. The period is only a part of the setting
-- of the quota.
abbrev pub flag_settings : UpdateArgs → List Setting
flag_settings args =
    memory_list args.memory args.memory_swap
    ++ (cpu_list args.cpu_quota args.cpu_period args.cpu_share args.cpuset_cpus args.cpuset_mems
        ++ setting args.pids_limit (λ limit. one (codes "pids.max") (limit_value limit)))

memory_part :
    (a b : Option ℤ)
    → setting
        (if given a || given b
          then some (record { limit = a; reservation = none; swap = b })
          else none)
        memory_settings
      ≡ memory_list a b
unfolding memory_settings
memory_part none none = refl
memory_part none (some b) = refl
memory_part (some a) b = refl

cpu_part :
    (q : Option ℤ) (p s : Option ℕ) (c m : Option Text)
    → setting
        (if given q || given p || given s || given c || given m
          then some (record { shares = s; quota = q; period = p; cpus = c; mems = m })
          else none)
        cpu_settings
      ≡ cpu_list q p s c m
unfolding cpu_settings
cpu_part none none none none none = refl
cpu_part none none none none (some m) = refl
cpu_part none none none (some c) m = refl
cpu_part none none (some s) c m = refl
cpu_part none (some p) s c m = refl
cpu_part (some q) p s c m = refl

settings-built : (args : UpdateArgs) → settings (built args) ≡ flag_settings args
unfolding settings built touches_memory touches_cpu
settings-built args = rw (
  memory_part args.memory args.memory_swap,
  cpu_part args.cpu_quota args.cpu_period args.cpu_share args.cpuset_cpus args.cpuset_mems,
  append-nil (setting args.pids_limit (λ limit. one (codes "pids.max") (limit_value limit))),
)

from_flags-built :
    (args : UpdateArgs) (r : LinuxResources) → from_flags args ≡ ok r → r ≡ built args
unfolding from_flags
from_flags-built args r h = ground arith

module _ (os : Os) (cg : Cgroup) where
  -- An update by options that is accepted writes, up to the first failure and in the fixed order of
  -- the files, these settings and no other, each if its option is given: the memory limit and swap,
  -- the CPU quota with the period or the default one, the CPU share unless it is 0, the sets of
  -- CPUs and memory nodes unless they are empty, and the pids limit. A period without a quota has
  -- no setting.
  pub from_flags-write_all :
      (args : UpdateArgs) (r : LinuxResources)
      → from_flags args ≡ ok r
      → apply os cg r ≡ write_all os cg (flag_settings args)
  from_flags-write_all args r h =
      rw (from_flags-built args r h)
        (apply-write_all os cg (built args) ∙ ap (write_all os cg) (settings-built args))
