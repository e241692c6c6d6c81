-- ===== src/Cgroup/Apply.antt =====
-- cgroup/v2.rs: `Cgroup::apply` writes the limits of a bundle, one file after the other.
use marstack_container.Prelude.{ℕ, not, Option, none, some, ◌==◌, is_empty}
use marstack_container.Std.Text.{Text, codes}
use marstack_container.Std.Decimal.{to_string}
use marstack_container.Spec.{LinuxResources, LinuxMemory, LinuxCpu, LinuxBlockIo}
use marstack_container.Exec.{Exec, if_some, when, for_each, ◌>>◌}
use marstack_container.Os.{Os}
use marstack_container.Cgroup.V2.{Cgroup, write}
use marstack_container.Cgroup.Values.{
  limit_value, swap_value, cpu_max_value, shares_to_weight, blkio_to_io_weight, io_max_lines,
}

-- `cpu.period().unwrap_or(100_000)`.
abbrev pub period_or_default : Option ℕ → ℕ
period_or_default none = 100_000
period_or_default (some p) = p

module _ (os : Os) (cg : Cgroup) where
  unfoldable pub apply_memory : LinuxMemory → Exec os.World (Unit {0})
  apply_memory m = do
    if_some m.limit (λ bytes. write os cg (codes "memory.max") (limit_value bytes))
    if_some m.reservation (λ bytes. write os cg (codes "memory.low") (limit_value bytes))
    if_some m.swap (λ swap. write os cg (codes "memory.swap.max") (swap_value swap m.limit))

  unfoldable pub apply_cpu : LinuxCpu → Exec os.World (Unit {0})
  apply_cpu c = do
    let period = period_or_default c.period
    if_some c.quota (λ quota. write os cg (codes "cpu.max") (cpu_max_value quota period))
    if_some c.shares (λ shares.
        when (not (shares == 0))
          (write os cg (codes "cpu.weight") (to_string (shares_to_weight shares))))
    if_some c.cpus (λ cpus. when (not (is_empty cpus)) (write os cg (codes "cpuset.cpus") cpus))
    if_some c.mems (λ mems. when (not (is_empty mems)) (write os cg (codes "cpuset.mems") mems))

  unfoldable pub apply_block_io : LinuxBlockIo → Exec os.World (Unit {0})
  apply_block_io io = do
    if_some io.weight (λ weight.
        when (not (weight == 0))
          (write os cg (codes "io.weight") (to_string (blkio_to_io_weight weight))))
    for_each (λ line. write os cg (codes "io.max") line) (io_max_lines io)

  unfoldable pub apply : LinuxResources → Exec os.World (Unit {0})
  apply r = do
    if_some r.memory apply_memory
    if_some r.cpu apply_cpu
    if_some r.pids_limit (λ limit. write os cg (codes "pids.max") (limit_value limit))
    if_some r.block_io apply_block_io
    if_some r.unified (λ files. for_each (λ (f : Text × Text). write os cg f.0 f.1) files)
