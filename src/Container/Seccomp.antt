-- ===== src/Container/Seccomp.antt =====
-- container/seccomp.rs: the seccomp filter of a process. The library libseccomp is the parameter
-- `Scmp`: a filter is a value of its, which a call changes, and a syscall is its number.
pub mod Rules
use Prim.Native.String.{String}
use package.native.Mathlib.Decide.{ℕ_discrete}
use marstack_container.Prelude.{
  ℕ, suc, ◌^◌, ◌%◌, ◌&&◌, ◌==◌, ltb, Bool, true, false, Option, none, some, List, [], ◌∷◌, is_empty,
  if◌then◌else◌,
}
use marstack_container.Std.Text.{Text}
use marstack_container.Error.{Result, ok, err, invalid, out_of_scope, traverse, ◌>>=◌, ◌>>◌}
use marstack_container.Exec
use marstack_container.Exec.{Exec}
use marstack_container.Os.{Os, Answer, done, failed}
use marstack_container.Spec.{
  SeccompAction, act_kill, act_kill_thread, act_kill_process, act_trap, act_errno, act_trace,
  act_allow, act_log, act_notify, SeccompFilterFlag, flag_log, flag_tsync, flag_spec_allow,
  flag_wait_killable_recv, SeccompOperator, cmp_ne, cmp_lt, cmp_le, cmp_eq, cmp_ge, cmp_gt,
  cmp_masked_eq, SeccompArg, SeccompSyscall, LinuxSeccomp, Arch, other_arch,
}
use marstack_container.Spec
use marstack_container.Bundle.Validate.{flatten}

-- An `i32` and a `u16`, as the bits that they have.
pub data ScmpAction : Type 0 where
  kill_thread kill_process trap allow log : ScmpAction
  errno trace : ℕ → ScmpAction

pub data ScmpArch : Type 0 where
  native x86 x8664 x32 arm aarch64 mips mips64 mips64n32 mipsel mipsel64 mipsel64n32 ppc ppc64
        ppc64le s390 s390x parisc parisc64 riscv64 :
      ScmpArch

pub data ScmpFilterAttr : Type 0 where
  ctl_nnp ctl_log ctl_tsync ctl_ssb ctl_waitkill : ScmpFilterAttr

pub data ScmpCompareOp : Type 0 where
  not_equal less less_or_equal equal greater_equal greater : ScmpCompareOp
  masked_equal : ℕ → ScmpCompareOp

pub record ScmpArgCompare : Type 0 where
  pub arg : ℕ
  pub op : ScmpCompareOp
  pub datum : ℕ

-- What a call that adds a rule answers: that it was added, or an error and its number, if it has
-- one.
pub data Added : Type 0 where
  added : Added
  refused : Option ℕ → Added

pub record Scmp (os : Os) : Type 1 where
  pub Filter : Type 0
  pub new : ScmpAction → Option Filter
  pub add_arch : ScmpArch → Filter → Option Filter
  pub set_filter_attr : ScmpFilterAttr → ℕ → Filter → Option Filter
  pub from_name : Text → Option ℕ
  pub add_rule : ScmpAction → ℕ → Filter → Added × Filter
  pub add_rule_conditional : ScmpAction → ℕ → List ScmpArgCompare → Filter → Added × Filter
  pub load : Filter → os.World → Answer (Unit {0}) × os.World

pub ScmpAction-discrete : Discrete ScmpAction
ScmpAction-discrete = hlevel ℕ_discrete

unfoldable pub action_eq : ScmpAction → ScmpAction → Bool
unfolding ScmpAction-discrete ℕ_discrete
action_eq a b = elim (ScmpAction-discrete a b) [ yes h ↦ true | no h ↦ false ]

abbrev pub or_number : ℕ → Option ℕ → ℕ
or_number d none = d
or_number d (some n) = n

abbrev pub eperm : ℕ
eperm = 1

unfoldable pub action : SeccompAction → Option ℕ → Result ScmpAction
action act_kill number = ok kill_thread
action act_kill_thread number = ok kill_thread
action act_kill_process number = ok kill_process
action act_trap number = ok trap
action act_errno number = ok (errno (or_number eperm number % 2 ^ 32))
action act_trace number = ok (trace (or_number 0 number % 2 ^ 16))
action act_allow number = ok allow
action act_log number = ok log
action act_notify number = err (out_of_scope "SCMP_ACT_NOTIFY")

unfoldable pub architecture : Arch → Result ScmpArch
architecture Spec.native = ok native
architecture Spec.x86 = ok x86
architecture Spec.x86_64 = ok x8664
architecture Spec.x32 = ok x32
architecture Spec.arm = ok arm
architecture Spec.aarch64 = ok aarch64
architecture Spec.mips = ok mips
architecture Spec.mips64 = ok mips64
architecture Spec.mips64n32 = ok mips64n32
architecture Spec.mipsel = ok mipsel
architecture Spec.mipsel64 = ok mipsel64
architecture Spec.mipsel64n32 = ok mipsel64n32
architecture Spec.ppc = ok ppc
architecture Spec.ppc64 = ok ppc64
architecture Spec.ppc64le = ok ppc64le
architecture Spec.s390 = ok s390
architecture Spec.s390x = ok s390x
architecture Spec.parisc = ok parisc
architecture Spec.parisc64 = ok parisc64
architecture Spec.riscv64 = ok riscv64
architecture other_arch = err (invalid "seccomp architecture has no libseccomp equivalent")

unfoldable pub compare_op : SeccompOperator → Option ℕ → ScmpCompareOp
compare_op cmp_ne two = not_equal
compare_op cmp_lt two = less
compare_op cmp_le two = less_or_equal
compare_op cmp_eq two = equal
compare_op cmp_ge two = greater_equal
compare_op cmp_gt two = greater
compare_op cmp_masked_eq two = masked_equal (or_number 0 two)

-- An index that is no `u32`, or is past the six arguments of a syscall, is refused.
unfoldable pub comparator : SeccompArg → Result ScmpArgCompare
unfolding compare_op
comparator a =
    if ltb a.index (2 ^ 32)
    then (if ltb 5 a.index
        then err (invalid "seccomp arg index is out of range; a syscall has at most six arguments")
        else ok (record { arg = a.index; op = compare_op a.op a.value_two; datum = a.value }))
    else err (invalid "seccomp arg index is out of range")

unfoldable pub attribute : SeccompFilterFlag → ScmpFilterAttr
attribute flag_log = ctl_log
attribute flag_tsync = ctl_tsync
attribute flag_spec_allow = ctl_ssb
attribute flag_wait_killable_recv = ctl_waitkill

abbrev pub eacces : ℕ
eacces = 13

-- `error.errno() == Some(EACCES)`.
unfoldable pub is_eacces : Option ℕ → Bool
is_eacces none = false
is_eacces (some n) = n == eacces

-- `.map_err(…)` into an invalid configuration.
abbrev pub or_invalid {ℓ} : {A : Type ℓ} → String → Option A → Result A
or_invalid c none = err (invalid c)
or_invalid c (some a) = ok a

-- A `for` loop that changes a filter.
unfoldable pub fold : {F X : Type 0} → (X → F → Result F) → List X → F → Result F
fold step [] f = ok f
fold step (x ∷ xs) f = step x f >>= fold step xs

-- The count after a call that adds a rule; a rule that libseccomp refuses because it is what the
-- filter does by default is passed over.
unfoldable pub counted : ScmpAction → ScmpAction → ℕ → Added → Result ℕ
unfolding action_eq is_eacces
counted verdict default rules added = ok (suc rules)
counted verdict default rules (refused number) =
    if action_eq verdict default && is_eacces number
    then ok rules
    else err (invalid "add a seccomp rule")

module _ (os : Os) (scmp : Scmp os) where
  -- Unconditional if there is nothing to compare.
  unfoldable pub add : ScmpAction → ℕ → List ScmpArgCompare → scmp.Filter → Added × scmp.Filter
  add verdict number [] f = scmp.add_rule verdict number f
  add verdict number (c ∷ cs) f = scmp.add_rule_conditional verdict number (c ∷ cs) f

  unfoldable pub add_known :
      ScmpAction
      → ScmpAction
      → Option (List SeccompArg)
      → ℕ
      → scmp.Filter × ℕ
      → Result (scmp.Filter × ℕ)
  unfolding add counted comparator
  add_known default verdict args number (f, rules) = do
    comparators ← traverse comparator (flatten args)
    let (answer, g) = add verdict number comparators f
    n ← counted verdict default rules answer
    ok (g, n)

  -- A name that libseccomp does not know is skipped.
  unfoldable pub add_name :
      ScmpAction
      → ScmpAction
      → Option (List SeccompArg)
      → Text
      → scmp.Filter × ℕ
      → Result (scmp.Filter × ℕ)
  unfolding add_known
  add_name default verdict args name state = elim (scmp.from_name name) [
    | none ↦ ok state
    | some number ↦ add_known default verdict args number state
  ]

  unfoldable pub add_syscall :
      ScmpAction → SeccompSyscall → scmp.Filter × ℕ → Result (scmp.Filter × ℕ)
  unfolding action fold add_name
  add_syscall default rule state = do
    verdict ← action rule.action rule.errno_ret
    fold (add_name default verdict rule.args) rule.names state

  unfoldable pub add_architecture : Arch → scmp.Filter → Result scmp.Filter
  unfolding architecture
  add_architecture arch f = do
    mapped ← architecture arch
    or_invalid "add seccomp architecture" (scmp.add_arch mapped f)

  unfoldable pub set_flag : SeccompFilterFlag → scmp.Filter → Result scmp.Filter
  unfolding attribute
  set_flag flag f = or_invalid "set seccomp flag" (scmp.set_filter_attr (attribute flag) 1 f)

  -- The filter before its rules.
  unfoldable pub prepare : LinuxSeccomp → ScmpAction → Result scmp.Filter
  unfolding fold add_architecture set_flag
  prepare spec default = do
    fresh ← or_invalid "create a seccomp filter" (scmp.new default)
    placed ← fold add_architecture (flatten spec.architectures) fresh
    quiet ←
        or_invalid "clear the seccomp filter's no-new-privs bit"
          (scmp.set_filter_attr ctl_nnp 0 placed)
    fold set_flag (flatten spec.flags) quiet

  unfoldable pub build : LinuxSeccomp → Result (scmp.Filter × ℕ)
  unfolding action prepare fold add_syscall
  build spec = do
    default ← action spec.default_action spec.default_errno_ret
    filter ← prepare spec default
    fold (add_syscall default) (flatten spec.syscalls) (filter, 0)

  unfoldable pub apply : LinuxSeccomp → Exec os.World ℕ
  unfolding build
  apply spec w = elim (build spec) [
    | err e ↦ (err e, w)
    | ok (filter, rules) ↦
        let (answer, w') = scmp.load filter w in
        elim answer [
          | done _ ↦ (ok rules, w')
          | failed e ↦ (err (invalid "load the seccomp filter"), w')
        ]
  ]
