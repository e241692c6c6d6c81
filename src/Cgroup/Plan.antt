-- ===== src/Cgroup/Plan.antt =====
-- The files that `apply` writes, as a list that the resources determine, and the proof that it
-- writes these, in this order, up to the first failure.
use marstack_container.Prelude.{
  ℕ, ◌≡◌, refl, ◌∙◌, sym, Bool, true, false, not, Option, none, some, List, [], ◌∷◌, ◌++◌, ◌==◌,
  is_empty, if◌then◌else◌, map,
}
use mathlib.Core.Path.{fun_ext}
use marstack_container.Std.Text.{Text, codes}
use marstack_container.Std.Decimal.{to_string}
use marstack_container.Spec.{LinuxResources, LinuxMemory, LinuxCpu, LinuxBlockIo}
use marstack_container.Error.{Result, ok, err}
use marstack_container.Exec.{Exec, if_some, when, for_each, continue, ◌>>◌}
use marstack_container.Os.{Os}
use marstack_container.Cgroup.V2.{Cgroup, write}
use marstack_container.Cgroup.Values.{
  limit_value, swap_value, cpu_max_value, shares_to_weight, blkio_to_io_weight, io_max_lines,
}
use marstack_container.Cgroup.Apply.{
  period_or_default, apply_memory, apply_cpu, apply_block_io, apply,
}

-- A file's name and what is written to it.
abbrev pub Setting : Type 0
Setting = Text × Text

-- The setting of an optional limit.
abbrev pub setting : {A : Type 0} → Option A → (A → List Setting) → List Setting
setting none f = []
setting (some x) f = f x

abbrev pub one : Text → Text → List Setting
one file value = (file, value) ∷ []

abbrev pub unless_zero : ℕ → List Setting → List Setting
unless_zero n s = if n == 0 then [] else s

abbrev pub unless_empty : Text → List Setting → List Setting
unless_empty t s = if is_empty t then [] else s

unfoldable pub memory_settings : LinuxMemory → List Setting
memory_settings m =
    setting m.limit (λ bytes. one (codes "memory.max") (limit_value bytes))
    ++ (setting m.reservation (λ bytes. one (codes "memory.low") (limit_value bytes))
        ++ setting m.swap (λ swap. one (codes "memory.swap.max") (swap_value swap m.limit)))

unfoldable pub cpu_settings : LinuxCpu → List Setting
cpu_settings c =
    setting c.quota
      (λ quota. one (codes "cpu.max") (cpu_max_value quota (period_or_default c.period)))
    ++ (setting c.shares
          (λ n. unless_zero n (one (codes "cpu.weight") (to_string (shares_to_weight n))))
        ++ (setting c.cpus (λ cpus. unless_empty cpus (one (codes "cpuset.cpus") cpus))
            ++ setting c.mems (λ mems. unless_empty mems (one (codes "cpuset.mems") mems))))

pub block_io_settings : LinuxBlockIo → List Setting
block_io_settings io =
    setting io.weight
      (λ n. unless_zero n (one (codes "io.weight") (to_string (blkio_to_io_weight n))))
    ++ map (λ line. (codes "io.max", line)) (io_max_lines io)

unfoldable pub settings : LinuxResources → List Setting
settings r =
    setting r.memory memory_settings
    ++ (setting r.cpu cpu_settings
        ++ (setting r.pids_limit (λ limit. one (codes "pids.max") (limit_value limit))
            ++ (setting r.block_io block_io_settings ++ setting r.unified (λ files. files))))

module _ (os : Os) (cg : Cgroup) where
  -- Write each setting, up to the first failure.
  pub write_all : List Setting → Exec os.World (Unit {0})
  write_all = for_each (λ (f : Setting). write os cg f.0 f.1)

  continue_assoc :
      (p : Result (Unit {0}) × os.World) (f g : Exec os.World (Unit {0}))
      → continue (continue p (λ _. f)) (λ _. g) ≡ continue p (λ _. f >> g)
  continue_assoc (ok u, w) f g = refl
  continue_assoc (err e, w) f g = refl

  continue_ap :
      (p : Result (Unit {0}) × os.World) {f g : Exec os.World (Unit {0})}
      → ((v : os.World) → f v ≡ g v)
      → continue p (λ _. f) ≡ continue p (λ _. g)
  continue_ap (ok u, w) h = h w
  continue_ap (err e, w) h = refl

  continue_done : (p : Result (Unit {0}) × os.World) → p ≡ continue p (λ _ w. (ok tt, w))
  continue_done (ok u, w) = refl
  continue_done (err e, w) = refl

  write_all-append :
      (xs ys : List Setting) (w : os.World)
      → write_all (xs ++ ys) w ≡ (write_all xs >> write_all ys) w
  unfolding write_all for_each
  write_all-append [] ys w = refl
  write_all-append (x ∷ xs) ys w =
      let (r, v) = write os cg x.0 x.1 w in
      continue_ap (r, v) (λ v. write_all-append xs ys v)
      ∙ sym (continue_assoc (r, v) (write_all xs) (write_all ys))

  -- Two parts, each of which writes its settings, write the settings of both.
  then_all :
      (m n : Exec os.World (Unit {0})) (xs ys : List Setting)
      → m ≡ write_all xs
      → n ≡ write_all ys
      → (m >> n) ≡ write_all (xs ++ ys)
  then_all m n xs ys p q = rw (p, q) (sym (fun_ext (write_all-append xs ys)))

  write_one : (file value : Text) → write os cg file value ≡ write_all (one file value)
  unfolding write_all for_each
  write_one file value = fun_ext λ w. continue_done (write os cg file value w)

  write_none : (λ w. (ok tt, w)) ≡ write_all []
  unfolding write_all for_each
  write_none = refl

  if_some-write_all :
      {A : Type 0} (o : Option A) (m : A → Exec os.World (Unit {0})) (f : A → List Setting)
      → ((x : A) → m x ≡ write_all (f x))
      → if_some o m ≡ write_all (setting o f)
  unfolding write_all for_each
  if_some-write_all none m f h = refl
  if_some-write_all (some x) m f h = h x

  when-write_one :
      (b : Bool) (file value : Text)
      → when (not b) (write os cg file value) ≡ write_all (if b then [] else one file value)
  when-write_one true file value = write_none
  when-write_one false file value = write_one file value

  memory_plan : (m : LinuxMemory) → apply_memory os cg m ≡ write_all (memory_settings m)
  unfolding apply_memory memory_settings
  memory_plan m = then_all _ _ _ _ (if_some-write_all m.limit _ _ (λ x. write_one _ _)) (
      then_all _ _ _ _ (if_some-write_all m.reservation _ _ (λ x. write_one _ _))
        (if_some-write_all m.swap _ _ (λ x. write_one _ _)))

  cpu_plan : (c : LinuxCpu) → apply_cpu os cg c ≡ write_all (cpu_settings c)
  unfolding apply_cpu cpu_settings
  cpu_plan c = then_all _ _ _ _ (if_some-write_all c.quota _ _ (λ x. write_one _ _)) (
      then_all _ _ _ _ (if_some-write_all c.shares _ _ (λ n. when-write_one (n == 0) _ _)) (
        then_all _ _ _ _ (if_some-write_all c.cpus _ _ (λ t. when-write_one (is_empty t) _ _))
          (if_some-write_all c.mems _ _ (λ t. when-write_one (is_empty t) _ _))))

  lines_plan :
      (ls : List Text)
      → for_each (λ line. write os cg (codes "io.max") line) ls
        ≡ write_all (map (λ line. (codes "io.max", line)) ls)
  unfolding write_all for_each
  lines_plan [] = refl
  lines_plan (l ∷ ls) =
      fun_ext λ w. continue_ap (write os cg (codes "io.max") l w) (λ v i. lines_plan ls i v)

  block_io_plan : (io : LinuxBlockIo) → apply_block_io os cg io ≡ write_all (block_io_settings io)
  unfolding apply_block_io block_io_settings
  block_io_plan io =
      then_all _ _ _ _ (if_some-write_all io.weight _ _ (λ n. when-write_one (n == 0) _ _))
        (lines_plan (io_max_lines io))

  unified_plan :
      (files : List Setting)
      → for_each (λ (f : Text × Text). write os cg f.0 f.1) files ≡ write_all files
  unfolding write_all
  unified_plan files = refl

  -- apply is the writing, up to the first failure and in the fixed order of the files, of these
  -- settings and no other, each if it is set: the memory limit, reservation and swap; the CPU quota
  -- with its period or the default one, the CPU shares unless they are 0, and the sets of CPUs and
  -- memory nodes unless they are empty; the pids limit; the block I/O weight unless it is 0, and
  -- the lines of the I/O limits; and the unified files. A period without a quota has no setting.
  pub apply-write_all : (r : LinuxResources) → apply os cg r ≡ write_all (settings r)
  unfolding apply settings
  apply-write_all r = then_all _ _ _ _ (if_some-write_all r.memory _ _ memory_plan) (
      then_all _ _ _ _ (if_some-write_all r.cpu _ _ cpu_plan) (
        then_all _ _ _ _ (if_some-write_all r.pids_limit _ _ (λ x. write_one _ _)) (
          then_all _ _ _ _ (if_some-write_all r.block_io _ _ block_io_plan)
            (if_some-write_all r.unified _ _ unified_plan))))
