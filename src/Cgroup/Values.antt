-- ===== src/Cgroup/Values.antt =====
-- cgroup/v2.rs: the values that the runtime-spec's limits become in the files of cgroup v2.
use marstack_container.Prelude.{
  ℕ, ◌+◌, ◌-◌, ◌*◌, ◌/◌, Option, none, some, List, [], ◌∷◌, ◌++◌, ltb, ◌==◌, if◌then◌else◌, map,
}
use marstack_container.Prelude.Int.{ℤ, pos, is_nonpos, to_ℕ}
use marstack_container.Std.Text.{Text, codes}
use marstack_container.Std.Decimal.{to_string, int_to_string}
use marstack_container.Spec.{LinuxBlockIo, ThrottleDevice}

abbrev pub max_text : Text
max_text = codes "max"

unfoldable pub limit_value : ℤ → Text
limit_value bytes = if is_nonpos bytes then max_text else int_to_string bytes

-- The arms that remain when the memory limit is positive: `s - l` if above, else 0.
swap_above : ℕ → ℕ → Text
swap_above s l = if ltb l s then int_to_string (pos (s - l)) else codes "0"

-- The spec's swap is memory and swap together; the file takes swap alone.
unfoldable pub swap_value : ℤ → Option ℤ → Text
unfolding swap_above
swap_value swap limit = if is_nonpos swap then max_text else elim limit [
  | none ↦ int_to_string swap
  | some l ↦ if is_nonpos l then int_to_string swap else swap_above (to_ℕ swap) (to_ℕ l)
]

unfoldable pub cpu_max_value : ℤ → ℕ → Text
cpu_max_value quota period =
    if is_nonpos quota
    then max_text ++ (b' ' ∷ to_string period)
    else int_to_string quota ++ (b' ' ∷ to_string period)

-- `x.clamp(lo, hi)`.
abbrev pub clamp : ℕ → ℕ → ℕ → ℕ
clamp x lo hi = if ltb x lo then lo else if ltb hi x then hi else x

unfoldable pub shares_to_weight : ℕ → ℕ
shares_to_weight shares =
    if shares == 0 then 100 else 1 + (clamp shares 2 262_144 - 2) * 9_999 / 262_142

unfoldable pub blkio_to_io_weight : ℕ → ℕ
blkio_to_io_weight weight = 1 + (clamp weight 10 1_000 - 10) * 9_999 / 990

-- One line of io.max: `major:minor key=rate`.
unfoldable pub io_max_line : Text → ThrottleDevice → Text
io_max_line key d =
    int_to_string d.major
    ++ (b':' ∷ (int_to_string d.minor ++ (b' ' ∷ (key ++ (b'=' ∷ to_string d.rate)))))

unfoldable pub group_lines : Text → Option (List ThrottleDevice) → List Text
unfolding io_max_line
group_lines key none = []
group_lines key (some ds) = map (io_max_line key) ds

unfoldable pub io_max_lines : LinuxBlockIo → List Text
unfolding group_lines
io_max_lines io =
    group_lines (codes "rbps") io.throttle_read_bps_device
    ++ (group_lines (codes "wbps") io.throttle_write_bps_device
        ++ (group_lines (codes "riops") io.throttle_read_iops_device
            ++ group_lines (codes "wiops") io.throttle_write_iops_device))
