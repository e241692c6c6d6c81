-- ===== src/Tests/Bundles.antt =====
-- A bundle that passes validation, and the layers of an overlay.
use marstack_container.Prelude.{true, ◌≡◌, refl, false, none, some, List, [], ◌∷◌}
use marstack_container.Std.Text
use marstack_container.Std.Text.{Text, codes, join, split}
use marstack_container.Std.FilePath
use marstack_container.Std.FilePath.{root_dir, normal}
use marstack_container.Std.Decimal
use marstack_container.Error
use marstack_container.Error.{ok, traverse}
use marstack_container.Spec.{Spec, Process, Linux, pid, uts, nofile}
use marstack_container.Bundle.Validate
use marstack_container.Bundle.Validate.{spec}
use marstack_container.Bundle.Validate.Sound.{IsValid, spec-IsValid}
use marstack_container.Rootfs.Overlay
use marstack_container.Rootfs.Overlay.{Layers, options, option_part, escape, split_lowerdir}

abbrev shell : Process
shell = record {
  terminal = none;
  args = some (codes "/bin/sh" ∷ []);
  cwd = root_dir ∷ [];
  env = some (codes "PATH=/bin" ∷ []);
  rlimits = some (record { typ = nofile; soft = 512; hard = 1_024 } ∷ []);
  user = record { uid = 0; gid = 0; additional_gids = none; umask = none };
  oom_score_adj = none;
  no_new_privileges = some true;
  capabilities = none;
}

abbrev linux_section : Linux
linux_section = record {
  namespaces = some (record { typ = pid; path = none } ∷ record { typ = uts; path = none } ∷ []);
  uid_mappings = none;
  gid_mappings = none;
  resources = none;
  cgroups_path = none;
  rootfs_propagation = some (codes "slave");
  masked_paths = some (codes "/proc/kcore" ∷ []);
  readonly_paths = none;
  sysctl = none;
  devices = none;
  seccomp = none;
  time_offsets = none;
}

abbrev config : Spec
config = record {
  version = codes "1.0.2-dev";
  root = some (record { path = normal (codes "rootfs") ∷ []; readonly = none });
  process = some shell;
  hostname = some (codes "box");
  domainname = none;
  mounts = some (
      record {
        destination = root_dir ∷ normal (codes "proc") ∷ [];
        typ = none;
        source = none;
        options = none;
      }
      ∷ []);
  hooks = none;
  annotations = none;
  linux = some linux_section;
  solaris = false;
  windows = false;
  vm = false;
  zos = false;
}

config_passes : spec config ≡ ok tt
unfolding Validate.spec split Decimal.parse_unsigned FilePath.is_absolute Error.for_each
    Text.contains Text.text_eq FilePath.components
config_passes = refl

spec-IsValid_example : IsValid config
spec-IsValid_example = spec-IsValid config config_passes

-- Directories with the characters that the option string gives a meaning.
abbrev lower_dirs : List Text
lower_dirs = codes "/a:b" ∷ codes "/c\\d" ∷ []

abbrev escaped_dirs : List Text
escaped_dirs = codes "/a\\:b" ∷ codes "/c\\\\d" ∷ []

dirs_escape : traverse escape lower_dirs ≡ ok escaped_dirs
unfolding Error.traverse Overlay.escape Text.contains Overlay.escape_text
dirs_escape = refl

abbrev layers : Layers
layers = record { lower = lower_dirs; upper = some (codes "/up"); work = some (codes "/work") }

abbrev option_text : Text
option_text = codes "lowerdir=/a\\:b:/c\\\\d,upperdir=/up,workdir=/work"

layers_print : options layers ≡ ok option_text
unfolding Overlay.options traverse escape Text.contains option_part join Overlay.escape_text
layers_print = refl
