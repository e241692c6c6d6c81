-- ===== src/Tests/Nodes.antt =====
-- The device nodes of a sample container.
use marstack_container.Prelude.{◌≡◌, refl, false, none, some, List, [], ◌∷◌}
use marstack_container.Prelude.Int.{pos}
use marstack_container.Std.FilePath
use marstack_container.Std.FilePath.{FilePath, root_dir, normal}
use marstack_container.Std.Text.{codes}
use marstack_container.Error.{ok}
use marstack_container.Exec
use marstack_container.Spec.{LinuxDevice, fifo}
use marstack_container.Rootfs.Mounts
use marstack_container.Rootfs.Devices
use marstack_container.Exec.{Chain}
use marstack_container.Rootfs.Devices.Provided.{
  ProvidesDefault, Links, ProvidesExtra, standard_devices, standard_links, create-Provided,
}
use marstack_container.Tests.Cradle.{Cradle, cradle}
use marstack_container.Tests.Vigils.{dawn}

abbrev new_root : FilePath
new_root = root_dir ∷ normal (codes "box") ∷ []

-- A pipe of the user 1000.
abbrev pipe : List LinuxDevice
pipe =
    record {
      path = root_dir ∷ normal (codes "dev") ∷ normal (codes "pipe") ∷ [];
      typ = fifo;
      major = pos 0;
      minor = pos 0;
      file_mode = none;
      uid = some 1_000;
      gid = none;
    }
    ∷ []

devices_are_made : Devices.create cradle new_root pipe false dawn ≡ (ok tt, dawn)
unfolding Devices.create Exec.for_each FilePath.parent FilePath.join FilePath.components
    marstack_container.Std.Text.text_eq Mounts.resolve
devices_are_made = refl

create-Provided_example :
    (v u : Cradle) × Chain (ProvidesDefault cradle new_root false) standard_devices dawn v
    × Chain (Links cradle new_root) standard_links v u
    × Chain (ProvidesExtra cradle new_root false) pipe u dawn
create-Provided_example = create-Provided cradle new_root pipe false dawn dawn devices_are_made
