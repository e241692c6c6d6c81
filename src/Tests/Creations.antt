-- ===== src/Tests/Creations.antt =====
-- The theorems on the creation of a container and on the end of its run, at concrete runs.
use marstack_container.Prelude.{
  ℕ, ◌+◌, ◌*◌, ◌/◌, ◌%◌, ◌≡◌, ◌⊎◌, refl, true, false, some, [], arith, All,
}
use marstack_container.Prelude.Int.{pos}
use marstack_container.Std.Text.{Text, codes}
use marstack_container.Std.FilePath.{components}
use marstack_container.Error.{ok, sync_closed}
use marstack_container.Os.{done, failed}
use marstack_container.Paths.{container_dir, state_file}
use marstack_container.State.{Container, Persisted, start_time, load, status, stopped}
use marstack_container.State.Store.{Written}
use marstack_container.Container.Mapped.{Mapped}
use marstack_container.Container.Created.{Created, create-Created, create-Written}
use marstack_container.Container.Undone.{BuildFailed, create-undone}
use marstack_container.Container.ExecRun.{single_threaded}
use marstack_container.Container.ExecAllowed.{Allowed, Entered, exec-Entered}
use marstack_container.Cgroup.Apply.{apply}
use marstack_container.Cgroup.Plan.{write_all}
use marstack_container.Cli.Written.{flag_settings, from_flags-write_all}
use marstack_container.Container.Run.{supervise}
use marstack_container.Container.Supervised.{EndedBy, supervise-EndedBy, supervise-Arrives}
use marstack_container.Rootfs.Overlay.Disjoint.{Prepared, prepare-Prepared}
use marstack_container.State.Calendar.{civil_from_unix}
use marstack_container.State.Dates.{ordinal, epoch, IsDate, civil_from_unix-ordinal}
use marstack_container.Tests.Cradle.{Cradle, cradle, cradle_files, cradle_reap}
use marstack_container.Tests.Samples.{box_cgroup, box_id, run_mars, json}
use marstack_container.Tests.Births.{
  bundle, options, codec, nursery, born, nursery_creates, asleep, stillborn, nursery_fails,
}
use marstack_container.Tests.Vigils.{
  alive, shell, shell_runs, memory_only, memory_document, memory_accepted, vigil, dawn, vigil_ends,
  vigil-Arrives, layered, layered_prepares, kernel_paths, kernel_paths_mask, kernel_paths_lock,
}
use marstack_container.Rootfs.Harden.Masked.{Masks, Restricts, mask_paths-IsMasked}
use marstack_container.Exec.{Chain}

create-Created_example :
    (cradle.is_file (state_file run_mars options.id) nursery ≡ false)
    × Created cradle json codec run_mars bundle options born
create-Created_example =
    create-Created cradle json codec run_mars bundle options nursery born nursery_creates

create-Written_example :
    (state : Persisted) × (v : Cradle) × Written cradle json run_mars state born
    × (state.id ≡ codes "new")
    × (state.bundle ≡ bundle.dir)
    × (state.rootless ≡ false)
    × (state.oci_version ≡ codes "1.0.2")
    × (start_time cradle state.pid v ≡ ok state.start_time)
create-Written_example =
    create-Written cradle json codec cradle_files run_mars bundle options nursery born refl
      nursery_creates

nursery_is_new : cradle.is_file (state_file run_mars options.id) (asleep []) ≡ false
unfolding marstack_container.Tests.Cradle.look_up marstack_container.Std.FilePath.path_eq state_file
    marstack_container.Std.FilePath.join components marstack_container.Std.Text.text_eq
    marstack_container.State.stat_path
nursery_is_new = refl

create-undone_example :
    ((n : ℕ) × (cradle.create_dir_all (container_dir run_mars options.id) (asleep [])
        ≡ (failed n, stillborn)))
    ⊎ ((made v : Cradle) × (cradle.create_dir_all (container_dir run_mars options.id) (asleep [])
          ≡ (done tt, made))
        × BuildFailed cradle json codec bundle options made v sync_closed
        × (stillborn ≡ (cradle.remove_dir_all (container_dir run_mars options.id) v).1)
        × ((cradle.remove_dir_all (container_dir run_mars options.id) v).0 ≡ done tt
            → cradle.exists (container_dir run_mars options.id) stillborn ≡ false))
create-undone_example =
    create-undone cradle json codec cradle_files run_mars bundle options (asleep []) stillborn
      sync_closed nursery_is_new nursery_fails

supervise-EndedBy_example : EndedBy cradle (pos 42) 44 dawn
supervise-EndedBy_example = supervise-EndedBy cradle 2 (pos 42) 44 vigil dawn vigil_ends

supervise-Arrives_example : supervise cradle 6 (pos 42) vigil ≡ (ok (some 44), dawn)
supervise-Arrives_example =
    supervise-Arrives cradle cradle_reap 1 5 (pos 42) 44 vigil dawn (omega arith) vigil-Arrives

prepare-Prepared_example :
    All (λ dir. cradle.is_dir (components dir) dawn ≡ true) layered.lower
    × Prepared cradle layered dawn dawn
prepare-Prepared_example = prepare-Prepared cradle layered dawn dawn layered_prepares

civil_from_unix-ordinal_example :
    (ordinal (civil_from_unix 951_782_400) ≡ ordinal epoch + 951_782_400 / 86_400)
    × ((civil_from_unix 951_782_400).hour * 3_600
          + (civil_from_unix 951_782_400).minute * 60
          + (civil_from_unix 951_782_400).second
        ≡ 951_782_400 % 86_400)
    × IsDate (civil_from_unix 951_782_400)
civil_from_unix-ordinal_example = civil_from_unix-ordinal 951_782_400

exec-Entered_example :
    (c : Container) × (load cradle json run_mars box_id alive ≡ ok c)
    × Allowed (status cradle c alive) false
    × (single_threaded cradle alive ≡ (ok tt, alive))
    × Entered cradle json codec c shell alive
exec-Entered_example =
    exec-Entered cradle json codec 3 run_mars box_id shell (some 0) alive alive shell_runs

from_flags-write_all_example :
    apply cradle box_cgroup memory_document
    ≡ write_all cradle box_cgroup (flag_settings memory_only)
from_flags-write_all_example =
    from_flags-write_all cradle box_cgroup memory_only memory_document memory_accepted

mask_paths-IsMasked_example :
    Chain (λ path. Masks cradle (components path)) kernel_paths dawn dawn
    × Chain (λ path. Restricts cradle (components path)) kernel_paths dawn dawn
mask_paths-IsMasked_example =
    mask_paths-IsMasked cradle kernel_paths kernel_paths dawn dawn dawn kernel_paths_mask
      kernel_paths_lock
