-- ===== src/Lib.antt =====
-- A verification library for mars, an OCI container runtime.
--
-- The runtime is a command: each run loads a container from the state root, looks at the kernel to
-- learn its status, and acts on its cgroup, its process and its files. A bundle (a directory with a
-- config.json) describes what to run; a container waits, once created, on a fifo until it is
-- started.
--
-- Parts of the program and the files that model them:
--   Error.antt      src/error.rs: the errors, and `?` on results that touch no world
--   Paths.antt      src/paths.rs: the state root, container ids
--   Bundle.antt     Bundle/Validate: src/bundle/validate.rs (`spec` and each check that it calls);
--                   Bundle/Load: src/bundle/mod.rs (load, accessors, resolve_executable)
--   Cgroup.antt     Cgroup/V2 and Cgroup/Values, Cgroup/Apply: src/cgroup/v2.rs (create, freeze,
--                   destroy, procs, the conversions, apply); Cgroup/Events: src/cgroup/events.rs
--   State.antt      src/state.rs: Persisted, Status, load, save, status, require, oci_state;
--                   State/Calendar: now_rfc3339 and civil_from_unix
--                   State/Listed: list
--   Sync.antt       src/sync.rs: the messages between the runtime and the init of a container
--   Container.antt  Container/Create and Container/Spawn: create, build, spawn, handshake, teardown of
--                   src/container/mod.rs; Container/Run: run, and supervise of
--                   src/container/signal.rs; Container/Commands: start, kill, delete, pause, update;
--                   Container/Hooks: src/container/hooks.rs; Container/Fifo: src/container/fifo.rs;
--                   Container/Userns: src/container/userns.rs; Container/ExecTarget and
--                   Container/ExecRun: src/container/exec.rs; Container/Capabilities:
--                   src/container/capabilities.rs, the package caps a parameter;
--                   Container/Init: src/container/init.rs, with Joining (stage_one), Securing (what
--                   the init gives up) and Main (container_init); Container/Process:
--                   src/container/process.rs; Container/Seccomp: src/container/seccomp.rs;
--                   Container/Console: src/container/console.rs; Container/Signals: block_forwardable,
--                   unblock_all and parse of src/container/signal.rs
--   Telemetry.antt  src/telemetry.rs: the recorder; Telemetry/Payload: the spans and their text;
--                   Telemetry/Endpoint: endpoint and split_endpoint; Telemetry/Export: export, post
--   Cli.antt        Cli/Args: the records of src/cli.rs; Cli/Dispatch: src/commands/mod.rs;
--                   Cli/Lifecycle: src/commands/lifecycle.rs; Cli/Update: update of that file and its
--                   options in src/cli.rs; Cli/Events: src/commands/events.rs; Cli/Show:
--                   src/commands/list.rs, src/commands/ps.rs, src/commands/spec.rs
--   Rootfs.antt     Rootfs/Overlay: src/rootfs/overlay.rs (annotations, layers, option string), with
--                   Prepare (the checks before the mount) and Mount (the mount);
--                   Rootfs/Mounts: src/rootfs/mounts.rs; Rootfs/Sysctl: src/rootfs/sysctl.rs;
--                   Rootfs/Harden: src/rootfs/harden.rs and src/rootfs/pivot.rs;
--                   Rootfs/Devices: src/rootfs/devices.rs
--   Namespace.antt  src/namespace.rs: layout, without
--   Syscall.antt    the system calls that answer nothing, and the flags of mount
--   Spec.antt       the fields of config.json that the runtime reads from the package oci_spec
-- Each of these has child modules for its proofs. Prelude.antt, Std.antt and Exec.antt hold what they
-- share: Boolean tests, text as lists of character codes, decimal numbers, paths as lists of
-- components (std::path), maps, and code that passes a world along with a result.
--
-- The operating system is a parameter, the record `Os` of Os.antt: a type of worlds, observations
-- of a world, and calls from a world to an answer and the next world. A world moves only in calls:
-- two observations with no call between them see the same world, so what other processes do is seen
-- at the next call, `sleep` included. Documented effects of calls that a theorem relies on are the
-- records of Os/Laws.antt, hypotheses of that theorem. The JSON codec (serde_json) is a parameter
-- too, the records `Json` of State.antt and `Codec` of Sync.antt; printing to JSON does not fail
-- there. So are the packages that a part calls: libseccomp (`Scmp` of Container/Seccomp.antt), the
-- calls on terminals (`Pty` of Container/Console.antt), caps (`Caps` of
-- Container/Capabilities.antt), the table of signals (Container/Signals.antt), the network (`Net`
-- of Telemetry/Export.antt), and what is printed (`Printer` of Cli/Show.antt). Tests.antt holds two
-- small machines that are such an `Os`, keep those laws, and on which the definitions run.
--
-- Loops that the source bounds are recursion on that bound: 500 polls of the freezer, 500 polls for
-- the death of a process, 50 attempts at removing a cgroup, 250 polls for the end of an abandoned
-- one. The poll for a hook ends with its deadline; its fuel is one round more than the milliseconds
-- of the timeout, since each round sleeps for some of them (Container/HookRuns.antt).
--
-- Error messages keep their fixed part: ids, statuses and the names of expected states are kept
-- where the code reports a wrong state, other formatted values are not. Log lines are left out.
--
-- The processes that a creation forks are modelled on their own: what the runtime sees of them is
-- in the answers of the socket, of waitpid and of the files, and what they do is in Container/Init.
-- A call that replaces the process, execve, ends the model of it. The recorder of the times of its
-- phases decides nothing: the init has the phases that it sends as an argument, and a command has
-- its recorder at the end as an argument (`Trace` of Cli/Lifecycle.antt).
--
-- The loops that have no bound in the source have fuel: the reaping of children one round more than
-- the changes of children to tell (Container/Reaped.antt); the supervision as many signals as it
-- may wait for (Container/Supervised.antt), and the samples of events as many rounds as they may
-- last (Cli/Events/Followed.antt), both any number, with a result of their own where it runs out.
--
-- Not modelled: the parsing of arguments, which is the package clap; the log (src/logging.rs) and
-- the warnings of src/container/mod.rs after a run; the entry point (src/main.rs, src/lib.rs); the
-- features document (src/commands/features.rs), a constant text; and the numbers that the system
-- gives flags and limits (flag_for of src/namespace.rs, map_resource of src/container/process.rs).
pub mod Prelude
pub mod Std
pub mod Error
pub mod Exec
pub mod Syscall
pub mod Os
pub mod Spec
pub mod Paths
pub mod Bundle
pub mod Cgroup
pub mod State
pub mod Rootfs
pub mod Namespace
pub mod Sync
pub mod Container
pub mod Cli
pub mod Telemetry
pub mod Tests
