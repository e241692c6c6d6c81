-- ===== src/Cli/Lifecycle.antt =====
-- commands/lifecycle.rs: what the commands on one container do with their options. The recorder of
-- the phases' times, which decides nothing, is an argument where its trace is sent.
use marstack_container.Prelude.{ℕ, Bool, Option, none, some}
use marstack_container.Prelude.Int.{int_eq, pos}
use marstack_container.Std.Text.{Text, codes}
use marstack_container.Spec.{Spec}
use marstack_container.Error.{ok, unimplemented}
use marstack_container.Exec.{Exec, lift, look, gets, guard, attempt, ◌>>=◌, ◌>>◌}
use marstack_container.Os.{Os, Answer, call}
use marstack_container.Paths.{Layout}
use marstack_container.State.{Json, OciState, load, oci_state}
use marstack_container.Bundle.Load
use marstack_container.Sync.{Codec}
use marstack_container.Telemetry.{Recorder}
use marstack_container.Telemetry.Endpoint.{endpoint}
use marstack_container.Telemetry.Export.{Net, export}
use marstack_container.Container.Create.{CreateOptions}
use marstack_container.Container.Spawn
use marstack_container.Container.Run
use marstack_container.Container.Commands
use marstack_container.Container.ExecTarget.{ExecOptions}
use marstack_container.Container.ExecRun
use marstack_container.Container.Signals
use marstack_container.Cli.Update.{reject_unsupported}
use marstack_container.Cli.Args.{CreateArgs, RunArgs, ExecArgs, KillArgs}

unfoldable pub create_options : CreateArgs → Bool → CreateOptions
create_options args rootless = record {
  id = args.id;
  pid_file = args.pid_file;
  console_socket = args.console_socket;
  rootless = rootless;
}

unfoldable pub run_options : RunArgs → Bool → CreateOptions
run_options args rootless = record {
  id = args.id;
  pid_file = args.pid_file;
  console_socket = args.console_socket;
  rootless = rootless;
}

unfoldable pub exec_options : ExecArgs → ExecOptions
exec_options args = record {
  argv = args.argv;
  env = args.env;
  cwd = args.cwd;
  process = args.process;
  user = args.user;
  additional_gids = args.additional_gids;
  console_socket = args.console_socket;
  tty = args.tty;
  detach = args.detach;
  pid_file = args.pid_file;
  ignore_paused = args.ignore_paused;
}

-- The end of a creation: the time on the recorder, the endpoint of the environment, and what the
-- recorder has.
pub record Trace : Type 0 where
  pub version : Text
  pub environment : Option Text
  pub now : ℕ
  pub clock : Recorder

module _ (os : Os) (net : Net os) where
  -- A trace that cannot be sent is only logged.
  unfoldable pub trace : Option Text → Text → Text → Trace → Exec os.World (Unit {0})
  trace otlp root id t w = elim (endpoint otlp t.environment) [
    | none ↦ (ok tt, w)
    | some target ↦
        let (r, w') = export os net t.version target root id t.now t.clock w in (ok tt, w')
  ]

module _ (os : Os) (js : Json) (codec : Codec) (spec_from_str : Text → Option Spec) where
  unfoldable pub create :
      Net os → Trace → Layout → CreateArgs → Bool → Option Text → Exec os.World (Unit {0})
  unfolding trace create_options
  create net t layout args rootless otlp = do
    lift (reject_unsupported args.preserve_fds args.no_pivot)
    bundle ← look (Load.load os spec_from_str args.bundle)
    outcome ← attempt (Spawn.create os js codec layout bundle (create_options args rootless))
    trace os net otlp (codes "container.create") args.id t
    lift outcome

  unfoldable pub run :
      Net os → Trace → ℕ → Layout → RunArgs → Bool → Option Text → Exec os.World (Option ℕ)
  unfolding trace run_options
  run net t fuel layout args rootless otlp = do
    lift (reject_unsupported args.preserve_fds args.no_pivot)
    bundle ← look (Load.load os spec_from_str args.bundle)
    Run.run os js codec fuel layout bundle (run_options args rootless) args.detach args.keep
        (trace os net otlp (codes "container.run") args.id t)

module _ (os : Os) (js : Json) where
  unfoldable pub exec : Codec → ℕ → Layout → ExecArgs → Exec os.World (Option ℕ)
  unfolding exec_options
  exec codec fuel layout args = do
    guard (int_eq args.preserve_fds (pos 0)) (unimplemented "exec --preserve-fds")
    ExecRun.exec os js codec fuel layout args.id (exec_options args)

  unfoldable pub kill : Signals.Table → Layout → KillArgs → Exec os.World (Unit {0})
  kill table layout args = do
    signal ← lift (Signals.parse table args.signal)
    Commands.kill os js layout args.id signal args.everything

  -- `print` writes a line to the standard output, which may fail.
  unfoldable pub state :
      (OciState → os.World → Answer (Unit {0}) × os.World)
      → Layout
      → Text
      → Exec os.World (Unit {0})
  state print layout id = do
    container ← look (load os js layout id)
    report ← gets (oci_state os container)
    call os "write the container state to stdout" (print report)
