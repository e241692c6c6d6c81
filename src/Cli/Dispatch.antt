-- ===== src/Cli/Dispatch.antt =====
-- commands/mod.rs: which operation a command runs, and its exit code. None stands for a command
-- that waits longer than the fuel.
use marstack_container.Prelude.{ℕ, not, Bool, true, false, Option, none, some}
use marstack_container.Std.Text.{Text}
use marstack_container.Spec.{Spec}
use marstack_container.Exec.{Exec, pure, lift, gets, ◌>>=◌, ◌>>◌}
use marstack_container.Os.{Os}
use marstack_container.Paths.{Layout, validate_id}
use marstack_container.State.{Json}
use marstack_container.Sync.{Codec}
use marstack_container.Telemetry.Export.{Net}
use marstack_container.Container.Commands
use marstack_container.Container.Signals
use marstack_container.Cli.Args
use marstack_container.Cli.Args.{Cli, Command, Rootless, always, never, auto}
use marstack_container.Cli.Events
use marstack_container.Cli.Lifecycle
use marstack_container.Cli.Lifecycle.{Trace}
use marstack_container.Cli.Show.{Printer, print_line, list_run, ps_run, spec_run}
use marstack_container.Cli.Update

-- `matches!(cli.rootless, …)`, with whether the effective user is root.
unfoldable pub is_rootless : Option Rootless → Bool → Bool
is_rootless none root = false
is_rootless (some always) root = true
is_rootless (some never) root = false
is_rootless (some auto) root = not root

module _ {W : Type 0} where
  -- `f()?; Ok(0)`.
  abbrev pub zero_code : Exec W (Unit {0}) → Exec W (Option ℕ)
  zero_code m = m >> pure (some 0)

  abbrev pub zero_if_ended : Exec W (Option (Unit {0})) → Exec W (Option ℕ)
  zero_if_ended m = m >>= λ ended. pure (elim ended [ none ↦ none | some _ ↦ some 0 ])

  -- `validate_id(…)?;`
  abbrev pub checked : Text → Exec W (Option ℕ) → Exec W (Option ℕ)
  checked id m = lift (validate_id id) >> m

module _ (os : Os) (js : Json) (codec : Codec) (net : Net os) (printer : Printer os)
    (table : Signals.Table) (spec_from_str : Text → Option Spec) (t : Trace) (fuel : ℕ) where
  unfoldable pub dispatch_on : Layout → Bool → Option Text → Command → Exec os.World (Option ℕ)
  dispatch_on layout rootless otlp (Args.spec args) = zero_code (spec_run os printer args rootless)
  dispatch_on layout rootless otlp Args.features =
      zero_code (print_line os printer printer.features)
  dispatch_on layout rootless otlp (Args.list args) = zero_code (list_run os printer js layout args)
  dispatch_on layout rootless otlp (Args.create args) =
      checked args.id
        (zero_code (Lifecycle.create os js codec spec_from_str net t layout args rootless otlp))
  dispatch_on layout rootless otlp (Args.start args) =
      checked args.id (zero_code (Commands.start os js layout args.id))
  dispatch_on layout rootless otlp (Args.run args) =
      checked args.id (Lifecycle.run os js codec spec_from_str net t fuel layout args rootless otlp)
  dispatch_on layout rootless otlp (Args.exec args) =
      checked args.id (Lifecycle.exec os js codec fuel layout args)
  dispatch_on layout rootless otlp (Args.kill args) =
      checked args.id (zero_code (Lifecycle.kill os js table layout args))
  dispatch_on layout rootless otlp (Args.delete args) =
      checked args.id (zero_code (Commands.delete os js layout args.id args.force))
  dispatch_on layout rootless otlp (Args.state args) =
      checked args.id (zero_code (Lifecycle.state os js printer.print_state layout args.id))
  dispatch_on layout rootless otlp (Args.ps args) =
      checked args.id (zero_code (ps_run os printer js layout args))
  dispatch_on layout rootless otlp (Args.pause args) =
      checked args.id (zero_code (Commands.pause os js layout args.id true))
  dispatch_on layout rootless otlp (Args.resume args) =
      checked args.id (zero_code (Commands.pause os js layout args.id false))
  dispatch_on layout rootless otlp (Args.events args) = checked args.id (
      zero_if_ended
        (Events.run os (λ e. printer.println (printer.event_text e)) js fuel layout args))
  dispatch_on layout rootless otlp (Args.update args) =
      checked args.id (zero_code (Update.update os js layout args))

  unfoldable pub dispatch : Cli → Exec os.World (Option ℕ)
  unfolding is_rootless dispatch_on
  dispatch cli = do
    root ← gets os.is_root
    dispatch_on (record { root = cli.root }) (is_rootless cli.rootless root) cli.otlp_endpoint
        cli.command
