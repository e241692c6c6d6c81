-- ===== src/Cli/Refused.antt =====
-- Ids that are not valid reach no operation.
use marstack_container.Prelude.{ℕ, ◌≡◌, refl, Bool, Option, none, some}
use marstack_container.Std.Text.{Text}
use marstack_container.Spec.{Spec}
use marstack_container.Error.{Error, err}
use marstack_container.Exec.{Exec}
use marstack_container.Os.{Os}
use marstack_container.Paths.{Layout, validate_id}
use marstack_container.State.{Json}
use marstack_container.Sync.{Codec}
use marstack_container.Telemetry.Export.{Net}
use marstack_container.Container.Signals
use marstack_container.Cli.Args
use marstack_container.Cli.Args.{Cli, Command}
use marstack_container.Cli.Lifecycle.{Trace}
use marstack_container.Cli.Show.{Printer}
use marstack_container.Cli.Dispatch.{checked, is_rootless, dispatch_on, dispatch}

-- The container that a command names.
unfoldable pub id_of : Command → Option Text
id_of (Args.create args) = some args.id
id_of (Args.start args) = some args.id
id_of (Args.run args) = some args.id
id_of (Args.exec args) = some args.id
id_of (Args.kill args) = some args.id
id_of (Args.delete args) = some args.id
id_of (Args.state args) = some args.id
id_of (Args.list args) = none
id_of (Args.ps args) = some args.id
id_of (Args.pause args) = some args.id
id_of (Args.resume args) = some args.id
id_of (Args.events args) = some args.id
id_of (Args.update args) = some args.id
id_of (Args.spec args) = none
id_of Args.features = none

checked-refused :
    {W : Type 0} (id : Text) (e : Error) (m : Exec W (Option ℕ)) (w : W)
    → validate_id id ≡ err e
    → checked id m w ≡ (err e, w)
checked-refused id e m w h = rw h refl

some-injective : {A : Type 0} {a b : A} → some a ≡ some b → a ≡ b
some-injective h = cc

module _ (os : Os) (js : Json) (codec : Codec) (net : Net os) (printer : Printer os)
    (table : Signals.Table) (spec_from_str : Text → Option Spec) (t : Trace) (fuel : ℕ) where
  abbrev Refuses : Layout → Bool → Option Text → Command → Error → os.World → Type 0
  Refuses layout rootless otlp c e w =
      dispatch_on os js codec net printer table spec_from_str t fuel layout rootless otlp c w
      ≡ (err e, w)

  dispatch_on-refused :
      (layout : Layout) (rootless : Bool) (otlp : Option Text) (c : Command) (id : Text) (e : Error)
      (w : os.World)
      → id_of c ≡ some id
      → validate_id id ≡ err e
      → Refuses layout rootless otlp c e w
  unfolding dispatch_on id_of
  dispatch_on-refused layout rootless otlp (Args.create args) id e w h k =
      checked-refused args.id e _ w (rw (some-injective h) k)
  dispatch_on-refused layout rootless otlp (Args.start args) id e w h k =
      checked-refused args.id e _ w (rw (some-injective h) k)
  dispatch_on-refused layout rootless otlp (Args.run args) id e w h k =
      checked-refused args.id e _ w (rw (some-injective h) k)
  dispatch_on-refused layout rootless otlp (Args.exec args) id e w h k =
      checked-refused args.id e _ w (rw (some-injective h) k)
  dispatch_on-refused layout rootless otlp (Args.kill args) id e w h k =
      checked-refused args.id e _ w (rw (some-injective h) k)
  dispatch_on-refused layout rootless otlp (Args.delete args) id e w h k =
      checked-refused args.id e _ w (rw (some-injective h) k)
  dispatch_on-refused layout rootless otlp (Args.state args) id e w h k =
      checked-refused args.id e _ w (rw (some-injective h) k)
  dispatch_on-refused layout rootless otlp (Args.list args) id e w h k = absurd (cc h)
  dispatch_on-refused layout rootless otlp (Args.ps args) id e w h k =
      checked-refused args.id e _ w (rw (some-injective h) k)
  dispatch_on-refused layout rootless otlp (Args.pause args) id e w h k =
      checked-refused args.id e _ w (rw (some-injective h) k)
  dispatch_on-refused layout rootless otlp (Args.resume args) id e w h k =
      checked-refused args.id e _ w (rw (some-injective h) k)
  dispatch_on-refused layout rootless otlp (Args.events args) id e w h k =
      checked-refused args.id e _ w (rw (some-injective h) k)
  dispatch_on-refused layout rootless otlp (Args.update args) id e w h k =
      checked-refused args.id e _ w (rw (some-injective h) k)
  dispatch_on-refused layout rootless otlp (Args.spec args) id e w h k = absurd (cc h)
  dispatch_on-refused layout rootless otlp Args.features id e w h k = absurd (cc h)

  -- A command whose container has an id that is not valid fails with the refusal of the id, and
  -- leaves the world as it was.
  pub dispatch-refused :
      (cli : Cli) (id : Text) (e : Error) (w : os.World)
      → id_of cli.command ≡ some id
      → validate_id id ≡ err e
      → dispatch os js codec net printer table spec_from_str t fuel cli w ≡ (err e, w)
  unfolding dispatch
  dispatch-refused cli id e w h k =
      dispatch_on-refused (record { root = cli.root }) (is_rootless cli.rootless (os.is_root w))
        cli.otlp_endpoint cli.command id e w h k
