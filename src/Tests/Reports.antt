-- ===== src/Tests/Reports.antt =====
-- What is told of a start and of containers: phases, texts, intervals, listings, and refusals.
use marstack_container.Prelude.{
  inl, inr, ℕ, ◌≡◌, ◌⊎◌, refl, true, false, none, some, List, [], ◌∷◌, ◌++◌, ◌*◌, ◌%◌, ◌^◌, ◌≤◌,
  map, All, arith,
}
use mathlib.Core.List.{Permᴰ}
use marstack_container.Std.Text.{Text, codes, trim}
use marstack_container.Std.FilePath.{FilePath, root_dir, normal}
use marstack_container.Std.Decimal.{parse_unsigned, u64_bound}
use marstack_container.Error.{ok, err, invalid_id}
use marstack_container.Os.{Os, done, failed}
use marstack_container.Paths.{validate_id}
use marstack_container.Sync.{Phase}
use marstack_container.State.{Container, status, status_eq, stopped}
use marstack_container.State.Listed.{list, InOrder, Gathered, list-IsSorted}
use marstack_container.Telemetry.{new, take}
use marstack_container.Telemetry.Recorded.{
  begins, ends, call_all, Call, Successive, begun, take-Successive,
}
use marstack_container.Telemetry.Payload.{escape}
use marstack_container.Telemetry.Quoted.{read_string, read_string-escape, IsPlain}
use marstack_container.Telemetry.Export.{Net}
use marstack_container.Cli.Args
use marstack_container.Cli.Args.{Cli, log_text}
use marstack_container.Cli.Events.{Event, parse_interval, exit_event, follow}
use marstack_container.Cli.Events.Interval.{parse_interval-to_string}
use marstack_container.Std.Decimal.{to_string}
use marstack_container.Cli.Events.Followed.{rounds, follow-ends}
use marstack_container.Cli.Lifecycle.{Trace}
use marstack_container.Cli.Show.{Printer}
use marstack_container.Cli.Dispatch.{dispatch}
use marstack_container.Cli.Refused.{id_of, dispatch-refused}
use marstack_container.Tests.Samples.{json, run_mars, box, box_state, box_id}
use marstack_container.Tests.Cradle.{Cradle, cradle}
use marstack_container.Tests.Births.{codec}
use marstack_container.Tests.Vigils.{dawn, alive}

abbrev calls : List Call
calls =
    begins (codes "bundle") 3 4
    ∷ begins (codes "cgroup") 9 9
    ∷ ends 12
    ∷ begins (codes "spawn") 20 21
    ∷ []

take-Successive_example :
    Successive 0 (take 30 (call_all calls (new 7))).0 30
    × (map (λ (p : Phase). p.name) (take 30 (call_all calls (new 7))).0 ≡ begun calls)
take-Successive_example = take-Successive 7 30 calls (omega arith)

greeting-IsPlain : All IsPlain (codes "say \"hi\"\n")
greeting-IsPlain = (
  inr (omega arith),
  (
    inr (omega arith),
    (
      inr (omega arith),
      (
        inr (omega arith),
        (
          inr (omega arith),
          (inr (omega arith), (inr (omega arith), (inr (omega arith), (inl refl, tt)))),
        ),
      ),
    ),
  ),
)

read_string-escape_example :
    read_string (escape (codes "say \"hi\"\n") ++ b'"' ∷ codes "}")
    ≡ some (codes "say \"hi\"\n", codes "}")
read_string-escape_example = read_string-escape (codes "say \"hi\"\n") (codes "}") greeting-IsPlain

two_minutes : parse_interval (codes " 2m") ≡ ok 120_000
unfolding parse_interval parse_unsigned trim marstack_container.Std.Text.is_whitespace
    marstack_container.Std.Text.strip_prefix
two_minutes = refl

-- A number of minutes that is a multiple of 2 ^ 59 is no time at all.
no_minutes : parse_interval (codes "576460752303423488m") ≡ ok 0
unfolding parse_interval parse_unsigned trim marstack_container.Std.Text.is_whitespace
    marstack_container.Std.Text.strip_prefix
no_minutes = refl

parse_interval-to_string_example :
    (parse_interval (to_string 576_460_752_303_423_488 ++ codes "ms") ≡ ok 576_460_752_303_423_488)
    × (parse_interval (to_string 576_460_752_303_423_488 ++ codes "s")
        ≡ ok (576_460_752_303_423_488 * 1_000 % 2 ^ 64))
    × (parse_interval (to_string 576_460_752_303_423_488 ++ codes "m")
        ≡ ok (576_460_752_303_423_488 * 60_000 % 2 ^ 64))
    × (parse_interval (to_string 576_460_752_303_423_488)
        ≡ ok (576_460_752_303_423_488 * 1_000 % 2 ^ 64))
parse_interval-to_string_example =
    parse_interval-to_string 576_460_752_303_423_488 (omega arith) (omega arith)

-- A listing of a machine that has the entry of one container.
abbrev entries : Os
entries = record cradle { read_dir = λ p w. done (box_id ∷ codes "other" ∷ []) }

box_lists : list entries json run_mars alive ≡ ok (box ∷ [])
unfolding list marstack_container.State.load marstack_container.Tests.Cradle.look_up
    marstack_container.Std.FilePath.path_eq marstack_container.Paths.state_file
    marstack_container.Std.FilePath.join marstack_container.Std.FilePath.components
    marstack_container.Std.Text.text_eq marstack_container.State.stat_path
box_lists = refl

list-IsSorted_example :
    ((entries.is_dir run_mars.root alive ≡ false) × (box ∷ [] ≡ []))
    ⊎ ((names : List Text) × (entries.is_dir run_mars.root alive ≡ true)
        × (entries.read_dir run_mars.root alive ≡ done names)
        × InOrder (box ∷ [])
        × (cs : List Container) × Gathered entries json run_mars alive names cs
        × Permᴰ cs (box ∷ []))
list-IsSorted_example = list-IsSorted entries json run_mars (box ∷ []) alive box_lists

-- The pid of this container belongs to a later process.
abbrev ghost : Container
ghost = record { layout = run_mars; state = record box_state { start_time = 5 } }

abbrev silent : Event → Cradle → Cradle
silent e w = w

box_ends : status_eq (status cradle ghost (rounds cradle silent 5 ghost 1 dawn)) stopped ≡ true
unfolding rounds status status_eq marstack_container.State.alive marstack_container.State.start_time
    marstack_container.State.StartTime.parse_start_time marstack_container.Tests.Cradle.look_up
    marstack_container.Std.FilePath.path_eq marstack_container.Std.Text.text_eq
    marstack_container.Std.Decimal.int_to_string marstack_container.Std.Text.split_whitespace
    marstack_container.Std.Text.is_whitespace parse_unsigned marstack_container.Std.FilePath.join
    marstack_container.Std.FilePath.components marstack_container.State.stat_path
    marstack_container.Std.Decimal.to_string marstack_container.State.StartTime.after_last
    marstack_container.State.StartTime.start_field
box_ends = refl

follow-ends_example :
    (j : ℕ) × (j ≤ 1)
    × (status_eq (status cradle ghost (rounds cradle silent 5 ghost j dawn)) stopped ≡ true)
    × (follow cradle silent 4 5 ghost dawn
        ≡ (ok (some tt), silent (exit_event cradle ghost) (rounds cradle silent 5 ghost j dawn)))
follow-ends_example = follow-ends cradle silent 5 ghost 1 2 dawn box_ends

abbrev offline : Net cradle
offline = record {
  connect = λ a w. (failed 111, w);
  set_timeouts = λ s w. w;
  write_all = λ s t w. (failed 32, w);
  read_to_end = λ s w. ([], w);
  random = λ n w. (failed 2, w);
  gethostname = λ w. none;
}

abbrev paper : Printer cradle
paper = record {
  println = λ t w. record w { text = t };
  states_text = λ s. codes "states";
  pids_text = λ ps. codes "pids";
  event_text = λ e. codes "event";
  padded = λ n t. t;
  print_state = λ s w. (done tt, w);
  features = codes "features";
  default_spec = codes "spec";
}

abbrev delete_parent : Cli
delete_parent = record {
  root = run_mars.root;
  log = none;
  log_format = log_text;
  debug = false;
  systemd_cgroup = false;
  rootless = none;
  otlp_endpoint = none;
  command = Args.delete (record { force = true; id = codes ".." });
}

abbrev started : Trace
started = record { version = codes "0.1.0"; environment = none; now = 3; clock = new 7 }

parent_is_refused : validate_id (codes "..") ≡ err (invalid_id (codes ".."))
unfolding validate_id marstack_container.Std.Text.text_eq
parent_is_refused = refl

dispatch-refused_example :
    dispatch cradle json codec offline paper [] (λ t. none) started 9 delete_parent alive
    ≡ (err (invalid_id (codes "..")), alive)
dispatch-refused_example =
    dispatch-refused cradle json codec offline paper [] (λ t. none) started 9 delete_parent
      (codes "..") (invalid_id (codes "..")) alive (unfold id_of in refl) parent_is_refused
