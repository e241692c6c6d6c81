-- ===== src/Cli/Args.antt =====
-- cli.rs: the commands and their options, as the parser of arguments gives them. The options of
-- update are in Cli/Update.
use marstack_container.Prelude.{ℕ, Bool, Option, List}
use marstack_container.Prelude.Int.{ℤ}
use marstack_container.Std.Text.{Text}
use marstack_container.Std.FilePath.{FilePath}
use marstack_container.Cli.Update.{UpdateArgs}

pub data LogFormat : Type 0 where
  log_text log_json : LogFormat

pub data Rootless : Type 0 where
  always never auto : Rootless

pub data ListFormat : Type 0 where
  list_table list_json : ListFormat

pub record CreateArgs : Type 0 where
  pub bundle : FilePath
  pub console_socket : Option FilePath
  pub pid_file : Option FilePath
  pub preserve_fds : ℤ
  pub no_pivot : Bool
  pub no_new_keyring : Bool
  pub id : Text

pub record StartArgs : Type 0 where
  pub id : Text

pub record RunArgs : Type 0 where
  pub bundle : FilePath
  pub console_socket : Option FilePath
  pub pid_file : Option FilePath
  pub detach : Bool
  pub preserve_fds : ℤ
  pub no_pivot : Bool
  pub no_new_keyring : Bool
  pub keep : Bool
  pub id : Text

pub record ExecArgs : Type 0 where
  pub process : Option FilePath
  pub console_socket : Option FilePath
  pub cwd : Option FilePath
  pub env : List Text
  pub tty : Bool
  pub user : Option Text
  pub additional_gids : List ℕ
  pub detach : Bool
  pub pid_file : Option FilePath
  pub process_label : Option Text
  pub apparmor : Option Text
  pub no_new_privs : Bool
  pub cap : List Text
  pub preserve_fds : ℤ
  pub cgroup : Option Text
  pub ignore_paused : Bool
  pub id : Text
  pub argv : List Text

pub record KillArgs : Type 0 where
  pub everything : Bool
  pub id : Text
  pub signal : Text

pub record DeleteArgs : Type 0 where
  pub force : Bool
  pub id : Text

pub record StateArgs : Type 0 where
  pub id : Text

pub record ListArgs : Type 0 where
  pub format : ListFormat
  pub quiet : Bool

pub record PsArgs : Type 0 where
  pub format : Text
  pub id : Text
  pub ps_options : List Text

pub record EventsArgs : Type 0 where
  pub interval : Text
  pub stats : Bool
  pub id : Text

pub record SpecArgs : Type 0 where
  pub bundle : FilePath

pub data Command : Type 0 where
  create : CreateArgs → Command
  start : StartArgs → Command
  run : RunArgs → Command
  exec : ExecArgs → Command
  kill : KillArgs → Command
  delete : DeleteArgs → Command
  state : StateArgs → Command
  list : ListArgs → Command
  ps : PsArgs → Command
  pause resume : StateArgs → Command
  events : EventsArgs → Command
  update : UpdateArgs → Command
  spec : SpecArgs → Command
  features : Command

pub record Cli : Type 0 where
  pub root : FilePath
  pub log : Option FilePath
  pub log_format : LogFormat
  pub debug : Bool
  pub systemd_cgroup : Bool
  pub rootless : Option Rootless
  pub otlp_endpoint : Option Text
  pub command : Command
