-- ===== src/App/Main.antt =====
-- `main` and `config_dir` of crates/cli/src/main.rs. clap has parsed the arguments; what `resolve_name` is answered is an
-- argument.
use nullpipe.Common.{Bool, Option, none, some, List, [], ◌∷◌, Result, ok, err, if◌then◌else◌}
use nullpipe.Std.Text.{Text, lit}
use nullpipe.App.Names.{Commands, Answers, chosen_name}

-- The path of the directory, with `PathBuf::join` as an argument.
pub config_dir : (Text → Text → Text) → Option Text → Text
config_dir join none = join (join (lit ".") (lit ".config")) (lit "ephemeral-chat")
config_dir join (some home) = join (join home (lit ".config")) (lit "ephemeral-chat")

-- The flags that both commands have.
pub record Flags : Type 0 where
  pub timestamps : Bool
  pub headless : Bool

-- What `main` does: lines on the standard error and the exit code 1, an error, or one of the two programs under a name.
pub data Started : Type 0 where
  exits : List Text → Started
  fails : Text → Started
  run_headless : Text → Bool → Commands → Started
  run_tui : Text → Bool → Commands → Started

abbrev pub usage : List Text
usage =
    lit "Error: no subcommand provided.\n"
    ∷ lit "Usage: chat <COMMAND>"
    ∷ lit "\nCommands:"
    ∷ lit "  host    Host a new chat room"
    ∷ lit "  join    Join an existing chat room"
    ∷ lit "\nRun 'chat --help' for more information."
    ∷ []

abbrev pub begin : Flags → Commands → Result Text Text → Started
begin flags command (err e) = fails e
begin flags command (ok name) =
    if flags.headless
    then run_headless name flags.timestamps command
    else run_tui name flags.timestamps command

pub main : Text → Answers → Option (Commands × Flags) → Started
main path a none = exits usage
main path a (some (command, flags)) = begin flags command (chosen_name path a command)
