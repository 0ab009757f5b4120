-- ===== src/App/Names.antt =====
-- The choice of the display name and of the room in crates/cli/src/main.rs: `resolve_name`, the name of `main`, `create_room`.
-- The file, the prompt and the directory are the system's: what they answer is an argument.
pub mod Resolving
use nullpipe.Common.{ℕ, Option, none, some, List, [], ◌∷◌, ◌++◌, Result, ok, err, if◌then◌else◌}
use nullpipe.Std.Text.{Text, lit, is_empty}
use nullpipe.Std.Whitespace.{trim}
use nullpipe.Room.Handle.{RoomInner}
use nullpipe.Room.Tasks.{RoomTask, host_room, join_room, create}

pub data Commands : Type 0 where
  host_command : ℕ → Option Text → Commands
  join_command : Text → Option Text → Commands

-- What is read from the name's file, what the user types, and what creating the directory and writing give.
pub record Answers : Type 0 where
  pub contents : Option Text
  pub line : Result Text Text
  pub make_dir : Result (Unit {0}) Text
  pub write : Result (Unit {0}) Text

-- A name that is not empty after trimming.
abbrev pub usable : Option Text → Option Text
usable none = none
usable (some s) = if is_empty (trim s) then none else some (trim s)

-- The warnings on a name that could not be kept, with the path of its file.
abbrev pub keep : Text → Answers → List Text
keep path a = elim a.make_dir [
  | err e ↦ (lit "Warning: could not create config directory: " ++ e) ∷ []
  | ok _ ↦ elim a.write [
    | err e ↦ (lit "Warning: could not save name to " ++ path ++ lit ": " ++ e) ∷ []
    | ok _ ↦ []
  ]
]

abbrev pub typed_name : Text → Answers → Option Text → Result (Text × List Text) Text
typed_name path a none = err (lit "Display name cannot be empty")
typed_name path a (some name) = ok (name, keep path a)

abbrev pub ask : Text → Answers → Result Text Text → Result (Text × List Text) Text
ask path a (err e) = err e
ask path a (ok line) = typed_name path a (usable (some line))

abbrev pub from_file : Text → Answers → Option Text → Result (Text × List Text) Text
from_file path a (some name) = ok (name, [])
from_file path a none = ask path a a.line

abbrev pub from_override : Text → Answers → Option Text → Result (Text × List Text) Text
from_override path a (some name) = ok (name, [])
from_override path a none = from_file path a (usable a.contents)

-- The name and the warnings, or the text of the error.
pub resolve_name : Text → Answers → Option Text → Result (Text × List Text) Text
resolve_name path a override_name = from_override path a (usable override_name)

abbrev resolved : Result (Text × List Text) Text → Result Text Text
resolved (ok (name, warnings)) = ok name
resolved (err e) = err (lit "Failed to resolve display name: " ++ e)

-- For a join without a name, the empty text leaves the choice to the invite.
pub chosen_name : Text → Answers → Commands → Result Text Text
unfolding resolve_name
chosen_name path a (join_command code none) = ok []
chosen_name path a (join_command code (some n)) = ok (trim n)
chosen_name path a (host_command ttl override_name) = resolved (resolve_name path a override_name)

pub create_room : Text → Commands → RoomInner × RoomTask
create_room name (host_command ttl override_name) = create (host_room name ttl)
create_room name (join_command code override_name) = create (join_room name code)
