-- ===== src/Tests/SystemCases.antt =====
-- The theorems on drawing, names, the file system and the mock connector at concrete inputs.
use nullpipe.Common.{
  ℕ, ◌≡◌, refl, ◌↔◌, Bool, true, false, none, some, List, [], ◌∷◌, ◌++◌, Option, Result, ok, err,
  same, if◌then◌else◌,
}
use nullpipe.Std.Text.{Text}
use nullpipe.Bootstrap.Config.{FileSystem, FileLaws}
use nullpipe.App.{App, DispMsg, running}
use nullpipe.App.Names.{Answers, resolve_name}
use nullpipe.App.Names.Resolving.{Source, resolve_name_sources}
use nullpipe.App.Screen.{Screen}

abbrev message : DispMsg
message = record { ts = none; name = b'a' ∷ []; text = b'h' ∷ b'i' ∷ []; system = false }

abbrev app : App
app = record {
  mode = running;
  handle = true;
  msgs = message ∷ message ∷ [];
  input = b'x' ∷ [];
  cursor = 1;
  scroll = 0;
  onion = some (b'o' ∷ []);
  peers = [];
  timestamps = false;
  quit = false;
  bootstrap_start = 0;
  input_focused = true;
  cmd_tx = true;
  spawned = [];
}

abbrev answers : Answers
answers = record {
  contents = some (b' ' ∷ []);
  line = ok (b' ' ∷ b'a' ∷ []);
  make_dir = ok tt;
  write = ok tt;
}

resolve_name_sources_example :
    (resolve_name [] answers none ≡ ok (b'a' ∷ [], [])) ↔ Source [] answers none (b'a' ∷ []) []
resolve_name_sources_example = resolve_name_sources [] answers none (b'a' ∷ []) []

abbrev modes : List (Text × ℕ) → Text → ℕ
modes [] q = 0
modes ((p, m) ∷ s) q = if same p q then m else modes s q

abbrev foreign : Text
foreign = b'x' ∷ []

abbrev set_mode : Bool → Text → ℕ → List (Text × ℕ) → Result (Unit {0}) Text × List (Text × ℕ)
set_mode true p m s = (err (b'e' ∷ []), s)
set_mode false p m s = (ok tt, (p, m) ∷ s)

set_mode_took :
    (b : Bool) (p q : Text) (m : ℕ) (s : List (Text × ℕ))
    → (set_mode b p m s).0 ≡ ok tt
    → modes (set_mode b p m s).1 q ≡ (if same p q then m else modes s q)
set_mode_took true p q m s h = cc
set_mode_took false p q m s h = refl

set_mode_kept :
    (b : Bool) (p q : Text) (m : ℕ) (s : List (Text × ℕ)) (e : Text)
    → (set_mode b p m s).0 ≡ err e
    → modes (set_mode b p m s).1 q ≡ modes s q
set_mode_kept true p q m s e h = refl
set_mode_kept false p q m s e h = cc

-- A file system that is the modes which were set, with three directories in every directory, of which one belongs to
-- another user.
abbrev files : FileSystem
files = record {
  State = List (Text × ℕ);
  join = λ a b. a ++ b;
  create_dir_all = λ p s. (ok tt, s);
  read_dir = λ p s. some (some (b's' ∷ []) ∷ none ∷ some foreign ∷ some (b'c' ∷ []) ∷ []);
  is_dir = λ p s. true;
  set_permissions = λ p m s. set_mode (same p foreign) p m s;
  from_directories = λ a b s. ok tt;
}

abbrev file_laws : FileLaws files
file_laws = record {
  mode = modes;
  Owns = λ p. same p foreign ≡ false;
  set_mode = λ p q m s h. set_mode_took (same p foreign) p q m s h;
  set_failed = λ p q m s e h. set_mode_kept (same p foreign) p q m s e h;
  set_dirs = λ p q m s. refl;
  set_owned = λ p m s own. rw own refl;
}

abbrev dirs : List (Option Text)
dirs = some (b's' ∷ []) ∷ none ∷ some foreign ∷ some (b'c' ∷ []) ∷ []
