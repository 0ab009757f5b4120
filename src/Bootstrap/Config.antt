-- ===== src/Bootstrap/Config.antt =====
-- `build_config` and `lock_dir_perms` of crates/core/src/bootstrap.rs. The file system and arti's builder are the parameter.
use nullpipe.Common.{
  ℕ, ◌≡◌, Bool, Option, none, some, List, [], ◌∷◌, ◌++◌, Result, ok, err, same, if◌then◌else◌, ◌⊎◌,
}
use nullpipe.Std.Text.{Text, lit}
use nullpipe.Types.{ChatError, connection}

-- `read_dir` gives the paths of the entries that can be read, or nothing if the directory cannot.
pub record FileSystem : Type 1 where
  pub State : Type 0
  pub join : Text → Text → Text
  pub create_dir_all : Text → State → Result (Unit {0}) Text × State
  pub read_dir : Text → State → Option (List (Option Text))
  pub is_dir : Text → State → Bool
  pub set_permissions : Text → ℕ → State → Result (Unit {0}) Text × State
  pub from_directories : Text → Text → State → Result (Unit {0}) Text

module _ (fs : FileSystem) where
  open fs use {State, join, create_dir_all, read_dir, is_dir, set_permissions, from_directories}

  -- Mode 0700.
  abbrev pub owner_only : ℕ
  owner_only = 448

  -- What comes of it is not looked at.
  abbrev pub lock : Text → State → State
  lock path s = (set_permissions path owner_only s).1

  abbrev lock_entry : Option Text → State → State
  lock_entry none s = s
  lock_entry (some path) s = if is_dir path s then lock path s else s

  abbrev lock_entries : List (Option Text) → State → State
  lock_entries [] s = s
  lock_entries (e ∷ entries) s = lock_entries entries (lock_entry e s)

  abbrev lock_children : Option (List (Option Text)) → State → State
  lock_children none s = s
  lock_children (some entries) s = lock_entries entries s

  unfoldable pub lock_dir_perms : Text → State → State
  lock_dir_perms root s = lock root (lock_children (read_dir root s) s)

  abbrev made :
      Text
      → Result (Unit {0}) Text × State
      → (State → Result (Unit {0}) ChatError × State)
      → Result (Unit {0}) ChatError × State
  made what (err e, s) next = (err (connection (what ++ e)), s)
  made what (ok _, s) next = next s

  abbrev built : Result (Unit {0}) Text → Result (Unit {0}) ChatError
  built (ok _) = ok tt
  built (err e) = err (connection (lit "config build failed: " ++ e))

  pub build_config : Text → State → Result (Unit {0}) ChatError × State
  unfolding lock_dir_perms
  build_config root s =
      let state_dir = join root (lit "state") in
      let cache_dir = join root (lit "cache") in
      made (lit "create state dir: ") (create_dir_all state_dir s) λ s₁.
        made (lit "create cache dir: ") (create_dir_all cache_dir s₁) λ s₂. (
          built (from_directories state_dir cache_dir (lock_dir_perms root s₂)),
          lock_dir_perms root s₂,
        )

-- A mode that was set is the mode of that path alone, and one that could not be set changes nothing; neither makes anything
-- a directory or none. Setting the mode of a path that the program's user owns does not fail.
pub record FileLaws (fs : FileSystem) : Type 1 where
  pub mode : fs.State → Text → ℕ
  pub Owns : Text → Type 0
  pub set_mode :
      (p q : Text) (m : ℕ) (s : fs.State)
      → (fs.set_permissions p m s).0 ≡ ok tt
      → mode (fs.set_permissions p m s).1 q ≡ (if same p q then m else mode s q)
  pub set_failed :
      (p q : Text) (m : ℕ) (s : fs.State) (e : Text)
      → (fs.set_permissions p m s).0 ≡ err e
      → mode (fs.set_permissions p m s).1 q ≡ mode s q
  pub set_dirs :
      (p q : Text) (m : ℕ) (s : fs.State) → fs.is_dir q (fs.set_permissions p m s).1 ≡ fs.is_dir q s
  pub set_owned : (p : Text) (m : ℕ) (s : fs.State) → Owns p → (fs.set_permissions p m s).0 ≡ ok tt

module _ (fs : FileSystem) (laws : FileLaws fs) where
  open laws use {mode, Owns, set_mode, set_failed, set_dirs, set_owned}

  abbrev pub IsListed : Text → List (Option Text) → Type 0
  IsListed p [] = ⊥
  IsListed p (e ∷ entries) = (e ≡ some p) ⊎ IsListed p entries

  -- A path is the owner's alone or as it was.
  abbrev pub IsLockedOrKept : fs.State → fs.State → Text → Type 0
  IsLockedOrKept s s' p = (mode s' p ≡ owner_only fs) ⊎ (mode s' p ≡ mode s p)
