-- ===== src/Daemon/FontMonitor/System.antt =====
-- What the font monitor uses of the system: files, inotify, processes, threads. `World` is all that
-- these calls read and change.
use wslg.Common.{ℕ, List, [], ◌∷◌, ◌++◌, Bool, false, Option}
use wslg.Common.{if◌then◌else◌, ◌==◌}

-- What directory_iterator gives of a directory: entries that are no directory, directories with
-- what is below them, and the end, or an error that it throws.
pub data Folders : Type 0 where
  end broken : Folders
  file : Folders → Folders
  folder : List ℕ → Folders → Folders → Folders

pub record System : Type 1 where
  pub World : Type 0
  -- access with R_OK and with X_OK
  pub readable : List ℕ → World → Bool
  pub executable : List ℕ → World → Bool
  -- std::filesystem::exists; none where it throws.
  pub exists : List ℕ → World → Option Bool
  pub folders : List ℕ → World → Folders
  -- inotify_init, dup, inotify_add_watch and inotify_rm_watch on a descriptor, close; none for -1.
  pub inotify_init : World → World × Option ℕ
  pub dup : ℕ → World → World × Option ℕ
  pub add_watch : ℕ → List ℕ → World → World × Option ℕ
  pub rm_watch : Option ℕ → ℕ → World → World
  pub close : ℕ → World → World
  -- sleep for a number of seconds
  pub sleep : ℕ → World → World
  -- fork of a process that executes the arguments, setpgid, waitpid with the exit status, if the
  -- process exited; none for -1.
  pub fork : List (List ℕ) → World → World × Option ℕ
  pub setpgid : ℕ → World → World × Bool
  pub waitpid : ℕ → World → World × Option (Option ℕ)
  -- pthread_create, with its error number and the thread; pthread_cancel with pthread_join.
  pub pthread_create : World → World × ℕ × ℕ
  pub stop_thread : ℕ → World → World

abbrev pub slash : ℕ
slash = 47

abbrev pub is_absolute : List ℕ → Bool
is_absolute [] = false
is_absolute (c ∷ cs) = c == slash

unfoldable pub ends_in_slash : List ℕ → Bool
ends_in_slash [] = false
ends_in_slash (c ∷ []) = c == slash
ends_in_slash (c ∷ d ∷ cs) = ends_in_slash (d ∷ cs)

-- operator/= of std::filesystem::path, for a path that is not empty
unfoldable pub join : List ℕ → List ℕ → List ℕ
unfolding ends_in_slash
join p q = if is_absolute q then q else if ends_in_slash p then p ++ q else p ++ (slash ∷ q)
