-- ===== src/Watcher.antt =====
-- filewalld/src/watcher.rs: the thread that watches the configuration and the rules file, and asks for
-- a reload. The inotify calls are arguments: whether there is an instance, whether a directory can be
-- watched, and what each read gives.
pub mod Notices
use filewall.FilePath.{file_name, parent, path_eq, path_text}
use filewall.Prelude.{
  Bool, ◌||◌, Option, none, some, List, [], ◌∷◌, Text, any, is_nil, option_text_eq, if◌then◌else◌,
}

-- The file of a path and the directory that it is in; `none` where either is missing.
unfoldable pub dir_of : Text → Option Text
dir_of path = elim (parent path) [
  | none ↦ none
  | some cs ↦ if is_nil (path_text cs) then none else some (path_text cs)
]

pub record Watcher : Type 0 where
  pub config_name : Text
  pub rules_name : Text
  pub dirs : List Text

module _ (inotify_init : Bool) (add_watch : Text → Bool) where
  watch_rules : Text → Text → Text → Text → Option Watcher
  watch_rules config_dir config_name rules_dir rules_name =
      if path_eq rules_dir config_dir
      then some
          (record { config_name = config_name; rules_name = rules_name; dirs = config_dir ∷ [] })
      else if add_watch rules_dir
      then some (record {
        config_name = config_name;
        rules_name = rules_name;
        dirs = config_dir ∷ rules_dir ∷ [];
      })
      else none

  watch_dirs : Text → Text → Text → Text → Option Watcher
  unfolding watch_rules
  watch_dirs config_dir config_name rules_dir rules_name =
      if inotify_init
      then (if add_watch config_dir
          then watch_rules config_dir config_name rules_dir rules_name
          else none)
      else none

  spawned : Option Text → Option Text → Option Text → Option Text → Option Watcher
  unfolding watch_dirs
  spawned (some config_dir) (some config_name) (some rules_dir) (some rules_name) =
      watch_dirs config_dir config_name rules_dir rules_name
  spawned _ _ _ _ = none

  -- `spawn_watcher`: the thread, unless something is missing or a call fails.
  unfoldable pub spawn_watcher : Text → Text → Option Watcher
  unfolding spawned dir_of
  spawn_watcher config_path rules_path =
      spawned (dir_of config_path) (file_name config_path) (dir_of rules_path)
        (file_name rules_path)

-- What `read_events` gives: events, each with its name, or an error.
pub data Read : Type 0 where
  events : List (Option Text) → Read
  interrupted failed : Read

-- The test on the name of an event.
unfoldable pub names_file : Watcher → Option Text → Bool
names_file w name =
    option_text_eq name (some w.config_name) || option_text_eq name (some w.rules_name)

-- The thread's loop over what it reads, from the value of `RELOAD`: a failed read ends it.
unfoldable pub watch : Watcher → List Read → Bool → Bool
unfolding names_file
watch w [] reload = reload
watch w (events names ∷ rest) reload = watch w rest (reload || any (names_file w) names)
watch w (interrupted ∷ rest) reload = watch w rest reload
watch w (failed ∷ rest) reload = reload
