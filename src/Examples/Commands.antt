-- ===== src/Examples/Commands.antt =====
-- Commands of filewallctl, and the daemon's start, its watcher and its pidfile.
use filewall.Ctl.{ℤ, pos, Errno, remove_ids, send_sighup, signalled}
use filewall.Ctl.Lifecycle.{State, Trace, Step, InSync, Rising, ids_are_never_reused}
use filewall.Ctl.Main.{Machine}
use filewall.Ctl.Pidfile.{status-write_pidfile}
use filewall.Ctl.Render.{widths, fmt_row}
use filewall.Ctl.Render.Columns.{column_start, render_table_aligned}
use filewall.Ctl.Status.{Alive, status_report}
use filewall.Daemon.Pidfile.{write_pidfile}
use filewall.Examples.RuleFile.{rules_toml, rules_toml-ReadsBack}
use filewall.Examples.Samples.{rule, no_files}
use filewall.FilePath.{components, components_eq, file_name, parent, path_eq, path_text}
use filewall.Prelude.{
  is_whitespace, get_elem?, ℕ, Bool, true, false, none, some, List, [], ◌∷◌, ◌++◌, All, Memᴰ, Text,
  text, text_eq, take, drop, length, ok, err, ◌≡◌, ◌↔◌, refl, arith, Result,
}
use filewall.Proto.Frame.{not_found}
use filewall.Rules.{RuleAction, LearnedRule, Rules, push, alloc_id, backfill_ids}
use filewall.Rules.Disk.{Files, Stamp, no_faults, save_atomic, load, rename_file}
use filewall.Rules.Ids.{IdsValid}
use filewall.Watcher.{Watcher, Read, watch, spawn_watcher}
use filewall.Watcher.Notices.{Watches, Heard, spawn_watcher-Heard}

abbrev path : Text
path = text "/r/rules.toml"

abbrev stamp : Stamp
stamp = record { pid = 1; secs = 2; nanos = 3 }

abbrev headers : List Text
headers = text "ID" ∷ text "EXE" ∷ []

abbrev row : List Text
row = text "12" ∷ text "/bin/ä" ∷ []

render_table_aligned_example :
    (blanks : Text) × All (λ c. is_whitespace c ≡ true) blanks
    × ((i : ℕ) (c : Text)
        → get_elem? row i ≡ some c
        → take (length c) (
            drop
              (column_start (widths headers (row ∷ [])) i)
              (fmt_row (widths headers (row ∷ [])) row ++ blanks))
          ≡ c)
render_table_aligned_example =
    render_table_aligned headers (row ∷ []) row (Memᴰ.tail (Memᴰ.head refl)) (omega arith)

abbrev pid_is_there : ℤ → Result Errno (Unit {0})
pid_is_there pid = ok tt

abbrev machine : Machine
machine = record {
  toml = rules_toml;
  emit = record { rules = λ f r. none; dump = λ f r. none; status = λ f r. none };
  kill = pid_is_there;
  requests = record { to_vec = λ r. ok []; from_slice = λ b. none };
  responses = record { to_vec = λ r. ok []; from_slice = λ b. none };
  connect = λ s. err not_found;
  stamp = stamp;
  faults = no_faults;
}

abbrev words : List Text
words = text "--json" ∷ text "remove" ∷ text "7" ∷ []

abbrev pid_path : Text
pid_path = text "/run/filewall/filewalld.pid"

abbrev with_pid : Files
with_pid = (write_pidfile no_faults no_files pid_path 4242).1

pid_written : write_pidfile no_faults no_files pid_path 4242 ≡ (ok tt, with_pid)
unfolding write_pidfile parent components components_eq
pid_written = refl

status-write_pidfile_example :
    (((status_report pid_is_there with_pid pid_path).running ≡ true)
      ↔ Alive (pid_is_there (pos 4242)))
    × (send_sighup rules_toml pid_is_there with_pid pid_path
        ≡ signalled rules_toml pid_is_there (some (pos 4242)))
status-write_pidfile_example =
    status-write_pidfile rules_toml pid_is_there no_faults no_files with_pid pid_path 4242
      pid_written (omega arith)

abbrev config_path : Text
config_path = text "/etc/filewall/config.toml"

abbrev watcher : Watcher
watcher = record {
  config_name = text "config.toml";
  rules_name = text "rules.toml";
  dirs = text "/etc/filewall" ∷ text "/r" ∷ [];
}

abbrev placed : Text → Bool
placed d = true

watcher_spawned : spawn_watcher true placed config_path path ≡ some watcher
unfolding spawn_watcher file_name parent path_text path_eq components components_eq text_eq
watcher_spawned = refl

spawn_watcher-Heard_example :
    Watches config_path path placed watcher
    × ((reads : List Read) → (watch watcher reads false ≡ true) ↔ Heard watcher reads)
spawn_watcher-Heard_example =
    spawn_watcher-Heard true placed config_path path watcher watcher_spawned

abbrev one_rule : Rules
one_rule = record { next_id = 2; rules = rule 1 RuleAction.allow ∷ [] }

one_valid : IdsValid one_rule
one_valid = record { below = (omega arith, tt); distinct = (omega arith, tt, tt) }

-- The file after a save of the rules.
abbrev saved_on : Files → Rules → Files
saved_on fs rs = (save_atomic rules_toml rs stamp no_faults fs path).1

abbrev learned : LearnedRule
learned = rule 0 RuleAction.deny

-- The rule is stored; another is learned, and the first is removed.
abbrev stored : State
stored = (one_rule, saved_on no_files one_rule)

abbrev after_learning : State
after_learning = (push one_rule learned, saved_on stored.1 (push one_rule learned))

abbrev after_removal : State
after_removal =
    let fs =
      saved_on after_learning.1
        (remove_ids (load rules_toml after_learning.1 path) (1 ∷ [])).rules in
    (load rules_toml fs path, fs)

stored-InSync : InSync rules_toml path stored
unfolding load save_atomic backfill_ids rename_file text_eq
stored-InSync = record {
  loaded = refl;
  valid = one_valid;
  counted = omega arith;
  in_space = omega arith;
}

first_step : Step rules_toml path stored (some 2) after_learning
unfolding save_atomic push alloc_id
first_step = Step.learn learned stamp no_faults refl refl refl

second_step : Step rules_toml path after_learning none after_removal
unfolding save_atomic push load backfill_ids remove_ids rename_file text_eq
second_step = Step.remove (1 ∷ []) stamp no_faults refl refl refl refl

course : Trace rules_toml path stored (2 ∷ []) after_removal
course = Trace.gives stored after_learning after_removal 2 [] first_step (
    Trace.quiet after_learning after_removal after_removal [] second_step
      (Trace.done after_removal))

ids_are_never_reused_example : Rising 2 (2 ∷ []) × InSync rules_toml path after_removal
ids_are_never_reused_example =
    ids_are_never_reused rules_toml path rules_toml-ReadsBack stored after_removal (2 ∷ [])
      stored-InSync (omega arith) course
