-- ===== src/Examples/Races.antt =====
-- A removal beside an answer of the user: the daemon has a rule for another program on file.
use filewall.Ctl.{Format, ℤ, Errno, remove_ids, cmd_remove}
use filewall.Ctl.Race.{removal_of, remove_loses_concurrent_rule, removed_rule_returns}
use filewall.Daemon.{Daemon, Setup, is_open_perm, path_of, always_action, outcome, handle, skipped}
use filewall.Daemon.Access.{prompted}
use filewall.Daemon.Fate.{Asked, taught}
use filewall.Examples.RuleFile.{rules_toml, rules_toml-ReadsBack}
use filewall.Examples.Samples
use filewall.Examples.Samples.{rule, no_files, cat_event, cat_seen, ready_daemon, ssh_watch}
use filewall.FilePath.{starts_with, strip_prefix}
use filewall.Policy
use filewall.Policy.{
  combine, covers, covering_watch, is_excluded, is_included, evaluate_watch, learned_rule,
  always_target,
}
use filewall.Prelude.{some, [], ◌∷◌, Text, text, text_eq, Result, ok, Memᴰ, ◌≡◌, refl, arith}
use filewall.Proto.{allow_always}
use filewall.Proto.Frame.{write_msg, write_msg_capped}
use filewall.Rules
use filewall.Rules.{RuleAction, LearnedRule, Rules, push, alloc_id, backfill_ids}
use filewall.Rules.Disk.{Files, Stamp, no_faults, save_atomic, load, rename_file}
use filewall.Rules.Ids.{IdsValid}
use filewall.Server.{prompt, prompt_recovering}

abbrev setup : Setup
setup = record Samples.setup { toml = rules_toml }

abbrev stamp : Stamp
stamp = record { pid = 9; secs = 2; nanos = 3 }

abbrev kill : ℤ → Result Errno (Unit {0})
kill pid = ok tt

abbrev vim_rule : LearnedRule
vim_rule = record (rule 1 RuleAction.allow) { exe = text "/usr/bin/vim" }

abbrev vim_rules : Rules
vim_rules = record { next_id = 2; rules = vim_rule ∷ [] }

abbrev saved_on : Files → Rules → Files
saved_on fs rs = (save_atomic rules_toml rs stamp no_faults fs setup.rules_path).1

abbrev daemon : Daemon
daemon = record ready_daemon { rules = vim_rules; files = saved_on no_files vim_rules }

abbrev pidfile : Text
pidfile = text "/run/filewall/filewalld.pid"

-- The daemon once `remove` is through.
abbrev behind_removal : Daemon
behind_removal = record daemon {
  files =
      (cmd_remove rules_toml kill (1 ∷ []) setup.rules_path pidfile Format.table stamp no_faults
        daemon.files).files;
}

in_sync : load rules_toml daemon.files setup.rules_path ≡ vim_rules
unfolding load save_atomic backfill_ids rename_file text_eq
in_sync = refl

asked : Asked setup cat_event cat_seen daemon
unfolding is_open_perm outcome skipped covering_watch covers starts_with is_excluded is_included
    strip_prefix combine Policy.evaluate evaluate_watch text_eq Rules.evaluate Rules.matches
asked = record { opens = refl; foreign = omega arith; in_reach = refl; open_verdict = refl }

asked_again : Asked setup cat_event cat_seen behind_removal
unfolding is_open_perm outcome skipped covering_watch covers starts_with is_excluded is_included
    strip_prefix combine Policy.evaluate evaluate_watch text_eq Rules.evaluate Rules.matches
asked_again = record { opens = refl; foreign = omega arith; in_reach = refl; open_verdict = refl }

covered : covering_watch daemon.policy (path_of cat_seen) ≡ some ssh_watch
unfolding covering_watch covers starts_with
covered = refl

says_always : (prompted setup cat_event cat_seen daemon).result ≡ ok allow_always
unfolding prompt_recovering prompt write_msg write_msg_capped
says_always = refl

always : always_action allow_always ≡ some RuleAction.allow
unfolding always_action
always = refl

valid : IdsValid vim_rules
valid = record { below = (omega arith, tt); distinct = (omega arith, tt, tt) }

abbrev cat_rule : LearnedRule
cat_rule = taught setup cat_event cat_seen daemon ssh_watch RuleAction.allow

learned_saved :
    (save_atomic rules_toml
      (push vim_rules cat_rule)
      cat_seen.stamp
      cat_seen.faults
      daemon.files
      setup.rules_path).0
    ≡ ok tt
unfolding save_atomic push alloc_id learned_rule always_target
learned_saved = refl

removal_saved :
    (save_atomic rules_toml
      (remove_ids vim_rules (1 ∷ [])).rules
      stamp
      no_faults
      (handle setup cat_event cat_seen daemon).files
      setup.rules_path).0
    ≡ ok tt
unfolding save_atomic remove_ids
removal_saved = refl

remove_loses_concurrent_rule_example :
    let between = (handle setup cat_event cat_seen daemon).files in
    let after =
      (removal_of setup kill
        (1 ∷ [])
        pidfile
        Format.table
        stamp
        no_faults
        (load rules_toml daemon.files setup.rules_path)
        between).files in
    (load rules_toml between setup.rules_path ≡ push vim_rules cat_rule)
    × (load rules_toml after setup.rules_path ≡ (remove_ids vim_rules (1 ∷ [])).rules)
    × ((alloc_id (load rules_toml after setup.rules_path).next_id).0 ≡ (alloc_id 2).0)
remove_loses_concurrent_rule_example =
    remove_loses_concurrent_rule setup kill (1 ∷ []) pidfile Format.table stamp no_faults cat_event
      cat_seen ssh_watch allow_always RuleAction.allow daemon vim_rule in_sync asked covered
      says_always always rules_toml-ReadsBack valid (omega arith) (omega arith) (Memᴰ.head refl)
      (Memᴰ.head refl) learned_saved removal_saved

removal_saved_first :
    (save_atomic rules_toml
      (remove_ids vim_rules (1 ∷ [])).rules
      stamp
      no_faults
      daemon.files
      setup.rules_path).0
    ≡ ok tt
unfolding save_atomic remove_ids
removal_saved_first = refl

learned_saved_later :
    (save_atomic rules_toml
      (push vim_rules cat_rule)
      cat_seen.stamp
      cat_seen.faults
      behind_removal.files
      setup.rules_path).0
    ≡ ok tt
unfolding save_atomic push alloc_id learned_rule always_target
learned_saved_later = refl

removed_rule_returns_example :
    (¬ Memᴰ vim_rule (load rules_toml behind_removal.files setup.rules_path).rules)
    × (load rules_toml (handle setup cat_event cat_seen behind_removal).files setup.rules_path
        ≡ push vim_rules cat_rule)
    × Memᴰ vim_rule
        (load rules_toml
          (handle setup cat_event cat_seen behind_removal).files
          setup.rules_path).rules
removed_rule_returns_example =
    removed_rule_returns setup kill (1 ∷ []) pidfile Format.table stamp no_faults cat_event cat_seen
      ssh_watch allow_always RuleAction.allow daemon vim_rule in_sync asked_again covered
      says_always always rules_toml-ReadsBack valid (omega arith) (omega arith) (Memᴰ.head refl)
      (Memᴰ.head refl) removal_saved_first learned_saved_later
