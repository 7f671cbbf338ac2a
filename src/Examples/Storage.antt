-- ===== src/Examples/Storage.antt =====
-- Rules that are numbered, saved and loaded, and `filewallctl` beside the daemon.
use filewall.Ctl.{Format, ℤ, Errno, eperm, remove_ids, cmd_remove}
use filewall.Ctl.Remove.{cmd_remove_outcomes}
use filewall.Examples.Samples.{rule, no_rules, one_rule_toml, one_rule_toml-ReadsBack, no_files}
use filewall.FilePath.{components_eq, parent, path_text, components, join}
use filewall.Prelude.Decimal.{decimal}
use filewall.Prelude.{
  ◌≤◌, true, false, none, some, [], ◌∷◌, ◌≡◌, ◌≢◌, ◌↔◌, ◌⊎◌, inl, inr, refl, arith, Text, text,
  text_eq, text_eq_iff, if◌then◌else◌, Result, ok, err,
}
use filewall.Proto.Frame.{ErrorKind, other}
use filewall.Rules.{RuleAction, Rules, backfill_ids}
use filewall.Rules.Backfill.{HasRoom, SameRules, backfill_ids-IdsValid}
use filewall.Rules.Disk.{
  Files, Faults, Stamp, no_faults, tmp_path, parent_dir_of, save_atomic, load,
  save_atomic_all_or_nothing, load-save_atomic,
}
use filewall.Rules.Ids.{IdsValid, LoadedIds}

-- A file of an older version: the second rule has no id.
abbrev old_rules : Rules
old_rules = record { next_id = 0; rules = rule 1 RuleAction.allow ∷ rule 0 RuleAction.deny ∷ [] }

old_room : HasRoom old_rules
old_room = record { ids = omega arith; counter = omega arith }

old_loaded : LoadedIds old_rules.rules
old_loaded = (inr (omega arith, tt), (inl refl, tt))

backfill_ids-IdsValid_example :
    IdsValid (backfill_ids old_rules)
    × SameRules old_rules.rules (backfill_ids old_rules).rules
    × (0 ≤ (backfill_ids old_rules).next_id)
backfill_ids-IdsValid_example = backfill_ids-IdsValid old_rules old_room old_loaded

abbrev stamp : Stamp
stamp = record { pid = 1; secs = 2; nanos = 3 }

abbrev full_disk : Faults
full_disk = record { create_dir_all = none; write = some other; partial = text "x"; rename = none }

abbrev path : Text
path = text "/r/rules.toml"

other_name : text_eq path (tmp_path stamp path) ≡ false
unfolding text_eq tmp_path parent_dir_of parent path_text components components_eq join decimal
other_name = refl

not_tmp : path ≢ tmp_path stamp path
not_tmp h = ground (arith, other_name, (text_eq_iff path (tmp_path stamp path)).1 h)

save_atomic_all_or_nothing_example :
    let (r, fs') = save_atomic one_rule_toml no_rules stamp full_disk no_files path in
    ((e : ErrorKind) → r ≡ err e → fs' path ≡ none)
    × (r ≡ ok tt
        → fs' path ≡ (if text_eq path path then one_rule_toml.to_string no_rules else none))
save_atomic_all_or_nothing_example =
    save_atomic_all_or_nothing one_rule_toml no_rules stamp full_disk no_files path path not_tmp

abbrev one_rule : Rules
one_rule = record { next_id = 2; rules = rule 1 RuleAction.allow ∷ [] }

one_valid : IdsValid one_rule
one_valid = record { below = (omega arith, tt); distinct = (omega arith, tt, tt) }

one_saved : (save_atomic one_rule_toml one_rule stamp no_faults no_files path).0 ≡ ok tt
unfolding save_atomic
one_saved = refl

load-save_atomic_example :
    load one_rule_toml (save_atomic one_rule_toml one_rule stamp no_faults no_files path).1 path
    ≡ one_rule
load-save_atomic_example =
    load-save_atomic one_rule_toml one_rule stamp no_faults no_files path one_rule_toml-ReadsBack
      one_valid (omega arith) (omega arith) one_saved

abbrev with_pid : Files
with_pid = λ p. some (text "42\n")

abbrev not_permitted : ℤ → Result Errno (Unit {0})
not_permitted pid = err eperm

cmd_remove_outcomes_example :
    let r = remove_ids (load one_rule_toml with_pid path) (1 ∷ []) in
    let save = (save_atomic one_rule_toml r.rules stamp no_faults with_pid path).0 in
    let out =
      cmd_remove one_rule_toml not_permitted
        (1 ∷ [])
        path
        (text "/pid")
        Format.json
        stamp
        no_faults
        with_pid in
    (out.success ≡ true ↔ ((r.missing ≡ []) × ((r.removed ≡ []) ⊎ (save ≡ ok tt))))
    × (r.removed ≡ [] → (out.files ≡ with_pid) × (out.signals ≡ []))
    × ((e : ErrorKind) → save ≡ err e → out.signals ≡ [])
cmd_remove_outcomes_example =
    cmd_remove_outcomes one_rule_toml not_permitted (1 ∷ []) path (text "/pid") Format.json stamp
      no_faults with_pid
