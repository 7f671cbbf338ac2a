-- ===== src/Tests/Watcher.antt =====
-- The tests of filewalld/src/watcher.rs. The events that the kernel reports for what a test writes are
-- given: none is lost, and each read returns.
use filewall.FilePath.{file_name, parent, components, path_text, path_eq}
use filewall.Prelude.{
  Bool, true, false, Option, none, some, List, [], ◌∷◌, Text, text, text_eq, option_text_eq, ◌≡◌,
  refl,
}
use filewall.Watcher.{Watcher, Read, events, spawn_watcher, watch, names_file, dir_of}

abbrev spawned : Option Watcher
spawned = spawn_watcher true (λ d. true) (text "/t/config.toml") (text "/t/rules.toml")

abbrev heard : Option Watcher → List Read → Option Bool
heard none reads = none
heard (some w) reads = some (watch w reads false)

abbrev wrote : Text → Read
wrote name = events (some name ∷ [])

abbrev ConfigCloseWriteTriggersReload : Type 0
ConfigCloseWriteTriggersReload = heard spawned (wrote (text "config.toml") ∷ []) ≡ some true

config_close_write_triggers_reload : ConfigCloseWriteTriggersReload
unfolding spawn_watcher watch names_file dir_of file_name parent components path_text path_eq
    text_eq option_text_eq
config_close_write_triggers_reload = refl

abbrev RulesMovedToTriggersReload : Type 0
RulesMovedToTriggersReload =
    heard spawned (wrote (text ".rules.tmp") ∷ wrote (text "rules.toml") ∷ []) ≡ some true

rules_moved_to_triggers_reload : RulesMovedToTriggersReload
unfolding spawn_watcher watch names_file dir_of file_name parent components path_text path_eq
    text_eq option_text_eq
rules_moved_to_triggers_reload = refl

abbrev UnrelatedFileDoesNotTriggerReload : Type 0
UnrelatedFileDoesNotTriggerReload = heard spawned (wrote (text "unrelated.txt") ∷ []) ≡ some false

unrelated_file_does_not_trigger_reload : UnrelatedFileDoesNotTriggerReload
unfolding spawn_watcher watch names_file dir_of file_name parent components path_text path_eq
    text_eq option_text_eq
unrelated_file_does_not_trigger_reload = refl

abbrev SharedParentBothFilesTriggerReload : Type 0
SharedParentBothFilesTriggerReload =
    (heard spawned (wrote (text "config.toml") ∷ []) ≡ some true)
    × (heard spawned (wrote (text "rules.toml") ∷ []) ≡ some true)

shared_parent_both_files_trigger_reload : SharedParentBothFilesTriggerReload
unfolding spawn_watcher watch names_file dir_of file_name parent components path_text path_eq
    text_eq option_text_eq
shared_parent_both_files_trigger_reload = (refl, refl)
