-- ===== src/Examples/Guarded.antt =====
-- A daemon that starts with one watch, under which accesses are denied, and rules that change.
use filewall.Config
use filewall.Config.{Config, ConfigKeys, build_policy, root_of, from_str, with_defaults}
use filewall.Config.Watches.{configured, entry_says}
use filewall.Ctl.Promise.{Change, learns, removes, changed, as_promised, promised, changed-decide}
use filewall.Daemon.{Seen, is_open_perm, handle_all, path_of, skipped}
use filewall.Daemon.Access.{Answers}
use filewall.Daemon.Guarded.{start_marks_the_scope, configured_deny_is_enforced}
use filewall.Daemon.Loop.{World, Loop, polled, turn}
use filewall.Daemon.Reload.{reload_puts_configuration_in_force}
use filewall.Daemon.Start.{Boot, Started, run, started, world_of}
use filewall.Examples.Coverage.{disk, disk-Finite}
use filewall.Examples.Samples.{setup, literal_globs-SetsMatch, cat_event, cat_seen, no_rules, rule}
use filewall.Examples.Turns.{boot, empty_config, loop, events, one_event}
use filewall.FilePath.{parent, components_eq, path_eq, starts_with}
use filewall.Marks.{MarkEntry}
use filewall.Marks.All.{entry_of}
use filewall.Marks.All.Coverage.{Recorded}
use filewall.Marks.All.Scope.{InScope}
use filewall.Marks.Lookup.{mark_of}
use filewall.Policy.{
  Action, Outcome, Policy, WatchPolicy, Glob, new_watch, from_action, covering_watch, covers,
  is_excluded, is_included,
}
use filewall.Prelude.{
  Bool, true, false, none, some, List, [], ◌∷◌, Text, text, text_eq, any, ok, Memᴰ, ◌≡◌, ◌≢◌, refl,
  arith,
}
use filewall.Proto.{ObjKind}
use filewall.Rules.{RuleAction, ObjectKind, evaluate}
use filewall.Rules.Unordered.{bag_of, decide}
use filewall.Server

abbrev one_watch : ConfigKeys
one_watch = record empty_config {
  default_action = some Action.deny;
  watch = some (
      record {
        path = text "/s";
        allow = some (text "/usr/bin/ssh" ∷ []);
        exclude = none;
        learn_object = none;
        learn_match = none;
        patterns = none;
      }
      ∷ []);
}

abbrev guarded_boot : Boot
guarded_boot = record boot { world = record boot.world { parse = λ t. ok one_watch } }

abbrev config : Config
config = with_defaults one_watch

abbrev policy : Policy
policy = record {
  watches =
      (record {
        root = text "/s";
        allow = record {
          is_match = λ p.
              any {A = Glob} (λ g. g.is_match p)
                ((record { is_match = λ q. text_eq q (text "/usr/bin/ssh") }) ∷ []);
          is_empty = false;
        };
        default_action = Action.deny;
        learn_object = ObjectKind.file;
        learn_cwd = false;
        exclude = record { is_match = λ p. false; is_empty = true };
        include = record { is_match = λ p. false; is_empty = true };
        recursive = true;
      })
      ∷ [];
}

abbrev up : Started
up = started guarded_boot config policy

comes_up : run guarded_boot ≡ ok up
unfolding run Config.load Server.bind from_str build_policy with_defaults parent components_eq
    new_watch text_eq root_of
comes_up = refl

start_marks_the_scope_example :
    ((w : WatchPolicy) (q : Text) (kind : ObjKind)
      → Memᴰ w up.loop.daemon.policy.watches
      → InScope disk w q kind
      → Recorded up.loop.marks q)
    × ((q : Text) (e : MarkEntry)
        → mark_of up.loop.marks q ≡ some e
        → (w : WatchPolicy) × (p : Text) × (kind : ObjKind) × (ok : Bool) × Memᴰ w
            up.loop.daemon.policy.watches
          × InScope disk w p kind
          × (path_eq p q ≡ true)
          × (e ≡ entry_of w kind ok))
start_marks_the_scope_example = start_marks_the_scope guarded_boot up comes_up disk-Finite

-- An access below the watch, after one that was elsewhere.
abbrev below : Seen
below = record cat_seen { accessed_path = some (text "/s/id") }

opens : is_open_perm cat_event ≡ true
unfolding is_open_perm
opens = refl

config_loads :
    Config.load guarded_boot.world.parse guarded_boot.world.read_to_string
      (text "/etc/filewall/config.toml")
    ≡ ok config
unfolding Config.load from_str
config_loads = refl

in_reach : skipped (covering_watch up.loop.daemon.policy (path_of below)) (path_of below) ≡ false
unfolding skipped started covering_watch covers starts_with is_excluded is_included
in_reach = refl

says_deny :
    entry_says guarded_boot.world.globs guarded_boot.world.machine config.default_action
      (configured guarded_boot.world.globs guarded_boot.world.machine config.watch (text "/s/id"))
      (text "/usr/bin/cat")
    ≡ Outcome.deny
unfolding with_defaults root_of starts_with text_eq from_action
says_deny = refl

other_process : cat_event.pid ≢ up.setup.own_pid
unfolding started
other_process = omega arith

configured_deny_is_enforced_example :
    Answers up.setup cat_event below
      (handle_all up.setup ((cat_event, cat_seen) ∷ []) up.loop.daemon)
      false
configured_deny_is_enforced_example =
    configured_deny_is_enforced guarded_boot up config ((cat_event, cat_seen) ∷ []) cat_event below
      literal_globs-SetsMatch comes_up config_loads opens other_process in_reach says_deny

-- A reload of that configuration, in the turn of an event, by a daemon that had another policy.
abbrev world : World
world = world_of guarded_boot

reads_one : polled setup world one_event loop ≡ ok (events, loop)
unfolding polled
reads_one = refl

world_loads : Config.load world.parse world.read_to_string world.config_path ≡ ok config
unfolding Config.load from_str
world_loads = refl

config_builds : build_policy world.globs world.machine config ≡ ok policy
unfolding build_policy with_defaults new_watch text_eq root_of
config_builds = refl

watch_reaches : skipped (covering_watch policy (path_of below)) (path_of below) ≡ false
unfolding skipped covering_watch covers starts_with is_excluded is_included
watch_reaches = refl

reload_puts_configuration_in_force_example :
    (l' : Loop) × (turn setup world one_event false loop ≡ ok l')
    × Answers setup cat_event below (handle_all setup events l'.daemon) false
    × ((w : WatchPolicy) (q : Text) (kind : ObjKind)
        → Memᴰ w policy.watches
        → InScope disk w q kind
        → Recorded l'.marks q)
    × ((q : Text) (e : MarkEntry)
        → mark_of l'.marks q ≡ some e
        → (w : WatchPolicy) × (p : Text) × (kind : ObjKind) × (ok : Bool) × Memᴰ w policy.watches
          × InScope disk w p kind
          × (path_eq p q ≡ true)
          × (e ≡ entry_of w kind ok))
reload_puts_configuration_in_force_example =
    reload_puts_configuration_in_force setup world one_event false loop loop events events config
      policy cat_event below literal_globs-SetsMatch disk-Finite reads_one refl world_loads
      config_builds opens (omega arith) watch_reaches says_deny

-- A rule is learned, another one, and the first is removed.
abbrev changes : List Change
changes = learns (rule 0 RuleAction.deny) ∷ learns (rule 0 RuleAction.allow) ∷ removes (1 ∷ []) ∷ []

changed-decide_example :
    let s = as_promised changes (promised no_rules) in
    ((changed changes no_rules).next_id ≡ s.counter)
    × (bag_of (changed changes no_rules).rules ≡ s.held)
    × (evaluate (changed changes no_rules) (text "/home/u/.ssh/id") (text "/usr/bin/cat") none
        ≡ decide (text "/home/u/.ssh/id") (text "/usr/bin/cat") none s.held)
changed-decide_example =
    changed-decide changes no_rules (text "/home/u/.ssh/id") (text "/usr/bin/cat") none
