-- ===== src/Daemon/Reload.antt =====
-- A reload of filewalld/src/main.rs, from the configuration file to the answers: one turn of
-- `event_loop` with the parts that it calls. The marks are those that the daemon keeps a record of;
-- the kernel is not asked to take any off.
use filewall.Config
use filewall.Config.{Config, build_policy}
use filewall.Config.Watches.{configured, entry_says}
use filewall.Daemon.{Event, Seen, Setup, is_open_perm, path_of, exe_of, skipped, handle_all}
use filewall.Daemon.Access.{Answers}
use filewall.Daemon.Guarded.{handle_all-policy, built_deny_is_enforced}
use filewall.Daemon.Loop.{World, Poll, Loop, polled, new_policy, turn}
use filewall.Daemon.Loop.Turn.{reload_is_all_or_nothing}
use filewall.FilePath.{path_eq}
use filewall.Marks.{MarkEntry}
use filewall.Marks.All.{entry_of, mark_all}
use filewall.Marks.All.Coverage.{Recorded}
use filewall.Marks.All.Scope.{InScope, marks_are_the_scope}
use filewall.Marks.Lookup.{mark_of}
use filewall.Policy.{Outcome, SetsMatch, WatchPolicy, Policy, covering_watch}
use filewall.Prelude.{Bool, true, false, ◌||◌, some, List, ok, Text, Memᴰ, ◌≡◌, ◌≢◌, refl}
use filewall.Proto.{ObjKind}
use filewall.Rules.Disk.{load}
use filewall.TreeWatch
use filewall.Walk.Complete.{Finite}

module _ (c : Setup) (x : World) where
  loaded_policy :
      (cfg : Config) (policy : Policy)
      → Config.load x.parse x.read_to_string x.config_path ≡ ok cfg
      → build_policy x.globs x.machine cfg ≡ ok policy
      → new_policy c x ≡ ok policy
  unfolding new_policy
  loaded_policy cfg policy h k = rw (h, k) refl

  -- In a turn whose poll and reads succeed and in which a reload is due, where the configuration is
  -- read as `cfg` and compiles: the turn goes through, the marks on record are then exactly those of
  -- the scope of the new watches, each with its watch and kind, and from then until the next
  -- reload, whatever is handled and whatever the user answers, an access by another process that its
  -- watch does not leave out is refused where `cfg` says deny. A glob set must match where one of its
  -- globs does, and the tree must be finite.
  pub reload_puts_configuration_in_force :
      (poll : Poll) (hup : Bool) (l l1 : Loop) (events before : List (Event × Seen)) (cfg : Config)
      (policy : Policy) (ev : Event) (seen : Seen)
      → SetsMatch x.globs
      → Finite x.disk
      → polled c x poll l ≡ ok (events, l1)
      → (l1.reload || hup) ≡ true
      → Config.load x.parse x.read_to_string x.config_path ≡ ok cfg
      → build_policy x.globs x.machine cfg ≡ ok policy
      → is_open_perm ev ≡ true
      → ev.pid ≢ c.own_pid
      → skipped (covering_watch policy (path_of seen)) (path_of seen) ≡ false
      → entry_says x.globs x.machine cfg.default_action
          (configured x.globs x.machine cfg.watch (path_of seen))
          (exe_of seen)
        ≡ Outcome.deny
      → (l' : Loop) × (turn c x poll hup l ≡ ok l')
        × Answers c ev seen (handle_all c before l'.daemon) false
        × ((w : WatchPolicy) (q : Text) (kind : ObjKind)
            → Memᴰ w policy.watches
            → InScope x.disk w q kind
            → Recorded l'.marks q)
        × ((q : Text) (e : MarkEntry)
            → mark_of l'.marks q ≡ some e
            → (w : WatchPolicy) × (p : Text) × (kind : ObjKind) × (ok : Bool) × Memᴰ w
                policy.watches
              × InScope x.disk w p kind
              × (path_eq p q ≡ true)
              × (e ≡ entry_of w kind ok))
  reload_puts_configuration_in_force poll hup l l1 events before cfg policy ev seen law fin h k
        loaded built perm other reach says =
      let (marked, only) = marks_are_the_scope x.disk x.fan fin policy l1.marks in
      let d1 = record l1.daemon {
        policy = policy;
        rules = load c.toml l1.daemon.files c.rules_path;
      } in
      (
        record l1 {
          reload = false;
          marks = (mark_all x.disk x.fan policy l1.marks).1;
          treewatch = TreeWatch.build x.add_watch x.disk x.inotify_init policy;
          daemon = handle_all c events d1;
        },
        (reload_is_all_or_nothing c x poll hup l l1 events h k).1 policy
            (loaded_policy cfg policy loaded built),
        built_deny_is_enforced x.globs x.machine cfg policy c (handle_all c events d1) before ev
            seen law built (handle_all-policy c events d1) perm other
            (rw (handle_all-policy c events d1) reach) says,
        marked,
        only,
      )
