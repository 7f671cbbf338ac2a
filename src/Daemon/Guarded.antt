-- ===== src/Daemon/Guarded.antt =====
-- What the configuration says is what the daemon does once it has started: `run` and `event_loop` of
-- filewalld/src/main.rs with the parts that they call.
use filewall.Config
use filewall.Config.{Config, Machine, build_policy}
use filewall.Config.Watches.{configured, entry_says, build_policy-evaluate}
use filewall.Daemon.{
  always_action, Event, Seen, Daemon, Setup, is_open_perm, path_of, exe_of, ask, verdict, decided,
  learn, skipped, outcome, handle, handle_all, respond,
}
use filewall.Daemon.Access.{Answers, Grants, handle-Answers}
use filewall.Daemon.Start.{Boot, Started, started, world_of, run, run_starts_iff}
use filewall.FilePath.{path_eq}
use filewall.Marks
use filewall.Marks.{MarkEntry}
use filewall.Marks.All.{entry_of}
use filewall.Marks.All.Coverage.{Recorded}
use filewall.Marks.All.Scope.{InScope, marks_are_the_scope}
use filewall.Marks.Lookup.{mark_of}
use filewall.Policy
use filewall.Policy.{GlobLib, Outcome, SetsMatch, WatchPolicy, Policy, covering_watch}
use filewall.Policy.Combine.{combine_deny_wins}
use filewall.Prelude.{
  Bool, true, false, Option, none, some, List, [], ◌∷◌, Result, ok, err, Text, Memᴰ, ◌≡◌, ◌≢◌, ◌∙◌,
  ap, refl, subst, arith, Bool-cases, inl, inr,
}
use filewall.Proto.{Decision, ObjKind}
use filewall.Proto.Frame.{ErrorKind}
use filewall.Rules.{RuleAction}
use filewall.Walk.Complete.{Finite}

-- Where the daemon has started, and over a finite tree, the marks that it has recorded are exactly
-- those of the scope of its policy's watches, each with the watch and the kind it has there.
pub start_marks_the_scope :
    (b : Boot) (s : Started)
    → run b ≡ ok s
    → Finite b.world.disk
    → ((w : WatchPolicy) (q : Text) (kind : ObjKind)
        → Memᴰ w s.loop.daemon.policy.watches
        → InScope b.world.disk w q kind
        → Recorded s.loop.marks q)
      × ((q : Text) (e : MarkEntry)
          → mark_of s.loop.marks q ≡ some e
          → (w : WatchPolicy) × (p : Text) × (kind : ObjKind) × (ok : Bool) × Memᴰ w
              s.loop.daemon.policy.watches
            × InScope b.world.disk w p kind
            × (path_eq p q ≡ true)
            × (e ≡ entry_of w kind ok))
unfolding started
start_marks_the_scope b s up fin =
    let (cfg, policy, _, _, _, _, same) = (run_starts_iff b s).0 up in
    rw same (marks_are_the_scope b.world.disk b.world.fan fin policy Marks.new)

learn-policy :
    (c : Setup) (seen : Seen) (a : Option RuleAction) (w : Option WatchPolicy) (d : Daemon)
    → (learn c seen a w d).policy ≡ d.policy
unfolding learn
learn-policy c seen none w d = refl
learn-policy c seen (some a) none d = refl
learn-policy c seen (some a) (some w) d = refl

decided-policy :
    (c : Setup) (seen : Seen) (w : Option WatchPolicy) (r : Result ErrorKind Decision) (d : Daemon)
    → (decided c seen w r d).0.policy ≡ d.policy
unfolding decided
decided-policy c seen w (ok decision) d = learn-policy c seen (always_action decision) w d
decided-policy c seen w (err e) d = refl

verdict-policy :
    (c : Setup) (ev : Event) (seen : Seen) (o : Outcome) (d : Daemon)
    → (verdict c ev seen o d).0.policy ≡ d.policy
unfolding verdict ask
verdict-policy c ev seen Outcome.allow d = refl
verdict-policy c ev seen Outcome.deny d = refl
verdict-policy c ev seen Outcome.prompt d = decided-policy c seen _ _ _

handle-policy :
    (c : Setup) (ev : Event) (seen : Seen) (d : Daemon) → (handle c ev seen d).policy ≡ d.policy
unfolding handle respond
handle-policy c ev seen d = ground (arith, verdict-policy c ev seen (outcome seen d) d)

pub handle_all-policy :
    (c : Setup) (events : List (Event × Seen)) (d : Daemon)
    → (handle_all c events d).policy ≡ d.policy
unfolding handle_all
handle_all-policy c [] d = refl
handle_all-policy c ((ev, seen) ∷ rest) d =
    handle_all-policy c rest (handle c ev seen d) ∙ handle-policy c ev seen d

-- A verdict of the configuration to deny is the verdict, whatever the learned rules say.
denied-outcome :
    (seen : Seen) (d : Daemon)
    → Policy.evaluate d.policy (path_of seen) (exe_of seen) ≡ Outcome.deny
    → outcome seen d ≡ Outcome.deny
unfolding outcome
denied-outcome seen d h = (combine_deny_wins _ _).0.1 (inl h)

not_granted :
    (c : Setup) (ev : Event) (seen : Seen) (d : Daemon)
    → is_open_perm ev ≡ true
    → ev.pid ≢ c.own_pid
    → skipped (covering_watch d.policy (path_of seen)) (path_of seen) ≡ false
    → outcome seen d ≡ Outcome.deny
    → ¬ Grants c ev seen d
unfolding skipped
not_granted c ev seen d a b e o (Grants.other_event h) = cc
not_granted c ev seen d a b e o (Grants.own_access h) = absurd (b h)
not_granted c ev seen d a b e o (Grants.excluded w h k) = absurd (ground (arith, rw h at e, k))
not_granted c ev seen d a b e o (Grants.out_of_patterns w h k) =
    absurd (ground (arith, rw h at e, k))
not_granted c ev seen d a b e o (Grants.decided_allow h) = cc
not_granted c ev seen d a b e o (Grants.user_allows x h k l) = cc

-- A daemon with the policy of a configuration enforces its denies, whatever it has handled since.
pub built_deny_is_enforced :
    (globs : GlobLib) (machine : Machine) (cfg : Config) (policy : Policy) (c : Setup) (d0 : Daemon)
    (before : List (Event × Seen)) (ev : Event) (seen : Seen)
    → SetsMatch globs
    → build_policy globs machine cfg ≡ ok policy
    → d0.policy ≡ policy
    → is_open_perm ev ≡ true
    → ev.pid ≢ c.own_pid
    → skipped (covering_watch d0.policy (path_of seen)) (path_of seen) ≡ false
    → entry_says globs machine cfg.default_action
        (configured globs machine cfg.watch (path_of seen))
        (exe_of seen)
      ≡ Outcome.deny
    → Answers c ev seen (handle_all c before d0) false
built_deny_is_enforced globs machine cfg policy c d0 before ev seen law built its perm other reach
      says =
    let d = handle_all c before d0 in
    let kept = handle_all-policy c before d0 in
    let evaluated =
      build_policy-evaluate globs machine cfg policy (path_of seen) (exe_of seen) law built in
    let denied : Policy.evaluate d.policy (path_of seen) (exe_of seen) ≡ Outcome.deny =
      rw (kept, its) (evaluated ∙ says) in
    let (answer, h, iff) = handle-Answers c ev seen d in
    elim (Bool-cases answer) [
      | inl e ↦ absurd (
          not_granted c ev seen d perm other (rw kept reach) (denied-outcome seen d denied)
            (iff.0 e))
      | inr e ↦ subst (Answers c ev seen d) e h
    ]

-- Where the daemon has started, and until it reloads: whatever accesses it has handled meanwhile and
-- whatever the user answered, an access by another process that its watch does not leave out is
-- refused where the configuration says deny. A glob set must match where one of its globs does.
pub configured_deny_is_enforced :
    (b : Boot) (s : Started) (cfg : Config) (before : List (Event × Seen)) (ev : Event)
    (seen : Seen)
    → SetsMatch b.world.globs
    → run b ≡ ok s
    → Config.load b.world.parse b.world.read_to_string (world_of b).config_path ≡ ok cfg
    → is_open_perm ev ≡ true
    → ev.pid ≢ s.setup.own_pid
    → skipped (covering_watch s.loop.daemon.policy (path_of seen)) (path_of seen) ≡ false
    → entry_says b.world.globs b.world.machine cfg.default_action
        (configured b.world.globs b.world.machine cfg.watch (path_of seen))
        (exe_of seen)
      ≡ Outcome.deny
    → Answers s.setup ev seen (handle_all s.setup before s.loop.daemon) false
unfolding started
configured_deny_is_enforced b s cfg before ev seen law up loaded perm other reach says =
    let (cfg2, policy, l2, built, _, _, same) = (run_starts_iff b s).0 up in
    let one : cfg2 ≡ cfg = cc (l2, loaded) in
    built_deny_is_enforced b.world.globs b.world.machine cfg policy s.setup s.loop.daemon before ev
      seen law (rw one at built) (ap (λ t. t.loop.daemon.policy) same) perm other reach says
