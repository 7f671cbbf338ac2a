-- ===== src/Daemon/Fate.antt =====
-- What an answer of the user does to the accesses that come after.
use filewall.Policy.{WatchPolicy, Outcome, covering_watch, learned_rule}
use filewall.Prelude.{true, false, some, ◌≡◌, ◌≢◌, refl, arith, ok}
use filewall.Proto.{Decision}
use filewall.Rules
use filewall.Rules.{RuleAction, Rules, LearnedRule, push}
use filewall.Rules.Disk.{save_atomic}
use filewall.Daemon.{
  Event, Seen, Daemon, Setup, is_open_perm, path_of, exe_of, cwd_of, always_action, ask, verdict,
  skipped, outcome, handle, respond, decided, learn,
}
use filewall.Daemon.Access.{prompted}

abbrev pub settled : RuleAction → Outcome
settled RuleAction.allow = Outcome.allow
settled RuleAction.deny = Outcome.deny

module _ (c : Setup) (ev : Event) (seen : Seen) (d : Daemon) where
  -- The access is one to ask about: it is an open, not the daemon's own, and not out of scope.
  pub record Asked : Type 0 where
    pub opens : is_open_perm ev ≡ true
    pub foreign : ev.pid ≢ c.own_pid
    pub in_reach : skipped (covering_watch d.policy (path_of seen)) (path_of seen) ≡ false
    pub open_verdict : outcome seen d ≡ Outcome.prompt

  asked_handle : Asked → handle c ev seen d ≡ (let (d', b) = ask c ev seen d in respond ev b d')
  unfolding handle verdict
  asked_handle h = ground (arith, h.opens, h.foreign, h.in_reach, h.open_verdict)

  -- What an "Always" answer adds.
  abbrev pub taught : WatchPolicy → RuleAction → LearnedRule
  taught w a = learned_rule seen.now_unix w a (exe_of seen) (path_of seen) (some (cwd_of seen))

  -- An "Always" answer for a covered access adds its rule and saves.
  pub always_answer_learns :
      (w : WatchPolicy) (decision : Decision) (a : RuleAction)
      → Asked
      → covering_watch d.policy (path_of seen) ≡ some w
      → (prompted c ev seen d).result ≡ ok decision
      → always_action decision ≡ some a
      → ((handle c ev seen d).rules ≡ push d.rules (taught w a))
        × ((handle c ev seen d).files
            ≡ (save_atomic c.toml
                (push d.rules (taught w a))
                seen.stamp
                seen.faults
                d.files
                c.rules_path).1)
  unfolding ask decided learn respond
  always_answer_learns w decision a asked e p k = rw (asked_handle asked, p, e, k) (refl, refl)

  -- The access was asked about, a watch covers it, and the user answered "Always".
  pub record Taught (w : WatchPolicy) (a : RuleAction) : Type 0 where
    pub asked : Asked
    pub covered : covering_watch d.policy (path_of seen) ≡ some w
    pub decision : Decision
    pub answered : (prompted c ev seen d).result ≡ ok decision
    pub says_always : always_action decision ≡ some a

  -- The rules and the files are as they were, and the user taught nothing; or the user taught one
  -- rule, which is added and went through one save.
  pub data Effect (d' : Daemon) : Type 0 where
    unchanged :
        ((w : WatchPolicy) (a : RuleAction) → ¬ Taught w a)
        → d'.rules ≡ d.rules
        → d'.files ≡ d.files
        → Effect d'
    learned :
        (w : WatchPolicy) (a : RuleAction)
        → Taught w a
        → d'.rules ≡ push d.rules (taught w a)
        → d'.files
          ≡ (save_atomic c.toml
              (push d.rules (taught w a))
              seen.stamp
              seen.faults
              d.files
              c.rules_path).1
        → Effect d'
