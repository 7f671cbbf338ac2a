-- ===== src/Daemon/Restart.antt =====
-- An "Always" answer after the daemon is started again: the rules come back from the file.
use filewall.Policy.{WatchPolicy, covering_watch}
use filewall.Prelude.{◌+◌, ◌<◌, some, ◌≡◌, ◌≢◌, arith, ok}
use filewall.Proto.{Decision}
use filewall.Rules.{RuleAction, LearnedRule, Rules, push}
use filewall.Rules.Disk.{ReadsBack, save_atomic, load, load-save_atomic}
use filewall.Rules.Ids.{IdsValid, id_space, push-IdsValid}
use filewall.Daemon.{Event, Seen, Daemon, Setup, path_of, always_action, handle}
use filewall.Daemon.Access.{prompted}
use filewall.Daemon.Fate.{Asked, taught, always_answer_learns}

push-next_id :
    (rs : Rules) (r : LearnedRule)
    → rs.next_id + 2 < id_space
    → ((push rs r).next_id ≢ 0) × ((push rs r).next_id < id_space)
unfolding push
push-next_id rs r h = ground arith

-- After an "Always" answer whose save succeeds, the rules file reads back as the daemon's rules with the
-- new one.
pub learned_rules_load :
    (c : Setup) (ev : Event) (seen : Seen) (d : Daemon) (w : WatchPolicy) (decision : Decision)
    (a : RuleAction)
    → Asked c ev seen d
    → covering_watch d.policy (path_of seen) ≡ some w
    → (prompted c ev seen d).result ≡ ok decision
    → always_action decision ≡ some a
    → ReadsBack c.toml
    → IdsValid d.rules
    → d.rules.next_id + 2 < id_space
    → (save_atomic c.toml
        (push d.rules (taught c ev seen d w a))
        seen.stamp
        seen.faults
        d.files
        c.rules_path).0
      ≡ ok tt
    → load c.toml (handle c ev seen d).files c.rules_path ≡ push d.rules (taught c ev seen d w a)
learned_rules_load c ev seen d w decision a asked e p k back v n saved =
    let (_, f) = always_answer_learns c ev seen d w decision a asked e p k in
    let rule = taught c ev seen d w a in
    let (pos, low) = push-next_id d.rules rule n in
    rw f (
      load-save_atomic c.toml (push d.rules rule) seen.stamp seen.faults d.files c.rules_path back
        (push-IdsValid d.rules rule v n).0 pos low saved)
