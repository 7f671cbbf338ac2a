-- ===== src/Examples/Decisions.antt =====
-- Accesses that are decided: the verdicts of rules and watches, and the loop over events.
use filewall.Daemon.Access.{Answers, Grants, handle-Answers}
use filewall.Daemon.Timeout.{ui_timeout_ms, ui_timeout_before_daemon}
use filewall.Policy
use filewall.Rules
use filewall.Policy.{learned_rule}
use filewall.Prelude.{◌*◌, ◌<◌, ◌≤◌, Bool, true, false, none, some, ◌≡◌, ◌↔◌, text}
use filewall.Policy.Learn.{in_scope, FromCwd, learned_rule-matches}
use filewall.Rules.Evaluate.{Applies, evaluate_deny_wins}
use filewall.Rules.{RuleAction, ObjectKind, Rules}
use filewall.Examples.Samples.{two_rules, cat_event, cat_seen, ready_daemon, setup, ssh_watch}

handle-Answers_example :
    (b : Bool) × Answers setup cat_event cat_seen ready_daemon b
    × ((b ≡ true) ↔ Grants setup cat_event cat_seen ready_daemon)
handle-Answers_example = handle-Answers setup cat_event cat_seen ready_daemon

ui_timeout_before_daemon_example :
    (2000 ≤ ui_timeout_ms 2)
    × (ui_timeout_ms 2 < 4294967296)
    × ((ui_timeout_ms 2 < 2 * 1000) ↔ (3 ≤ 2))
ui_timeout_before_daemon_example = ui_timeout_before_daemon 2

evaluate_deny_wins_example :
    ((Rules.evaluate two_rules (text "/a") (text "/b") none ≡ some RuleAction.deny)
      ↔ Applies RuleAction.deny two_rules.rules (text "/a") (text "/b") none)
    × ((Rules.evaluate two_rules (text "/a") (text "/b") none ≡ some RuleAction.allow) ↔ (
        Applies RuleAction.allow two_rules.rules (text "/a") (text "/b") none
        × (¬ Applies RuleAction.deny two_rules.rules (text "/a") (text "/b") none)))
    × ((Rules.evaluate two_rules (text "/a") (text "/b") none ≡ none) ↔ (
        (¬ Applies RuleAction.allow two_rules.rules (text "/a") (text "/b") none)
        × (¬ Applies RuleAction.deny two_rules.rules (text "/a") (text "/b") none)))
evaluate_deny_wins_example = evaluate_deny_wins two_rules (text "/a") (text "/b") none

learned_rule-matches_example :
    (Rules.matches
        (learned_rule 5 ssh_watch RuleAction.allow
          (text "/b")
          (text "/home/u/.ssh/id")
          (some (text "/t")))
        (text "/x")
        (text "/b")
        none
      ≡ true)
    ↔ ((text "/b" ≡ text "/b")
        × (in_scope ObjectKind.file (text "/home/u/.ssh") (text "/home/u/.ssh/id") (text "/x")
            ≡ true)
        × FromCwd false (text "/t") none)
learned_rule-matches_example =
    learned_rule-matches 5 ssh_watch RuleAction.allow (text "/b") (text "/home/u/.ssh/id")
      (text "/t") (text "/x") (text "/b") none
