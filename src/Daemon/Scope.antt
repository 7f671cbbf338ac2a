-- ===== src/Daemon/Scope.antt =====
-- The prompt says what an "Always" answer will store.
use filewall.Policy.{WatchPolicy, learned_rule}
use filewall.Prelude.{true, none, some, ◌≡◌, ◌↔◌, arith, if◌then◌else◌}
use filewall.Rules.{RuleAction, tree}
use filewall.Daemon.{Event, Seen, Setup, path_of, exe_of, cwd_of, prompt_request}

-- The request shows the rule's object and executable, says "tree" just when the rule is for a tree,
-- and says that the directory is pinned just when the rule is limited to the directory shown.
pub prompt_shows_the_rule :
    (c : Setup) (ev : Event) (seen : Seen) (w : WatchPolicy) (a : RuleAction)
    → let req = prompt_request c ev seen (some w) in
      let rule = learned_rule seen.now_unix w a (exe_of seen) (path_of seen) (some (cwd_of seen)) in
      (rule.object ≡ req.always_object)
      × (rule.exe ≡ req.exe)
      × ((req.always_tree ≡ true) ↔ (rule.object_kind ≡ tree))
      × (rule.cwd ≡ (if req.always_cwd_pinned then some req.cwd else none))
unfolding prompt_request learned_rule
prompt_shows_the_rule c ev seen w a = ground arith
