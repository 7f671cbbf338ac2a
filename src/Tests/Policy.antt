-- ===== src/Tests/Policy.antt =====
-- The tests of filewalld/src/policy.rs, but for those in Patterns.
use filewall.FilePath.{is_some, starts_with, strip_prefix}
use filewall.Policy.{
  Action, Outcome, from_action, combine, WatchPolicy, Policy, new_watch, pattern_is_deep,
  always_target, learned_rule, covers, covering_watch, is_excluded, is_included, evaluate_watch,
  evaluate,
}
use filewall.Prelude.{
  Bool, true, false, none, some, [], ◌∷◌, Text, text, text_eq, Result, ok, ◌>>=◌, ◌≡◌, refl,
}
use filewall.Rules.{RuleAction, ObjectKind}
use filewall.Tests.{after}
use filewall.Tests.Globs.{globs}

abbrev ssh_policy : Result Text WatchPolicy
ssh_policy =
    new_watch globs (text "/home/user/.ssh")
      (text "/usr/bin/ssh" ∷ text "/usr/bin/ssh-*" ∷ text "/usr/lib/openssh/*" ∷ []) Action.prompt
      ObjectKind.file false [] []

abbrev CombineDenyWins : Type 0
CombineDenyWins =
    (combine Outcome.allow (some RuleAction.deny) ≡ Outcome.deny)
    × (combine Outcome.deny (some RuleAction.allow) ≡ Outcome.deny)
    × (combine Outcome.prompt (some RuleAction.allow) ≡ Outcome.allow)
    × (combine Outcome.allow none ≡ Outcome.allow)
    × (combine Outcome.prompt none ≡ Outcome.prompt)

combine_deny_wins : CombineDenyWins
unfolding combine
combine_deny_wins = (refl, refl, refl, refl, refl)

abbrev home_ssh : ObjectKind → Bool → Result Text WatchPolicy
home_ssh kind learn_cwd =
    new_watch globs (text "/home/u/.ssh") [] Action.prompt kind learn_cwd [] []

abbrev LearnedRuleTreeUsesWatchRoot : Type 0
LearnedRuleTreeUsesWatchRoot =
    (after (home_ssh ObjectKind.tree false) (λ p.
        (learned_rule 100 p RuleAction.allow (text "/usr/bin/node") (text "/home/u/.ssh/id_ed25519")
          (some (text "/home/u/p"))).object_kind)
      ≡ ok ObjectKind.tree)
    × (after (home_ssh ObjectKind.tree false) (λ p.
          (learned_rule 100 p RuleAction.allow (text "/usr/bin/node")
            (text "/home/u/.ssh/id_ed25519") (some (text "/home/u/p"))).object)
        ≡ ok (text "/home/u/.ssh"))
    × (after (home_ssh ObjectKind.tree false) (λ p.
          (learned_rule 100 p RuleAction.allow (text "/usr/bin/node")
            (text "/home/u/.ssh/id_ed25519") (some (text "/home/u/p"))).exe)
        ≡ ok (text "/usr/bin/node"))
    × (after (home_ssh ObjectKind.tree false) (λ p.
          (learned_rule 100 p RuleAction.allow (text "/usr/bin/node")
            (text "/home/u/.ssh/id_ed25519") (some (text "/home/u/p"))).cwd)
        ≡ ok none)

learned_rule_tree_uses_watch_root : LearnedRuleTreeUsesWatchRoot
unfolding new_watch text_eq from_action combine always_target learned_rule covers covering_watch
    is_excluded is_included evaluate_watch evaluate starts_with strip_prefix pattern_is_deep
learned_rule_tree_uses_watch_root = (refl, refl, refl, refl)

abbrev LearnedRuleFileUsesExactPathAndCwd : Type 0
LearnedRuleFileUsesExactPathAndCwd =
    (after (home_ssh ObjectKind.file true) (λ p.
        (learned_rule 100 p RuleAction.deny (text "/usr/bin/node") (text "/home/u/.ssh/id_ed25519")
          (some (text "/home/u/p"))).object_kind)
      ≡ ok ObjectKind.file)
    × (after (home_ssh ObjectKind.file true) (λ p.
          (learned_rule 100 p RuleAction.deny (text "/usr/bin/node")
            (text "/home/u/.ssh/id_ed25519") (some (text "/home/u/p"))).object)
        ≡ ok (text "/home/u/.ssh/id_ed25519"))
    × (after (home_ssh ObjectKind.file true) (λ p.
          (learned_rule 100 p RuleAction.deny (text "/usr/bin/node")
            (text "/home/u/.ssh/id_ed25519") (some (text "/home/u/p"))).action)
        ≡ ok RuleAction.deny)
    × (after (home_ssh ObjectKind.file true) (λ p.
          (learned_rule 100 p RuleAction.deny (text "/usr/bin/node")
            (text "/home/u/.ssh/id_ed25519") (some (text "/home/u/p"))).cwd)
        ≡ ok (some (text "/home/u/p")))

learned_rule_file_uses_exact_path_and_cwd : LearnedRuleFileUsesExactPathAndCwd
unfolding new_watch text_eq from_action combine always_target learned_rule covers covering_watch
    is_excluded is_included evaluate_watch evaluate starts_with strip_prefix pattern_is_deep
learned_rule_file_uses_exact_path_and_cwd = (refl, refl, refl, refl)

abbrev ExactAllowMatches : Type 0
ExactAllowMatches =
    after ssh_policy (λ p. evaluate_watch p (text "/usr/bin/ssh")) ≡ ok Outcome.allow

exact_allow_matches : ExactAllowMatches
unfolding new_watch text_eq from_action combine always_target learned_rule covers covering_watch
    is_excluded is_included evaluate_watch evaluate starts_with strip_prefix pattern_is_deep
exact_allow_matches = refl

abbrev UnlistedBinaryPrompts : Type 0
UnlistedBinaryPrompts =
    (after ssh_policy (λ p. evaluate_watch p (text "/usr/bin/node")) ≡ ok Outcome.prompt)
    × (after ssh_policy (λ p. evaluate_watch p (text "/usr/bin/cat")) ≡ ok Outcome.prompt)

unlisted_binary_prompts : UnlistedBinaryPrompts
unfolding new_watch text_eq from_action combine always_target learned_rule covers covering_watch
    is_excluded is_included evaluate_watch evaluate starts_with strip_prefix pattern_is_deep
unlisted_binary_prompts = (refl, refl)

abbrev StarSuffixGlobMatches : Type 0
StarSuffixGlobMatches =
    (after ssh_policy (λ p. evaluate_watch p (text "/usr/bin/ssh-add")) ≡ ok Outcome.allow)
    × (after ssh_policy (λ p. evaluate_watch p (text "/usr/bin/ssh-keygen")) ≡ ok Outcome.allow)

star_suffix_glob_matches : StarSuffixGlobMatches
unfolding new_watch text_eq from_action combine always_target learned_rule covers covering_watch
    is_excluded is_included evaluate_watch evaluate starts_with strip_prefix pattern_is_deep
star_suffix_glob_matches = (refl, refl)

abbrev SingleStarDoesNotCrossSlash : Type 0
SingleStarDoesNotCrossSlash =
    (after ssh_policy (λ p. evaluate_watch p (text "/usr/lib/openssh/sftp-server"))
      ≡ ok Outcome.allow)
    × (after ssh_policy (λ p. evaluate_watch p (text "/usr/lib/openssh/sub/evil"))
        ≡ ok Outcome.prompt)

single_star_does_not_cross_slash : SingleStarDoesNotCrossSlash
unfolding new_watch text_eq from_action combine always_target learned_rule covers covering_watch
    is_excluded is_included evaluate_watch evaluate starts_with strip_prefix pattern_is_deep
single_star_does_not_cross_slash = (refl, refl)

abbrev DoubleStarCrossesSlash : Type 0
DoubleStarCrossesSlash =
    after
      (new_watch globs (text "/home/user/.aws")
        (text "/usr/lib/python*/site-packages/awscli/**" ∷ []) Action.prompt ObjectKind.file false
        [] [])
      (λ p. evaluate_watch p (text "/usr/lib/python3.12/site-packages/awscli/clidriver.py"))
    ≡ ok Outcome.allow

double_star_crosses_slash : DoubleStarCrossesSlash
unfolding new_watch text_eq from_action combine always_target learned_rule covers covering_watch
    is_excluded is_included evaluate_watch evaluate starts_with strip_prefix pattern_is_deep
double_star_crosses_slash = refl

abbrev DefaultActionDenyIsHonored : Type 0
DefaultActionDenyIsHonored =
    after
      (new_watch globs (text "/x") (text "/usr/bin/ssh" ∷ []) Action.deny ObjectKind.file false []
        [])
      (λ p. evaluate_watch p (text "/usr/bin/node"))
    ≡ ok Outcome.deny

default_action_deny_is_honored : DefaultActionDenyIsHonored
unfolding new_watch text_eq from_action combine always_target learned_rule covers covering_watch
    is_excluded is_included evaluate_watch evaluate starts_with strip_prefix pattern_is_deep
default_action_deny_is_honored = refl

abbrev CoversMatchesSubpathsOnly : Type 0
CoversMatchesSubpathsOnly =
    (after ssh_policy (λ p. covers p (text "/home/user/.ssh/id_ed25519")) ≡ ok true)
    × (after ssh_policy (λ p. covers p (text "/home/user/.aws/credentials")) ≡ ok false)

covers_matches_subpaths_only : CoversMatchesSubpathsOnly
unfolding new_watch text_eq from_action combine always_target learned_rule covers covering_watch
    is_excluded is_included evaluate_watch evaluate starts_with strip_prefix pattern_is_deep
covers_matches_subpaths_only = (refl, refl)

abbrev ExcludeGlobsPrunePaths : Type 0
ExcludeGlobsPrunePaths =
    (after
        (new_watch globs (text "/home/u/.config") [] Action.prompt ObjectKind.file false
          (text "**/Cache" ∷ text "**/*.tmp" ∷ []) [])
        (λ p. is_excluded p (text "/home/u/.config/app/Cache"))
      ≡ ok true)
    × (after
          (new_watch globs (text "/home/u/.config") [] Action.prompt ObjectKind.file false
            (text "**/Cache" ∷ text "**/*.tmp" ∷ []) [])
          (λ p. is_excluded p (text "/home/u/.config/x/y.tmp"))
        ≡ ok true)
    × (after
          (new_watch globs (text "/home/u/.config") [] Action.prompt ObjectKind.file false
            (text "**/Cache" ∷ text "**/*.tmp" ∷ []) [])
          (λ p. is_excluded p (text "/home/u/.config/keep.txt"))
        ≡ ok false)
    × (after (new_watch globs (text "/x") [] Action.prompt ObjectKind.file false [] [])
          (λ p. is_excluded p (text "/x/anything/Cache"))
        ≡ ok false)

exclude_globs_prune_paths : ExcludeGlobsPrunePaths
unfolding new_watch text_eq from_action combine always_target learned_rule covers covering_watch
    is_excluded is_included evaluate_watch evaluate starts_with strip_prefix pattern_is_deep
exclude_globs_prune_paths = (refl, refl, refl, refl)

abbrev AlwaysTargetTreeIsRootFileIsPath : Type 0
AlwaysTargetTreeIsRootFileIsPath =
    (after (home_ssh ObjectKind.tree false) (λ p. always_target p (text "/home/u/.ssh/id_ed25519"))
      ≡ ok (text "/home/u/.ssh", ObjectKind.tree))
    × (after (home_ssh ObjectKind.file false)
          (λ p. always_target p (text "/home/u/.ssh/id_ed25519"))
        ≡ ok (text "/home/u/.ssh/id_ed25519", ObjectKind.file))

always_target_tree_is_root_file_is_path : AlwaysTargetTreeIsRootFileIsPath
unfolding new_watch text_eq from_action combine always_target learned_rule covers covering_watch
    is_excluded is_included evaluate_watch evaluate starts_with strip_prefix pattern_is_deep
always_target_tree_is_root_file_is_path = (refl, refl)

-- The object and its kind, as they are shown and as they are stored, with whether a directory is.
abbrev Agrees : ObjectKind → Bool → Type 0
Agrees kind learn_cwd =
    let path = text "/home/u/.ssh/id_ed25519" in
    let rule_of = λ (p : WatchPolicy).
      learned_rule 100 p RuleAction.allow (text "/usr/bin/node") path (some (text "/home/u/p")) in
    (after (home_ssh kind learn_cwd) (λ p. (rule_of p).object)
      ≡ after (home_ssh kind learn_cwd) (λ p. (always_target p path).0))
    × (after (home_ssh kind learn_cwd) (λ p. (rule_of p).object_kind)
        ≡ after (home_ssh kind learn_cwd) (λ p. (always_target p path).1))
    × (after (home_ssh kind learn_cwd) (λ p. is_some (rule_of p).cwd)
        ≡ after (home_ssh kind learn_cwd) (λ p. p.learn_cwd))

abbrev AlwaysTargetAgreesWithLearnedRule : Type 0
AlwaysTargetAgreesWithLearnedRule =
    (Agrees ObjectKind.tree false)
    × (Agrees ObjectKind.tree true)
    × (Agrees ObjectKind.file false)
    × (Agrees ObjectKind.file true)

always_target_agrees_with_learned_rule : AlwaysTargetAgreesWithLearnedRule
unfolding new_watch text_eq from_action combine always_target learned_rule covers covering_watch
    is_excluded is_included evaluate_watch evaluate starts_with strip_prefix pattern_is_deep
always_target_agrees_with_learned_rule =
    ((refl, refl, refl), (refl, refl, refl), (refl, refl, refl), (refl, refl, refl))

abbrev two_watches : Result Text Policy
two_watches = do
  ssh ←
      new_watch globs (text "/home/user/.ssh") (text "/usr/bin/ssh" ∷ []) Action.prompt
        ObjectKind.file false [] []
  aws ←
      new_watch globs (text "/home/user/.aws") (text "/usr/bin/aws" ∷ []) Action.prompt
        ObjectKind.file false [] []
  ok (record { watches = ssh ∷ aws ∷ [] })

abbrev PolicyRoutesToCoveringWatch : Type 0
PolicyRoutesToCoveringWatch =
    (after two_watches (λ p. evaluate p (text "/home/user/.ssh/id_ed25519") (text "/usr/bin/ssh"))
      ≡ ok Outcome.allow)
    × (after two_watches
          (λ p. evaluate p (text "/home/user/.aws/credentials") (text "/usr/bin/ssh"))
        ≡ ok Outcome.prompt)
    × (after two_watches (λ p. evaluate p (text "/etc/hosts") (text "/usr/bin/node"))
        ≡ ok Outcome.allow)

policy_routes_to_covering_watch : PolicyRoutesToCoveringWatch
unfolding new_watch text_eq from_action combine always_target learned_rule covers covering_watch
    is_excluded is_included evaluate_watch evaluate starts_with strip_prefix pattern_is_deep
policy_routes_to_covering_watch = (refl, refl, refl)
