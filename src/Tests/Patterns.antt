-- ===== src/Tests/Patterns.antt =====
-- The tests of filewalld/src/policy.rs on the patterns of a watch.
use filewall.FilePath.{strip_prefix}
use filewall.Policy.{Action, WatchPolicy, new_watch, pattern_is_deep, is_included}
use filewall.Prelude.{true, false, List, [], ◌∷◌, Text, text, text_eq, Result, ok, err, ◌≡◌, refl}
use filewall.Rules.{ObjectKind}
use filewall.Tests.{after}
use filewall.Tests.Globs.{globs}

abbrev patterns_watch : Text → List Text → Result Text WatchPolicy
patterns_watch root patterns =
    new_watch globs root [] Action.prompt ObjectKind.file false [] patterns

abbrev PatternIsDeepDetectsSeparatorCrossing : Type 0
PatternIsDeepDetectsSeparatorCrossing =
    (pattern_is_deep (text "*_history") ≡ false)
    × (pattern_is_deep (text ".python_history") ≡ false)
    × (pattern_is_deep (text "**/*_history") ≡ true)
    × (pattern_is_deep (text "sub/*_history") ≡ true)
    × (pattern_is_deep (text "**") ≡ true)

pattern_is_deep_detects_separator_crossing : PatternIsDeepDetectsSeparatorCrossing
unfolding pattern_is_deep
pattern_is_deep_detects_separator_crossing = (refl, refl, refl, refl, refl)

abbrev NoPatternsIncludesEverythingAndIsRecursive : Type 0
NoPatternsIncludesEverythingAndIsRecursive =
    (after (patterns_watch (text "/home/u") ([])) (λ p. p.recursive) ≡ ok true)
    × (after (patterns_watch (text "/home/u") ([])) (λ p. is_included p (text "/home/u/anything"))
        ≡ ok true)
    × (after (patterns_watch (text "/home/u") ([]))
          (λ p. is_included p (text "/home/u/deep/nested/file"))
        ≡ ok true)

no_patterns_includes_everything_and_is_recursive : NoPatternsIncludesEverythingAndIsRecursive
unfolding new_watch text_eq is_included strip_prefix pattern_is_deep
no_patterns_includes_everything_and_is_recursive = (refl, refl, refl)

abbrev ShallowPatternsMatchImmediateChildrenOnlyAndAreNonRecursive : Type 0
ShallowPatternsMatchImmediateChildrenOnlyAndAreNonRecursive =
    (after (patterns_watch (text "/home/u") (text "*_history" ∷ text ".python_history" ∷ []))
        (λ p. p.recursive)
      ≡ ok false)
    × (after (patterns_watch (text "/home/u") (text "*_history" ∷ text ".python_history" ∷ []))
          (λ p. is_included p (text "/home/u/.zsh_history"))
        ≡ ok true)
    × (after (patterns_watch (text "/home/u") (text "*_history" ∷ text ".python_history" ∷ []))
          (λ p. is_included p (text "/home/u/.python_history"))
        ≡ ok true)
    × (after (patterns_watch (text "/home/u") (text "*_history" ∷ text ".python_history" ∷ []))
          (λ p. is_included p (text "/home/u/sub/foo_history"))
        ≡ ok false)
    × (after (patterns_watch (text "/home/u") (text "*_history" ∷ text ".python_history" ∷ []))
          (λ p. is_included p (text "/home/u/notes.txt"))
        ≡ ok false)

shallow_patterns_match_immediate_children_only_and_are_non_recursive :
    ShallowPatternsMatchImmediateChildrenOnlyAndAreNonRecursive
unfolding new_watch text_eq is_included strip_prefix pattern_is_deep
shallow_patterns_match_immediate_children_only_and_are_non_recursive =
    (refl, refl, refl, refl, refl)

abbrev DeepPatternsMatchAnyDepthAndForceRecursive : Type 0
DeepPatternsMatchAnyDepthAndForceRecursive =
    (after (patterns_watch (text "/home/u") (text "**/*_history" ∷ [])) (λ p. p.recursive)
      ≡ ok true)
    × (after (patterns_watch (text "/home/u") (text "**/*_history" ∷ []))
          (λ p. is_included p (text "/home/u/.zsh_history"))
        ≡ ok true)
    × (after (patterns_watch (text "/home/u") (text "**/*_history" ∷ []))
          (λ p. is_included p (text "/home/u/.config/app/foo_history"))
        ≡ ok true)
    × (after (patterns_watch (text "/home/u") (text "**/*_history" ∷ []))
          (λ p. is_included p (text "/home/u/.config/app/notes.txt"))
        ≡ ok false)

deep_patterns_match_any_depth_and_force_recursive : DeepPatternsMatchAnyDepthAndForceRecursive
unfolding new_watch text_eq is_included strip_prefix pattern_is_deep
deep_patterns_match_any_depth_and_force_recursive = (refl, refl, refl, refl)

abbrev ShallowAndDeepPatternsCoexist : Type 0
ShallowAndDeepPatternsCoexist =
    (after (patterns_watch (text "/home/u") (text "*_history" ∷ text "**/*_history" ∷ []))
        (λ p. p.recursive)
      ≡ ok true)
    × (after (patterns_watch (text "/home/u") (text "*_history" ∷ text "**/*_history" ∷ []))
          (λ p. is_included p (text "/home/u/zsh_history"))
        ≡ ok true)
    × (after (patterns_watch (text "/home/u") (text "*_history" ∷ text "**/*_history" ∷ []))
          (λ p. is_included p (text "/home/u/a/b/zsh_history"))
        ≡ ok true)
    × (after (patterns_watch (text "/home/u") (text "*_history" ∷ text "**/*_history" ∷ []))
          (λ p. is_included p (text "/home/u/a/b/keep.txt"))
        ≡ ok false)

shallow_and_deep_patterns_coexist : ShallowAndDeepPatternsCoexist
unfolding new_watch text_eq is_included strip_prefix pattern_is_deep
shallow_and_deep_patterns_coexist = (refl, refl, refl, refl)

abbrev IsIncludedInvalidGlobIsReportedAtBuild : Type 0
IsIncludedInvalidGlobIsReportedAtBuild =
    patterns_watch (text "/x") (text "[invalid" ∷ []) ≡ err (text "unclosed character class")

is_included_invalid_glob_is_reported_at_build : IsIncludedInvalidGlobIsReportedAtBuild
unfolding new_watch text_eq is_included strip_prefix pattern_is_deep
is_included_invalid_glob_is_reported_at_build = refl
