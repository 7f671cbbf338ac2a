-- ===== src/Tests/Config.antt =====
-- The tests of filewalld/src/config.rs. What the TOML crate reads from the text of a test is given, and so
-- are the answers of the file system and of the environment.
use filewall.Config.{
  Config, ConfigError, ConfigKeys, WatchKeys, Machine, glob, from_str, with_defaults,
  with_watch_defaults, expand_home, canonicalize_root, root_of, build_policy,
}
use filewall.FilePath.{starts_with, strip_prefix, join}
use filewall.Policy.{
  Action, Outcome, from_action, Policy, new_watch, pattern_is_deep, evaluate, evaluate_watch,
  covering_watch, covers, is_included,
}
use filewall.Prelude.{
  true, false, none, some, List, [], ◌∷◌, map, any, drop, take, is_nil, Text, text, text_eq, Result,
  ok, err, ◌>>=◌, if◌then◌else◌, ◌≡◌, refl,
}
use filewall.Rules.{ObjectKind}
use filewall.Tests.{after}
use filewall.Tests.Globs.{globs}

-- A text with nothing in it, and a `[[watch]]` with its path only.
abbrev no_keys : ConfigKeys
no_keys = record {
  default_action = none;
  prompt_timeout_seconds = none;
  socket_path = none;
  control_socket_path = none;
  rules_path = none;
  watch = none;
}

abbrev at : Text → WatchKeys
at path = record {
  path = path;
  allow = none;
  exclude = none;
  learn_object = none;
  learn_match = none;
  patterns = none;
}

-- The configuration from a text that the crate reads as these keys.
abbrev config : ConfigKeys → Result ConfigError Config
config keys = from_str (λ t. ok keys) []

abbrev watches : List WatchKeys → Result ConfigError Config
watches ws = config (record no_keys { watch = some ws })

abbrev machine : Machine
machine = record { home = some (text "/home/tester"); canonicalize = λ p. none }

abbrev built : Machine → List WatchKeys → Result ConfigError Policy
built m ws = do cfg ← watches ws; build_policy globs m cfg

abbrev ParsesFullConfig : Type 0
ParsesFullConfig =
    let cfg = config (record no_keys {
      default_action = some Action.prompt;
      prompt_timeout_seconds = some 15;
      socket_path = some (text "/run/filewall/prompt.sock");
      watch = some (
          record (at (text "/home/user/.ssh")) {
            allow = some (text "/usr/bin/ssh" ∷ text "/usr/bin/ssh-*" ∷ []);
          }
          ∷ []);
    }) in
    (after cfg (λ c. c.default_action) ≡ ok Action.prompt)
    × (after cfg (λ c. c.prompt_timeout_seconds) ≡ ok 15)
    × (after cfg (λ c. map (λ w. w.path) c.watch) ≡ ok (text "/home/user/.ssh" ∷ []))

parses_full_config : ParsesFullConfig
unfolding from_str with_defaults with_watch_defaults expand_home canonicalize_root root_of
    build_policy new_watch pattern_is_deep evaluate evaluate_watch covering_watch covers is_included
    from_action starts_with strip_prefix join text_eq
parses_full_config = (refl, refl, refl)

abbrev ControlSocketPathDefaultsWhenAbsent : Type 0
ControlSocketPathDefaultsWhenAbsent =
    after (config (record no_keys { default_action = some Action.prompt }))
      (λ c. c.control_socket_path)
    ≡ ok (text "/run/filewall/control.sock")

control_socket_path_defaults_when_absent : ControlSocketPathDefaultsWhenAbsent
unfolding from_str with_defaults with_watch_defaults expand_home canonicalize_root root_of
    build_policy new_watch pattern_is_deep evaluate evaluate_watch covering_watch covers is_included
    from_action starts_with strip_prefix join text_eq
control_socket_path_defaults_when_absent = refl

abbrev ControlSocketPathIsReadWhenPresent : Type 0
ControlSocketPathIsReadWhenPresent =
    after (config (record no_keys { control_socket_path = some (text "/tmp/ctl.sock") }))
      (λ c. c.control_socket_path)
    ≡ ok (text "/tmp/ctl.sock")

control_socket_path_is_read_when_present : ControlSocketPathIsReadWhenPresent
unfolding from_str with_defaults with_watch_defaults expand_home canonicalize_root root_of
    build_policy new_watch pattern_is_deep evaluate evaluate_watch covering_watch covers is_included
    from_action starts_with strip_prefix join text_eq
control_socket_path_is_read_when_present = refl

abbrev AppliesDefaultsWhenOmitted : Type 0
AppliesDefaultsWhenOmitted =
    let cfg = watches (at (text "/home/user/.ssh") ∷ []) in
    (after cfg (λ c. c.default_action) ≡ ok Action.prompt)
    × (after cfg (λ c. c.prompt_timeout_seconds) ≡ ok 30)
    × (after cfg (λ c. c.socket_path) ≡ ok (text "/run/filewall/prompt.sock"))
    × (after cfg (λ c. map (λ w. w.allow) c.watch) ≡ ok ([] ∷ []))

applies_defaults_when_omitted : AppliesDefaultsWhenOmitted
unfolding from_str with_defaults with_watch_defaults expand_home canonicalize_root root_of
    build_policy new_watch pattern_is_deep evaluate evaluate_watch covering_watch covers is_included
    from_action starts_with strip_prefix join text_eq
applies_defaults_when_omitted = (refl, refl, refl, refl)

abbrev BuildPolicyEvaluates : Type 0
BuildPolicyEvaluates =
    let policy =
      built machine
        (record (at (text "/home/user/.ssh")) { allow = some (text "/usr/bin/ssh" ∷ []) } ∷ []) in
    (after policy (λ p. evaluate p (text "/home/user/.ssh/id_ed25519") (text "/usr/bin/ssh"))
      ≡ ok Outcome.allow)
    × (after policy (λ p. evaluate p (text "/home/user/.ssh/id_ed25519") (text "/usr/bin/node"))
        ≡ ok Outcome.prompt)

build_policy_evaluates : BuildPolicyEvaluates
unfolding from_str with_defaults with_watch_defaults expand_home canonicalize_root root_of
    build_policy new_watch pattern_is_deep evaluate evaluate_watch covering_watch covers is_included
    from_action starts_with strip_prefix join text_eq
build_policy_evaluates = (refl, refl)

abbrev LearnSettingsDefaultAndParse : Type 0
LearnSettingsDefaultAndParse =
    let cfg = config (record no_keys {
      rules_path = some (text "/var/lib/filewall/rules.toml");
      watch = some (
          at (text "/home/u/.ssh")
          ∷ record (at (text "/home/u/.aws")) {
            learn_object = some ObjectKind.tree;
            learn_match = some (text "exe" ∷ text "cwd" ∷ []);
          }
          ∷ []);
    }) in
    (after cfg (λ c. c.rules_path) ≡ ok (text "/var/lib/filewall/rules.toml"))
    × (after cfg (λ c. map (λ w. w.learn_object) c.watch)
        ≡ ok (ObjectKind.file ∷ ObjectKind.tree ∷ []))
    × (after cfg (λ c. map (λ w. is_nil w.learn_match) (take 1 c.watch)) ≡ ok (true ∷ []))
    × (after cfg (λ c. map (λ w. any (λ m. text_eq m (text "cwd")) w.learn_match) (drop 1 c.watch))
        ≡ ok (true ∷ []))

learn_settings_default_and_parse : LearnSettingsDefaultAndParse
unfolding from_str with_defaults with_watch_defaults expand_home canonicalize_root root_of
    build_policy new_watch pattern_is_deep evaluate evaluate_watch covering_watch covers is_included
    from_action starts_with strip_prefix join text_eq
learn_settings_default_and_parse = (refl, refl, refl, refl)

-- `/t/link` is a symbolic link to `/t/real`.
abbrev linked : Machine
linked = record machine {
  canonicalize = λ p. if text_eq p (text "/t/link") then some (text "/t/real") else none;
}

abbrev WatchOnSymlinkedDirStillCoversCanonicalAccess : Type 0
WatchOnSymlinkedDirStillCoversCanonicalAccess =
    let policy =
      built linked
        (record (at (text "/t/link")) { allow = some (text "/usr/bin/ssh" ∷ []) } ∷ []) in
    (after policy (λ p. evaluate p (text "/t/real/secret") (text "/usr/bin/node"))
      ≡ ok Outcome.prompt)
    × (after policy (λ p. evaluate p (text "/t/real/secret") (text "/usr/bin/ssh"))
        ≡ ok Outcome.allow)

watch_on_symlinked_dir_still_covers_canonical_access : WatchOnSymlinkedDirStillCoversCanonicalAccess
unfolding from_str with_defaults with_watch_defaults expand_home canonicalize_root root_of
    build_policy new_watch pattern_is_deep evaluate evaluate_watch covering_watch covers is_included
    from_action starts_with strip_prefix join text_eq
watch_on_symlinked_dir_still_covers_canonical_access = (refl, refl)

abbrev ExcludeDefaultsAndParses : Type 0
ExcludeDefaultsAndParses =
    let cfg = watches (
      at (text "/a")
      ∷ record (at (text "/b")) { exclude = some (text "**/Cache" ∷ text "**/Cache_Data" ∷ []) }
      ∷ []) in
    (after cfg (λ c. map (λ w. w.exclude) c.watch)
      ≡ ok ([] ∷ (text "**/Cache" ∷ text "**/Cache_Data" ∷ []) ∷ []))
    × (built machine (record (at (text "/x")) { exclude = some (text "[invalid" ∷ []) } ∷ [])
        ≡ err (glob (text "/x") (text "unclosed character class")))

exclude_defaults_and_parses : ExcludeDefaultsAndParses
unfolding from_str with_defaults with_watch_defaults expand_home canonicalize_root root_of
    build_policy new_watch pattern_is_deep evaluate evaluate_watch covering_watch covers is_included
    from_action starts_with strip_prefix join text_eq
exclude_defaults_and_parses = (refl, refl)

abbrev PatternsDefaultParseAndBuild : Type 0
PatternsDefaultParseAndBuild =
    let keys =
      at (text "/home/u")
      ∷ record (at (text "/home/u2")) {
        patterns = some (text "*_history" ∷ text "**/*_history" ∷ []);
      }
      ∷ [] in
    let policy = built machine keys in
    (after (watches keys) (λ c. map (λ w. w.patterns) c.watch)
      ≡ ok ([] ∷ (text "*_history" ∷ text "**/*_history" ∷ []) ∷ []))
    × (after policy (λ p. map (λ w. w.recursive) (drop 1 p.watches)) ≡ ok (true ∷ []))
    × (after policy
          (λ p. map (λ w. is_included w (text "/home/u2/.zsh_history")) (drop 1 p.watches))
        ≡ ok (true ∷ []))
    × (after policy
          (λ p. map (λ w. is_included w (text "/home/u2/sub/foo_history")) (drop 1 p.watches))
        ≡ ok (true ∷ []))
    × (after policy
          (λ p. map (λ w. is_included w (text "/home/u2/sub/notes.txt")) (drop 1 p.watches))
        ≡ ok (false ∷ []))
    × (after
          (built machine
            (record (at (text "/home/u")) { patterns = some (text "*_history" ∷ []) } ∷ []))
          (λ p. map (λ w. w.recursive) p.watches)
        ≡ ok (false ∷ []))
    × (built machine (record (at (text "/x")) { patterns = some (text "[invalid" ∷ []) } ∷ [])
        ≡ err (glob (text "/x") (text "unclosed character class")))

patterns_default_parse_and_build : PatternsDefaultParseAndBuild
unfolding from_str with_defaults with_watch_defaults expand_home canonicalize_root root_of
    build_policy new_watch pattern_is_deep evaluate evaluate_watch covering_watch covers is_included
    from_action starts_with strip_prefix join text_eq
patterns_default_parse_and_build = (refl, refl, refl, refl, refl, refl, refl)

abbrev ExpandsHomeTilde : Type 0
ExpandsHomeTilde =
    (expand_home machine (text "~/.ssh") ≡ text "/home/tester/.ssh")
    × (expand_home machine (text "~") ≡ text "/home/tester")
    × (expand_home machine (text "/abs/path") ≡ text "/abs/path")

expands_home_tilde : ExpandsHomeTilde
unfolding expand_home join text_eq
expands_home_tilde = (refl, refl, refl)

abbrev InvalidGlobIsReported : Type 0
InvalidGlobIsReported =
    built machine (record (at (text "/x")) { allow = some (text "/usr/bin/[invalid" ∷ []) } ∷ [])
    ≡ err (glob (text "/x") (text "unclosed character class"))

invalid_glob_is_reported : InvalidGlobIsReported
unfolding from_str with_defaults with_watch_defaults expand_home canonicalize_root root_of
    build_policy new_watch pattern_is_deep evaluate evaluate_watch covering_watch covers is_included
    from_action starts_with strip_prefix join text_eq
invalid_glob_is_reported = refl
