-- ===== src/Policy.antt =====
-- filewalld/src/policy.rs: the watches of the configuration and what they decide. Globs come from
-- the crate `globset`, which is the parameter `GlobLib`; the clock is an argument.
pub mod Combine
pub mod Learn
pub mod Build
use filewall.FilePath.{starts_with, strip_prefix}
use filewall.Prelude.{
  ℕ, Bool, true, false, ◌&&◌, ◌||◌, Option, none, some, List, [], ◌∷◌, ◌==◌, Text, Result, ok, ◌≡◌,
  ◌>>=◌, any, find, if◌then◌else◌, is_nil,
}
use filewall.Rules.{RuleAction, ObjectKind, file, tree, LearnedRule}

-- `default_action` of the configuration.
pub data Action : Type 0 where
  prompt allow deny : Action

pub data Outcome : Type 0 where
  allow prompt deny : Outcome

-- `From<Action> for Outcome`.
unfoldable pub from_action : Action → Outcome
from_action Action.prompt = Outcome.prompt
from_action Action.allow = Outcome.allow
from_action Action.deny = Outcome.deny

-- The verdict of the configuration and that of the learned rules, a deny first.
unfoldable pub combine : Outcome → Option RuleAction → Outcome
combine cfg (some RuleAction.deny) = Outcome.deny
combine Outcome.deny learned = Outcome.deny
combine cfg (some RuleAction.allow) = Outcome.allow
combine Outcome.allow none = Outcome.allow
combine Outcome.prompt none = Outcome.prompt

-- A compiled glob, and a set of such, seen through the methods that the program calls.
pub record Glob : Type 0 where
  pub is_match : Text → Bool

pub record GlobSet : Type 0 where
  pub is_match : Text → Bool
  pub is_empty : Bool

-- The crate: `GlobBuilder::new(pat).literal_separator(true).build()` and `GlobSetBuilder::build`.
-- An error is the text that is shown of it.
pub record GlobLib : Type 0 where
  pub build : Text → Result Text Glob
  pub build_set : List Glob → Result Text GlobSet

-- What the crate documents of a set: it matches where one of its globs does, and it is empty when
-- it has none.
pub record SetsMatch (lib : GlobLib) : Type 0 where
  pub matches_some :
      (gs : List Glob) (s : GlobSet)
      → lib.build_set gs ≡ ok s
      → (p : Text) → s.is_match p ≡ any (λ g. g.is_match p) gs
  pub empty_is_nil :
      (gs : List Glob) (s : GlobSet) → lib.build_set gs ≡ ok s → s.is_empty ≡ is_nil gs

pub record WatchPolicy : Type 0 where
  pub root : Text
  pub allow : GlobSet
  pub default_action : Action
  pub learn_object : ObjectKind
  pub learn_cwd : Bool
  pub exclude : GlobSet
  pub include : GlobSet
  pub recursive : Bool

-- `str::contains("**")`.
abbrev has_two_stars : Text → Bool
has_two_stars [] = false
has_two_stars (a ∷ []) = false
has_two_stars (a ∷ b ∷ s) = (a == b'*' && b == b'*') || has_two_stars (b ∷ s)

-- Can the pattern reach below the children of the watched directory?
unfoldable pub pattern_is_deep : Text → Bool
pattern_is_deep pat = has_two_stars pat || any (λ c. c == b'/') pat

module _ (lib : GlobLib) where
  -- One of the three loops of `WatchPolicy::new`.
  unfoldable pub build_globs : List Text → Result Text (List Glob)
  build_globs [] = ok []
  build_globs (pat ∷ pats) = do glob ← lib.build pat; globs ← build_globs pats; ok (glob ∷ globs)

  -- `WatchPolicy::new`.
  unfoldable pub new_watch :
      Text
      → List Text
      → Action
      → ObjectKind
      → Bool
      → List Text
      → List Text
      → Result Text WatchPolicy
  unfolding build_globs pattern_is_deep
  new_watch root allow_patterns default_action learn_object learn_cwd exclude_patterns patterns = do
    builder ← build_globs allow_patterns
    exclude ← build_globs exclude_patterns
    include ← build_globs patterns
    let recursive = is_nil patterns || any pattern_is_deep patterns
    allow_set ← lib.build_set builder
    exclude_set ← lib.build_set exclude
    include_set ← lib.build_set include
    ok (record {
      root = root;
      allow = allow_set;
      default_action = default_action;
      learn_object = learn_object;
      learn_cwd = learn_cwd;
      exclude = exclude_set;
      include = include_set;
      recursive = recursive;
    })

target : ObjectKind → Text → Text → Text × ObjectKind
target tree root path = (root, tree)
target file root path = (path, file)

-- What an "Always" rule for an access of `path` covers.
unfoldable pub always_target : WatchPolicy → Text → Text × ObjectKind
unfolding target
always_target w path = target w.learn_object w.root path

-- The rule that an "Always" answer stores; it has no id yet.
unfoldable pub learned_rule : ℕ → WatchPolicy → RuleAction → Text → Text → Option Text → LearnedRule
unfolding always_target
learned_rule now_unix w action exe path cwd =
    let (object, object_kind) = always_target w path in
    record {
      id = 0;
      created_unix = now_unix;
      action = action;
      exe = exe;
      object = object;
      object_kind = object_kind;
      cwd = if w.learn_cwd then cwd else none;
    }

unfoldable pub covers : WatchPolicy → Text → Bool
covers w path = starts_with path w.root

unfoldable pub is_excluded : WatchPolicy → Text → Bool
is_excluded w path = w.exclude.is_match path

included_rel : GlobSet → Option Text → Bool
included_rel include none = false
included_rel include (some rel) = include.is_match rel

unfoldable pub is_included : WatchPolicy → Text → Bool
unfolding included_rel
is_included w path =
    if w.include.is_empty then true else included_rel w.include (strip_prefix path w.root)

-- `WatchPolicy::evaluate`.
unfoldable pub evaluate_watch : WatchPolicy → Text → Outcome
unfolding from_action
evaluate_watch w exe = if w.allow.is_match exe then Outcome.allow else from_action w.default_action

pub record Policy : Type 0 where
  pub watches : List WatchPolicy

-- `policy.watches().iter().find(|w| w.covers(path))`.
unfoldable pub covering_watch : Policy → Text → Option WatchPolicy
covering_watch p path = find (λ w. covers w path) p.watches

outcome_of : Option WatchPolicy → Text → Outcome
unfolding evaluate_watch
outcome_of none exe = Outcome.allow
outcome_of (some w) exe = evaluate_watch w exe

-- `Policy::evaluate`: a path that no watch covers is allowed.
unfoldable pub evaluate : Policy → Text → Text → Outcome
unfolding covering_watch outcome_of
evaluate p path exe = outcome_of (covering_watch p path) exe
