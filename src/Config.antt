-- ===== src/Config.antt =====
-- filewalld/src/config.rs: the configuration, its defaults, and the watches that are made of it.
-- The crates `toml` and `globset`, the environment and the file system are parameters.
pub mod Watches
use filewall.FilePath.{join}
use filewall.Policy.{Action, GlobLib, WatchPolicy, Policy, new_watch}
use filewall.Prelude.{
  ℕ, Option, none, some, List, [], ◌∷◌, Text, text, text_eq, any, Result, ok, ◌>>=◌, map_err, ◌==◌,
  if◌then◌else◌,
}
use filewall.Proto.Frame.{ErrorKind}
use filewall.Rules.{ObjectKind}

pub record WatchConfig : Type 0 where
  pub path : Text
  pub allow : List Text
  pub exclude : List Text
  pub learn_object : ObjectKind
  pub learn_match : List Text
  pub patterns : List Text

pub record Config : Type 0 where
  pub default_action : Action
  pub prompt_timeout_seconds : ℕ
  pub socket_path : Text
  pub control_socket_path : Text
  pub rules_path : Text
  pub watch : List WatchConfig

-- The keys that the text of a configuration has, before the defaults of `#[serde(default)]`.
pub record WatchKeys : Type 0 where
  pub path : Text
  pub allow : Option (List Text)
  pub exclude : Option (List Text)
  pub learn_object : Option ObjectKind
  pub learn_match : Option (List Text)
  pub patterns : Option (List Text)

pub record ConfigKeys : Type 0 where
  pub default_action : Option Action
  pub prompt_timeout_seconds : Option ℕ
  pub socket_path : Option Text
  pub control_socket_path : Option Text
  pub rules_path : Option Text
  pub watch : Option (List WatchKeys)

abbrev default_action : Action
default_action = Action.prompt

abbrev default_timeout : ℕ
default_timeout = 30

abbrev default_socket : Text
default_socket = text "/run/filewall/prompt.sock"

abbrev default_control_socket : Text
default_control_socket = text "/run/filewall/control.sock"

abbrev default_learn_object : ObjectKind
default_learn_object = ObjectKind.file

abbrev default_rules_path : Text
default_rules_path = text "/var/lib/filewall/rules.toml"

abbrev or_default : {A : Type 0} → Option A → A → A
or_default none d = d
or_default (some a) d = a

unfoldable pub with_watch_defaults : WatchKeys → WatchConfig
with_watch_defaults k = record {
  path = k.path;
  allow = or_default k.allow [];
  exclude = or_default k.exclude [];
  learn_object = or_default k.learn_object default_learn_object;
  learn_match = or_default k.learn_match [];
  patterns = or_default k.patterns [];
}

all_with_defaults : List WatchKeys → List WatchConfig
unfolding with_watch_defaults
all_with_defaults [] = []
all_with_defaults (k ∷ ks) = with_watch_defaults k ∷ all_with_defaults ks

unfoldable pub with_defaults : ConfigKeys → Config
unfolding all_with_defaults
with_defaults k = record {
  default_action = or_default k.default_action default_action;
  prompt_timeout_seconds = or_default k.prompt_timeout_seconds default_timeout;
  socket_path = or_default k.socket_path default_socket;
  control_socket_path = or_default k.control_socket_path default_control_socket;
  rules_path = or_default k.rules_path default_rules_path;
  watch = all_with_defaults (or_default k.watch []);
}

pub data ConfigError : Type 0 where
  io : Text → ErrorKind → ConfigError
  parse : Text → ConfigError
  glob : Text → Text → ConfigError

-- `Config::from_str`, from the parser, which answers the error's text.
unfoldable pub from_str : (Text → Result Text ConfigKeys) → Text → Result ConfigError Config
from_str toml t = do keys ← map_err parse (toml t); ok (with_defaults keys)

-- `Config::load`, from the answer of `read_to_string`.
unfoldable pub load :
    (Text → Result Text ConfigKeys)
    → (Text → Result ErrorKind Text)
    → Text
    → Result ConfigError Config
unfolding from_str
load toml read_to_string path = do t ← map_err (io path) (read_to_string path); from_str toml t

-- What the machine answers: the variable `HOME`, and `fs::canonicalize`, with `none` for an error.
pub record Machine : Type 0 where
  pub home : Option Text
  pub canonicalize : Text → Option Text

-- `strip_prefix("~/")`.
after_tilde : Text → Option Text
after_tilde (c ∷ e ∷ rest) = if c == b'~' then (if e == b'/' then some rest else none) else none
after_tilde _ = none

home_joined : Option Text → Text → Text → Text
unfolding join
home_joined none path rest = path
home_joined (some home) path rest = join home rest

expand_from : Option Text → Option Text → Text → Text
unfolding home_joined
expand_from home (some rest) path = home_joined home path rest
expand_from home none path = if text_eq path (text "~") then or_default home path else path

unfoldable pub expand_home : Machine → Text → Text
unfolding after_tilde expand_from
expand_home m path = expand_from m.home (after_tilde path) path

unfoldable pub canonicalize_root : Machine → Text → Text
canonicalize_root m path = or_default (m.canonicalize path) path

-- The root that a watch gets.
unfoldable pub root_of : Machine → WatchConfig → Text
unfolding expand_home canonicalize_root
root_of m w = canonicalize_root m (expand_home m w.path)

module _ (lib : GlobLib) (m : Machine) (action : Action) where
  -- One turn of the loop of `build_policy`, less its warnings.
  unfoldable pub build_watch : WatchConfig → Result ConfigError WatchPolicy
  build_watch w = map_err (glob w.path) (
      new_watch lib (root_of m w) w.allow action w.learn_object
        (any (λ s. text_eq s (text "cwd")) w.learn_match) w.exclude w.patterns)

  unfoldable pub build_watches : List WatchConfig → Result ConfigError (List WatchPolicy)
  unfolding build_watch
  build_watches [] = ok []
  build_watches (w ∷ ws) = do wp ← build_watch w; rest ← build_watches ws; ok (wp ∷ rest)

unfoldable pub build_policy : GlobLib → Machine → Config → Result ConfigError Policy
unfolding build_watches
build_policy lib m cfg = do
  watches ← build_watches lib m cfg.default_action cfg.watch
  ok (record { watches = watches })
