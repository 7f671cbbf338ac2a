-- ===== src/Examples/Samples.antt =====
-- Concrete values: a watch on `/home/u/.ssh`, an access by `cat`, a daemon with a window that
-- answers, and small instances of the crates that are parameters.
use filewall.Daemon.{Event, Seen, Daemon, Setup}
use filewall.Policy.{Action, GlobSet, GlobLib, SetsMatch, WatchPolicy, Policy}
use filewall.Prelude.{
  ℕ, true, false, Option, none, some, List, [], ◌∷◌, ◌++◌, Text, text, text_eq, ok, err, any,
  is_nil, if◌then◌else◌, ◌==◌, ◌≡◌, refl, take, drop, length, take-append, drop-append,
}
use filewall.Proto.{PromptRequest, allow_always}
use filewall.Proto.Frame.{Json}
use filewall.Rules.{RuleAction, ObjectKind, LearnedRule, Rules}
use filewall.Rules.Disk.{Toml, ReadsBack, Files, no_faults}
use filewall.Server.{answers}

abbrev pub nothing : GlobSet
nothing = record { is_match = λ p. false; is_empty = true }

abbrev pub ssh_watch : WatchPolicy
ssh_watch = record {
  root = text "/home/u/.ssh";
  allow = record { is_match = λ p. text_eq p (text "/usr/bin/ssh"); is_empty = false };
  default_action = Action.prompt;
  learn_object = ObjectKind.file;
  learn_cwd = false;
  exclude = nothing;
  include = nothing;
  recursive = true;
}

abbrev pub ssh_policy : Policy
ssh_policy = record { watches = ssh_watch ∷ [] }

-- Globs that match themselves.
abbrev pub literal_globs : GlobLib
literal_globs = record {
  build = λ pat.
      if is_nil pat then err (text "empty") else ok (record { is_match = λ p. text_eq p pat });
  build_set =
      λ gs. ok (record { is_match = λ p. any (λ g. g.is_match p) gs; is_empty = is_nil gs });
}

pub literal_globs-SetsMatch : SetsMatch literal_globs
literal_globs-SetsMatch = record {
  matches_some = λ gs s h p.
      let e : s ≡ record { is_match = λ p. any (λ g. g.is_match p) gs; is_empty = is_nil gs } =
        cc in
      rw e refl;
  empty_is_nil = λ gs s h.
      let e : s ≡ record { is_match = λ p. any (λ g. g.is_match p) gs; is_empty = is_nil gs } =
        cc in
      rw e refl;
}

abbrev pub rule : ℕ → RuleAction → LearnedRule
rule id action = record {
  id = id;
  created_unix = 1;
  action = action;
  exe = text "/usr/bin/cat";
  object = text "/home/u/.ssh/id";
  object_kind = ObjectKind.file;
  cwd = none;
}

abbrev pub two_rules : Rules
two_rules = record { next_id = 3; rules = rule 1 RuleAction.allow ∷ rule 2 RuleAction.deny ∷ [] }

abbrev pub action_code : RuleAction → ℕ
action_code RuleAction.allow = 0
action_code RuleAction.deny = 1

abbrev pub action_of : ℕ → RuleAction
action_of n = if n == 0 then RuleAction.allow else RuleAction.deny

abbrev pub kind_code : ObjectKind → ℕ
kind_code ObjectKind.file = 0
kind_code ObjectKind.tree = 1

abbrev pub kind_of : ℕ → ObjectKind
kind_of n = if n == 0 then ObjectKind.file else ObjectKind.tree

abbrev written_rule : ℕ → LearnedRule → Option Text → Option Text
written_rule n r (some cwd) = none
written_rule n r none = some (
    n
    ∷ r.id
    ∷ r.created_unix
    ∷ action_code r.action
    ∷ kind_code r.object_kind
    ∷ length r.exe
    ∷ (r.exe ++ r.object))

abbrev written : ℕ → List LearnedRule → Option Text
written n [] = some (n ∷ [])
written n (r ∷ []) = written_rule n r r.cwd
written n (r ∷ s ∷ rs) = none

abbrev read_rules : Text → Option Rules
read_rules (n ∷ []) = some (record { next_id = n; rules = [] })
read_rules (n ∷ i ∷ c ∷ a ∷ k ∷ l ∷ t) = some (record {
  next_id = n;
  rules =
      (record {
        id = i;
        created_unix = c;
        action = action_of a;
        exe = take l t;
        object = drop l t;
        object_kind = kind_of k;
        cwd = none;
      })
      ∷ [];
})
read_rules _ = none

-- A form of rule files for at most one rule, which is not limited to a directory.
abbrev pub one_rule_toml : Toml
one_rule_toml = record { to_string = λ rs. written rs.next_id rs.rules; from_str = read_rules }

pub action_back : (a : RuleAction) → action_of (action_code a) ≡ a
action_back RuleAction.allow = refl
action_back RuleAction.deny = refl

pub kind_back : (k : ObjectKind) → kind_of (kind_code k) ≡ k
kind_back ObjectKind.file = refl
kind_back ObjectKind.tree = refl

read_rule :
    (n : ℕ) (r : LearnedRule) (o : Option Text) (t : Text)
    → r.cwd ≡ o
    → written_rule n r o ≡ some t
    → read_rules t ≡ some (record { next_id = n; rules = r ∷ [] })
read_rule n r (some cwd) t e h = cc
read_rule n r none t e h =
    let same : t
        ≡ n
          ∷ r.id
          ∷ r.created_unix
          ∷ action_code r.action
          ∷ kind_code r.object_kind
          ∷ length r.exe
          ∷ (r.exe ++ r.object) =
      cc in
    rw
      (
        same,
        take-append r.exe r.object,
        drop-append r.exe r.object,
        action_back r.action,
        kind_back r.object_kind,
        ← e,
      )
      refl

read_written :
    (n : ℕ) (rs : List LearnedRule) (t : Text)
    → written n rs ≡ some t
    → read_rules t ≡ some (record { next_id = n; rules = rs })
read_written n [] t h = let same : t ≡ n ∷ [] = cc in rw same refl
read_written n (r ∷ []) t h = read_rule n r r.cwd t refl h
read_written n (r ∷ s ∷ rs) t h = cc

pub one_rule_toml-ReadsBack : ReadsBack one_rule_toml
one_rule_toml-ReadsBack rs t h = read_written rs.next_id rs.rules t h

abbrev pub cat_event : Event
cat_event = record { fd = 7; mask = 0x10000; pid = 42 }

abbrev pub cat_seen : Seen
cat_seen = record {
  accessed_path = some (text "/home/u/.ssh/id");
  exe = some (text "/usr/bin/cat");
  cwd = some (text "/tmp");
  cmdline = text "cat";
  now_unix = 100;
  stamp = record { pid = 1; secs = 2; nanos = 3 };
  faults = no_faults;
}

abbrev pub no_files : Files
no_files = λ p. none

abbrev pub short_json : Json PromptRequest
short_json = record { to_vec = λ r. ok (1 ∷ []); from_slice = λ b. none }

abbrev pub setup : Setup
setup = record {
  own_pid = 1;
  ui_timeout_ms = 25000;
  rules_path = text "/r/rules.toml";
  json = short_json;
  toml = one_rule_toml;
}

abbrev pub no_rules : Rules
no_rules = record { next_id = 0; rules = [] }

-- The user answers the first prompt with "Always allow", after ten milliseconds.
abbrev pub ready_daemon : Daemon
ready_daemon = record {
  policy = ssh_policy;
  rules = no_rules;
  server = record { timeout_ms = 30000; backlog = [] };
  ui = some (record { buffered = []; replies = answers 10 allow_always ∷ [] });
  files = no_files;
  responses = [];
}
