-- ===== src/Daemon.antt =====
-- filewalld/src/main.rs: the event loop. An access is an event together with what `/proc` and the
-- system answer while it is handled. `respond` adds to the list of answers given to the kernel.
pub mod Access
pub mod Click
pub mod Fate
pub mod Timeout
pub mod Loop
pub mod Restart
pub mod Pidfile
pub mod Start
pub mod Life
pub mod Guarded
pub mod Reload
pub mod Scope
use filewall.Policy
use filewall.Policy.{
  Policy, WatchPolicy, Outcome, combine, covering_watch, always_target, learned_rule, is_excluded,
  is_included,
}
use filewall.Prelude.{
  ℕ, ◌/◌, ◌%◌, Bool, true, false, not, ◌||◌, Option, none, some, List, [], ◌∷◌, ◌++◌, Text, text,
  Result, ok, err, ◌==◌, if◌then◌else◌,
}
use filewall.Proto.{
  Decision, allow_once, deny_once, allow_always, deny_always, allows, PromptRequest,
}
use filewall.Proto.Frame.{ErrorKind, Json}
use filewall.Rules
use filewall.Rules.{Rules, RuleAction, ObjectKind, file, tree, push}
use filewall.Rules.Disk.{Toml, Files, Faults, Stamp, save_atomic}
use filewall.Server.{UiLink, UiServer, prompt_recovering}

-- A permission event, with the file descriptor that it is answered by.
pub record Event : Type 0 where
  pub fd : ℕ
  pub mask : ℕ
  pub pid : ℕ

-- What is read while one event is handled: `/proc/self/fd/N`, `/proc/<pid>/exe`, `cwd` and `cmdline`
-- (`none` where the link cannot be read), the clock, and the system calls of a save.
pub record Seen : Type 0 where
  pub accessed_path : Option Text
  pub exe : Option Text
  pub cwd : Option Text
  pub cmdline : Text
  pub now_unix : ℕ
  pub stamp : Stamp
  pub faults : Faults

pub record Response : Type 0 where
  pub fd : ℕ
  pub allow : Bool

pub record Daemon : Type 0 where
  pub policy : Policy
  pub rules : Rules
  pub server : UiServer
  pub ui : Option UiLink
  pub files : Files
  pub responses : List Response

-- What does not change while the loop runs.
pub record Setup : Type 0 where
  pub own_pid : ℕ
  pub ui_timeout_ms : ℕ
  pub rules_path : Text
  pub json : Json PromptRequest
  pub toml : Toml

-- `mask & FAN_OPEN_PERM != 0`, with `FAN_OPEN_PERM = 0x10000`.
unfoldable pub is_open_perm : Event → Bool
is_open_perm ev = ev.mask / 0x10000 % 2 == 1

unfoldable pub respond : Event → Bool → Daemon → Daemon
respond ev allow d = record d {
  responses = d.responses ++ record { fd = ev.fd; allow = allow } ∷ [];
}

abbrev or_else : Option Text → Text → Text
or_else none d = d
or_else (some t) d = t

abbrev pub path_of : Seen → Text
path_of seen = or_else seen.accessed_path (text "<unknown>")

-- `Event::exe`.
abbrev pub exe_of : Seen → Text
exe_of seen = or_else seen.exe (text "<unresolved>")

-- `Event::cwd`.
abbrev pub cwd_of : Seen → Text
cwd_of seen = or_else seen.cwd (text "<unresolved>")

-- The rule action of an "Always" decision.
unfoldable pub always_action : Decision → Option RuleAction
always_action allow_always = some RuleAction.allow
always_action deny_always = some RuleAction.deny
always_action allow_once = none
always_action deny_once = none

is_tree : ObjectKind → Bool
is_tree tree = true
is_tree file = false

-- What the prompt says that an "Always" answer covers.
scope_shown : Option WatchPolicy → Text → Text × Bool × Bool
unfolding is_tree
scope_shown (some w) path =
    let (obj, kind) = always_target w path in (obj, is_tree kind, w.learn_cwd)
scope_shown none path = (path, false, false)

unfoldable pub prompt_request : Setup → Event → Seen → Option WatchPolicy → PromptRequest
unfolding scope_shown
prompt_request c ev seen watch =
    let (object, in_tree, pinned) = scope_shown watch (path_of seen) in
    record {
      pid = ev.pid;
      exe = exe_of seen;
      cmdline = seen.cmdline;
      cwd = cwd_of seen;
      path = path_of seen;
      always_object = object;
      always_tree = in_tree;
      always_cwd_pinned = pinned;
      ui_timeout_ms = c.ui_timeout_ms;
    }

-- An "Always" answer: the rule is added in memory, then saved; a save that fails is only logged.
learn : Setup → Seen → Option RuleAction → Option WatchPolicy → Daemon → Daemon
learn c seen (some action) (some w) d =
    let rule =
      learned_rule seen.now_unix w action (exe_of seen) (path_of seen) (some (cwd_of seen)) in
    let rules = push d.rules rule in
    let (saved, files) = save_atomic c.toml rules seen.stamp seen.faults d.files c.rules_path in
    record d { rules = rules; files = files }
learn c seen _ _ d = d

-- What becomes of the prompt: any error is a deny.
decided : Setup → Seen → Option WatchPolicy → Result ErrorKind Decision → Daemon → Daemon × Bool
unfolding learn
decided c seen watch (ok decision) d =
    (learn c seen (always_action decision) watch d, allows decision)
decided c seen watch (err e) d = (d, false)

-- `Outcome::Prompt` of the event loop.
unfoldable pub ask : Setup → Event → Seen → Daemon → Daemon × Bool
unfolding decided
ask c ev seen d =
    let watch = covering_watch d.policy (path_of seen) in
    let p = prompt_recovering c.json d.server d.ui (prompt_request c ev seen watch) in
    decided c seen watch p.result (record d { server = p.server; ui = p.ui })

verdict : Setup → Event → Seen → Outcome → Daemon → Daemon × Bool
verdict c ev seen Outcome.allow d = (d, true)
verdict c ev seen Outcome.deny d = (d, false)
verdict c ev seen Outcome.prompt d = ask c ev seen d

-- Is the path outside what its watch asks about?
unfoldable pub skipped : Option WatchPolicy → Text → Bool
skipped none path = false
skipped (some w) path = is_excluded w path || not (is_included w path)

-- The two verdicts on the access, joined.
unfoldable pub outcome : Seen → Daemon → Outcome
outcome seen d =
    combine (Policy.evaluate d.policy (path_of seen) (exe_of seen))
      (Rules.evaluate d.rules (path_of seen) (exe_of seen) (some (cwd_of seen)))

-- The body of the loop over the events that were read.
unfoldable pub handle : Setup → Event → Seen → Daemon → Daemon
unfolding verdict skipped
handle c ev seen d =
    if not (is_open_perm ev) || (ev.pid == c.own_pid)
    then respond ev true d
    else if skipped (covering_watch d.policy (path_of seen)) (path_of seen)
    then respond ev true d
    else let (d', allow) = verdict c ev seen (outcome seen d) d in respond ev allow d'

unfoldable pub handle_all : Setup → List (Event × Seen) → Daemon → Daemon
handle_all c [] d = d
handle_all c ((ev, seen) ∷ rest) d = handle_all c rest (handle c ev seen d)
