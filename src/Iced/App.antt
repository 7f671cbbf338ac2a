-- ===== src/Iced/App.antt =====
-- filewall-ui-iced/src/main.rs, the arguments and `App`. A
-- message is handled together with what the machine answers meanwhile: the time in nanoseconds, the
-- id of the window that is opened, and the portal's replies. The answers that went to the
-- worker stay in `sent`, each with its channel.
pub mod Answers
pub mod Clicks
pub mod Shown
pub mod Overlap
use filewall.Iced.{PromptView, build}
use filewall.Iced.Theme.{Theme, Value, fallback, detect}
use filewall.Prelude.Decimal.{parse_unsigned}
use filewall.Prelude.{
  map, ℕ, ◌+◌, ◌-◌, ◌*◌, ◌/◌, Bool, true, false, Option, none, some, List, [], ◌∷◌, ◌++◌, Text,
  text, text_eq, ltb, leb, min, ◌==◌, if◌then◌else◌,
}
use filewall.Proto.{Decision, deny_once, PromptRequest}
use filewall.Ui.{name_or}

pub record WorkerConfig : Type 0 where
  pub socket : Text
  pub fallback_ms : ℕ
  pub demo : Bool

abbrev pub default_fallback_ms : ℕ
default_fallback_ms = 90000

abbrev pub u32_max : ℕ
u32_max = 4294967295

-- `v.saturating_mul(1000)`, where the value is a number.
with_timeout : Option ℕ → WorkerConfig → WorkerConfig
with_timeout none c = c
with_timeout (some v) c = record c { fallback_ms = min (v * 1000) u32_max }

dashed : Text → Bool
dashed [] = false
dashed (c ∷ cs) = c == b'-'

-- An argument that stands for itself; another that starts with a dash is ignored.
plain_arg : Text → WorkerConfig → WorkerConfig
unfolding dashed text_eq
plain_arg a c =
    if text_eq a (text "--demo")
    then record c { demo = true }
    else if text_eq a (text "--fallback-timeout")
    then c
    else if dashed a
    then c
    else record c { socket = a }

-- The loop over the arguments; the flag is set behind `--fallback-timeout`.
args_loop : List Text → Bool → WorkerConfig → WorkerConfig
unfolding with_timeout plain_arg
args_loop [] waiting c = c
args_loop (a ∷ rest) true c = args_loop rest false (with_timeout (parse_unsigned (u32_max + 1) a) c)
args_loop (a ∷ rest) false c =
    args_loop rest (text_eq a (text "--fallback-timeout")) (plain_arg a c)

-- The configuration that `main` sets.
unfoldable pub worker_config : List Text → WorkerConfig
unfolding args_loop parse_unsigned
worker_config args = args_loop args false (record {
  socket = text "/run/filewall/prompt.sock";
  fallback_ms = default_fallback_ms;
  demo = false;
})

-- Times are in nanoseconds.
pub record Pending : Type 0 where
  pub view : PromptView
  pub deadline : ℕ
  pub remaining_s : ℕ

pub record App : Type 0 where
  pub decision_tx : Option ℕ
  pub pending : Option Pending
  pub window : Option ℕ
  pub theme : Theme
  pub portal : Bool
  pub sent : List (ℕ × Decision)

pub data Message : Type 0 where
  worker_ready : ℕ → Message
  prompt : PromptRequest → Message
  window_opened : ℕ → Message
  decide : Decision → Message
  deny tick : Message

pub data Task : Type 0 where
  nothing : Task
  close open_window : ℕ → Task

-- What is the same for every message: `HOME`, and the fallback if the configuration is set.
pub record Setup : Type 0 where
  pub home : Option Text
  pub fallback_ms : Option ℕ

pub record Meanwhile : Type 0 where
  pub now : ℕ
  pub new_id : ℕ
  pub read_one : Option Value
  pub read : Option Value

-- The theme that is detected, or the one that there was.
themed : Bool → Option Theme → Theme → Theme
themed true (some detected) theme = detected
themed _ _ theme = theme

-- `App::new`: whether the portal was reached, and its replies.
unfoldable pub new : Bool → Option Value → Option Value → App
unfolding themed detect
new portal read_one read = record {
  decision_tx = none;
  pending = none;
  window = none;
  theme = themed portal (detect read_one read) fallback;
  portal = portal;
  sent = [];
}

pass_on : Option ℕ → Decision → List (ℕ × Decision) → List (ℕ × Decision)
pass_on none d sent = sent
pass_on (some tx) d sent = sent ++ (tx, d) ∷ []

closing : Option ℕ → Task
closing none = nothing
closing (some id) = close id

resolve_pending : Option Pending → Decision → App → App × Task
unfolding pass_on closing
resolve_pending none d a = (a, nothing)
resolve_pending (some p) d a = (
  record a { pending = none; window = none; sent = pass_on a.decision_tx d a.sent },
  closing a.window,
)

-- `App::resolve`.
unfoldable pub resolve : Decision → App → App × Task
unfolding resolve_pending
resolve d a = resolve_pending a.pending d a

abbrev pub name_ms : Option ℕ → ℕ
name_ms none = default_fallback_ms
name_ms (some ms) = ms

unfoldable pub effective_ms : Setup → PromptRequest → ℕ
effective_ms s req = if ltb 0 req.ui_timeout_ms then req.ui_timeout_ms else name_ms s.fallback_ms

unfoldable pub pending_of : Setup → Meanwhile → PromptRequest → Pending
unfolding effective_ms
pending_of s m req = record {
  view = build req (name_or s.home []);
  deadline = m.now + effective_ms s req * 1000000;
  remaining_s = (effective_ms s req + 999) / 1000;
}

-- A new prompt: the task of `resolve` is thrown away.
unfoldable pub on_prompt : Setup → Meanwhile → PromptRequest → App → App × Task
unfolding resolve themed detect pending_of
on_prompt s m req a =
    let b = (resolve deny_once a).0 in
    (
      record b {
        theme = themed b.portal (detect m.read_one m.read) b.theme;
        pending = some (pending_of s m req);
        window = some m.new_id;
      },
      open_window m.new_id,
    )

on_tick : Meanwhile → Option Pending → App → App × Task
unfolding resolve
on_tick m none a = (a, nothing)
on_tick m (some p) a = if leb p.deadline m.now then resolve deny_once a else (
  record a { pending = some (record p { remaining_s = (p.deadline - m.now) / 1000000000 + 1 }) },
  nothing,
)

-- `App::update`.
unfoldable pub update : Setup → Meanwhile → Message → App → App × Task
unfolding on_prompt on_tick resolve
update s m (worker_ready tx) a = (record a { decision_tx = some tx }, nothing)
update s m (prompt req) a = on_prompt s m req a
update s m (window_opened id) a = (a, nothing)
update s m (decide d) a = resolve d a
update s m deny a = resolve deny_once a
update s m tick a = on_tick m a.pending a

-- The messages one after another, with the tasks that they give.
unfoldable pub run : Setup → List (Meanwhile × Message) → App → App × List Task
unfolding update
run s [] a = (a, [])
run s ((m, msg) ∷ rest) a =
    let (b, task) = update s m msg a in let (c, tasks) = run s rest b in (c, task ∷ tasks)

-- `worker_stream`: the channel first, and then the requests as the worker passes them on.
unfoldable pub worker_stream : ℕ → List PromptRequest → List Message
worker_stream tx reqs = worker_ready tx ∷ map (λ req. prompt req) reqs
