-- ===== src/Examples/Windows.antt =====
-- Requests to the prompt windows: the messages of a window, and a link that is served.
use filewall.Iced
use filewall.Iced.App.{
  App, Meanwhile, prompt, window_opened, decide, tick, Setup, run, effective_ms, pending_of,
}
use filewall.Iced.Theme.{catppuccin_latte}
use filewall.Iced.App.Answers.{Messages, prompts, shown, one_answer_each}
use filewall.Iced.App.Clicks.{gui_window, request_gets_first_decision}
use filewall.Iced.App.Overlap.{overlapping_request_is_refused}
use filewall.Iced.App.Shown.{AllUsers, closed, first_decision, shuts, to_worker}
use filewall.Prelude.{
  ℕ, ◌+◌, ◌*◌, false, none, some, [], ◌∷◌, ◌++◌, Memᴰ, text, drop, length, ◌≡◌, refl, arith,
}
use filewall.Proto.{allow_once, deny_once, deny_always, PromptRequest}

abbrev pub request : PromptRequest
request = record {
  pid = 42;
  exe = text "/bin/cat";
  cmdline = text "cat";
  cwd = text "/tmp";
  path = text "/s";
  always_object = text "/s";
  always_tree = false;
  always_cwd_pinned = false;
  ui_timeout_ms = 1000;
}

abbrev pub setup : Setup
setup = record { home = some (text "/home/u"); fallback_ms = some 90000 }

abbrev pub at_ms : ℕ → Meanwhile
at_ms ms = record { now = ms * 1000000; new_id = ms; read_one = none; read = none }

-- The worker's channel is 5, and nothing is shown.
abbrev pub idle : App
idle = record {
  decision_tx = some 5;
  pending = none;
  window = none;
  theme = catppuccin_latte;
  portal = false;
  sent = (5, deny_once) ∷ [];
}

-- A tick before the deadline, then the button, then another.
abbrev pub clicks : Messages
clicks =
    (at_ms 110, window_opened 100)
    ∷ (at_ms 350, tick)
    ∷ (at_ms 600, decide allow_once)
    ∷ (at_ms 700, decide deny_always)
    ∷ []

one_answer_each_example :
    let b = (run setup ((at_ms 100, prompt request) ∷ clicks) idle).0 in
    length b.sent + shown b.pending
    ≡ length idle.sent + shown idle.pending + prompts ((at_ms 100, prompt request) ∷ clicks)
one_answer_each_example =
    one_answer_each setup ((at_ms 100, prompt request) ∷ clicks) idle (5, refl)

pub by_user : AllUsers clicks
by_user = (refl, (refl, (refl, (refl, tt))))

request_gets_first_decision_example :
    let (b, tasks) = run setup ((at_ms 100, prompt request) ∷ clicks) idle in
    let d = first_decision (100000000 + effective_ms setup request * 1000000) clicks in
    (b.sent ≡ idle.sent ++ to_worker 5 d) × (closed tasks ≡ shuts 100 d)
request_gets_first_decision_example =
    request_gets_first_decision setup (at_ms 100) request clicks idle 5 refl refl by_user

-- Another request is shown, in window 60.
abbrev busy : App
busy = record idle { pending = some (pending_of setup (at_ms 60) request); window = some 60 }

overlapping_request_is_refused_example :
    let (b, tasks) = run setup ((at_ms 100, prompt request) ∷ clicks) busy in
    ((Iced.resolve request 90000 (gui_window 600 (drop (length busy.sent) b.sent)) []).0
      ≡ some deny_once)
    × (¬ Memᴰ 60 (closed tasks))
overlapping_request_is_refused_example =
    overlapping_request_is_refused setup (at_ms 100) request clicks busy
      (pending_of setup (at_ms 60) request) 5 60 90000 600 [] refl refl refl (omega arith)
      (omega arith, (omega arith, (omega arith, (omega arith, tt))))
