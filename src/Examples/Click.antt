-- ===== src/Examples/Click.antt =====
-- An access that the user of the native window allows once.
use filewall.Daemon.{Daemon, Setup, is_open_perm, path_of, prompt_request, outcome, skipped}
use filewall.Daemon.Access.{Answers, Grants, handle-Answers, prompted}
use filewall.Daemon.Click.{access_is_let_through_by_a_click}
use filewall.Daemon.Fate.{Asked}
use filewall.Examples.Links.{
  is_allow, written, requests, responses, gui, fresh, requests-ReadsBack, responses-ReadsBack,
}
use filewall.Examples.Samples
use filewall.Examples.Samples.{cat_event, cat_seen, ready_daemon}
use filewall.Examples.Windows
use filewall.Examples.Windows.{at_ms, idle, clicks, by_user}
use filewall.FilePath.{starts_with, strip_prefix}
use filewall.Iced
use filewall.Iced.{wait_ms}
use filewall.Iced.App.{prompt, run, update, effective_ms, pending_of}
use filewall.Iced.App.Clicks.{IsPressed, gui_window}
use filewall.Iced.Worker
use filewall.Policy
use filewall.Policy.{covering_watch, covers, is_excluded, is_included, evaluate_watch, combine}
use filewall.Prelude.{
  ◌+◌, ◌*◌, ◌<◌, true, some, [], ◌∷◌, ok, length, drop, text_eq, ◌≡◌, refl, subst, arith,
}
use filewall.Proto.{PromptRequest, allow_once, allows}
use filewall.Proto.Frame.{Bytes, read_msg, write_msg, read_exact, from_be_bytes}
use filewall.Proto.Serve.{serve_requests}
use filewall.Rules
use filewall.Server
use filewall.Server.{answers, prompt_recovering}

abbrev daemon_setup : Setup
daemon_setup = record Samples.setup { json = requests }

-- The reply comes after 700 milliseconds.
abbrev daemon : Daemon
daemon = record ready_daemon {
  ui = some (record { buffered = []; replies = answers 700 allow_once ∷ [] });
}

abbrev asked_for : PromptRequest
asked_for =
    prompt_request daemon_setup cat_event cat_seen (covering_watch daemon.policy (path_of cat_seen))

abbrev frame : Bytes
frame = 0 ∷ 0 ∷ 0 ∷ length (written asked_for) ∷ written asked_for

is_asked : Asked daemon_setup cat_event cat_seen daemon
unfolding is_open_perm outcome skipped covering_watch covers starts_with is_excluded is_included
    strip_prefix combine Policy.evaluate evaluate_watch text_eq Rules.evaluate
is_asked = record { opens = refl; foreign = omega arith; in_reach = refl; open_verdict = refl }

window_answers :
    gui.windows fresh.asked
    ≡ gui_window 600 (
        drop
          (length idle.sent)
          (run Windows.setup ((at_ms 100, prompt asked_for) ∷ clicks) idle).0.sent)
unfolding run update effective_ms pending_of prompt_request
window_answers = refl

sent_frame : write_msg daemon_setup.json asked_for ≡ ok frame
unfolding write_msg prompt_request covering_watch covers starts_with Policy.always_target
sent_frame = refl

reply_read :
    read_msg responses (Worker.serve daemon_setup.json responses gui fresh frame).written
    ≡ ok (record { decision = allow_once }, [])
unfolding read_msg write_msg Worker.serve Worker.answer serve_requests Iced.resolve read_exact
    from_be_bytes prompt_request covering_watch covers starts_with Policy.always_target
reply_read = refl

user_said : (prompted daemon_setup cat_event cat_seen daemon).result ≡ ok allow_once
unfolding prompt_recovering Server.prompt
user_said = rw sent_frame refl

let_through : Answers daemon_setup cat_event cat_seen daemon true
let_through =
    let (b, given, why) = handle-Answers daemon_setup cat_event cat_seen daemon in
    let by_the_user = Grants.user_allows allow_once is_asked.open_verdict user_said is_allow in
    subst (Answers daemon_setup cat_event cat_seen daemon) (why.1 by_the_user) given

access_is_let_through_by_a_click_example :
    IsPressed (100000000 + effective_ms Windows.setup asked_for * 1000000) clicks allow_once
    × (allows allow_once ≡ true)
    × (600 < wait_ms asked_for 90000)
    × (700 < 30000)
access_is_let_through_by_a_click_example =
    access_is_let_through_by_a_click daemon_setup cat_event cat_seen daemon responses gui fresh
      Windows.setup (at_ms 100) clicks idle 5 600 700 frame [] (record { decision = allow_once }) []
      requests-ReadsBack responses-ReadsBack is_asked refl refl refl by_user
      (window_answers, sent_frame, reply_read) let_through
