-- ===== src/Iced/App/Clicks.antt =====
-- What decides a request in the window of filewall-ui-iced, and what its worker then gets.
use filewall.Iced
use filewall.Iced.{Window, silent, decides, wait_ms}
use filewall.Iced.Answers.{allows_only_its_own_answer}
use filewall.Iced.App.{
  App, Meanwhile, Message, worker_ready, prompt, window_opened, decide, deny, tick, Setup,
  effective_ms, resolve, resolve_pending, on_prompt, update, run,
}
use filewall.Iced.App.Answers.{Messages}
use filewall.Iced.App.Shown.{
  first_decision, AllUsers, closed, to_worker, shuts, shown_run, on_prompt-IsShown,
}
use filewall.Prelude.{
  ℕ, ◌+◌, ◌*◌, true, Option, none, some, List, [], ◌∷◌, ◌++◌, leb, length, drop, drop-append, ◌<◌,
  ◌≡◌, ◌∙◌, sym, ap, refl, arith, Bool-cases, inl, inr,
}
use filewall.Proto.{Decision, deny_once, allows, PromptRequest}

idle_prompt :
    (s : Setup) (m : Meanwhile) (req : PromptRequest) (a : App)
    → a.pending ≡ none
    → (on_prompt s m req a).0.sent ≡ a.sent
unfolding on_prompt resolve resolve_pending
idle_prompt s m req a h = ground arith

-- Where a request comes while none is shown and no other follows it, the worker is sent the first
-- decision on it and nothing else: the button that was pressed first, or a refusal at Escape, Enter,
-- the close button or the first tick from the deadline on. The window that was opened for it is
-- closed just when it is decided, once, and no other window is.
pub request_gets_first_decision :
    (s : Setup) (m : Meanwhile) (req : PromptRequest) (msgs : Messages) (a : App) (tx : ℕ)
    → a.pending ≡ none
    → a.decision_tx ≡ some tx
    → AllUsers msgs
    → let (b, tasks) = run s ((m, prompt req) ∷ msgs) a in
      let d = first_decision (m.now + effective_ms s req * 1000000) msgs in
      (b.sent ≡ a.sent ++ to_worker tx d) × (closed tasks ≡ shuts m.new_id d)
unfolding run update
request_gets_first_decision s m req msgs a tx idle ready u =
    let (sent, shut) =
      shown_run s msgs (on_prompt s m req a).0 (on_prompt-IsShown s m req a ready) u in
    (
      sent
          ∙ ap (λ l. l ++ to_worker tx (first_decision (m.now + effective_ms s req * 1000000) msgs))
              (idle_prompt s m req a idle),
      shut,
    )

-- What the worker sees of the answers that the window sends after its request: the first, so many
-- milliseconds later.
abbrev pub gui_window : ℕ → List (ℕ × Decision) → Window
gui_window delay [] = silent
gui_window delay ((tx, d) ∷ rest) = decides delay d

-- The button for the decision was pressed while nothing had decided the request yet.
abbrev pub IsPressed : ℕ → Messages → Decision → Type 0
IsPressed deadline msgs d =
    (before after : Messages) × (m : Meanwhile) × (msgs ≡ before ++ (m, decide d) ∷ after)
    × (first_decision deadline before ≡ none)

-- A message that decides nothing may stand in front.
IsPressed-behind :
    (deadline : ℕ) (e : Meanwhile × Message) (rest : Messages) (d : Decision)
    → ((l : Messages) → first_decision deadline (e ∷ l) ≡ first_decision deadline l)
    → IsPressed deadline rest d
    → IsPressed deadline (e ∷ rest) d
IsPressed-behind deadline e rest d skip (before, after, m, layout, none_yet) =
    (e ∷ before, after, m, ap (λ l. e ∷ l) layout, skip before ∙ none_yet)

refused : (d : Decision) → some d ≡ some deny_once → ¬ (allows d ≡ true)
unfolding allows
refused d h k = ground arith

first_decision-allow :
    (deadline : ℕ) (msgs : Messages) (d : Decision)
    → first_decision deadline msgs ≡ some d
    → allows d ≡ true
    → IsPressed deadline msgs d
unfolding allows
first_decision-allow deadline [] d h k = cc
first_decision-allow deadline ((m, worker_ready tx) ∷ rest) d h k =
    IsPressed-behind deadline _ rest d (λ l. refl) (first_decision-allow deadline rest d h k)
first_decision-allow deadline ((m, prompt req) ∷ rest) d h k = ground (arith, h, k)
first_decision-allow deadline ((m, window_opened id) ∷ rest) d h k =
    IsPressed-behind deadline _ rest d (λ l. refl) (first_decision-allow deadline rest d h k)
first_decision-allow deadline ((m, decide e) ∷ rest) d h k = ([], rest, m, ground arith, refl)
first_decision-allow deadline ((m, deny) ∷ rest) d h k = ground (arith, h, k)
first_decision-allow deadline ((m, tick) ∷ rest) d h k = elim (Bool-cases (leb deadline m.now)) [
  | inl e ↦ absurd (refused d (sym (rw e at h)) k)
  | inr e ↦
      IsPressed-behind deadline (m, tick) rest d (λ l. rw e refl)
        (first_decision-allow deadline rest d (rw e at h) k)
]

first_of_worker :
    (delay tx : ℕ) (o : Option Decision) (t : ℕ) (d : Decision)
    → gui_window delay (to_worker tx o) ≡ decides t d
    → (o ≡ some d) × (delay ≡ t)
first_of_worker delay tx none t d h = cc
first_of_worker delay tx (some e) t d h = ground arith

-- Where a request comes to the window while none is shown and no other follows it, and the window's
-- answer reaches the worker after any delay, the worker passes on an allow only where the user
-- pressed the button for this very decision, nothing had decided the request before that, and the
-- answer came within the time that the worker waits.
pub worker_allow_is_a_click :
    (s : Setup) (m : Meanwhile) (req : PromptRequest) (msgs : Messages) (a : App) (tx : ℕ)
    (fallback_ms delay : ℕ) (stale : List Decision) (d : Decision)
    → a.pending ≡ none
    → a.decision_tx ≡ some tx
    → AllUsers msgs
    → (let sent = drop (length a.sent) (run s ((m, prompt req) ∷ msgs) a).0.sent in
        (Iced.resolve req fallback_ms (gui_window delay sent) stale).0)
      ≡ some d
    → allows d ≡ true
    → IsPressed (m.now + effective_ms s req * 1000000) msgs d × (delay < wait_ms req fallback_ms)
worker_allow_is_a_click s m req msgs a tx fallback_ms delay stale d idle ready u h k =
    let deadline = m.now + effective_ms s req * 1000000 in
    let answered = to_worker tx (first_decision deadline msgs) in
    let sent = (request_gets_first_decision s m req msgs a tx idle ready u).0 in
    let new = ap (drop (length a.sent)) sent ∙ drop-append a.sent answered in
    let (t, e, in_time) = allows_only_its_own_answer req fallback_ms _ stale d h k in
    let (decision, same) =
      first_of_worker delay tx (first_decision deadline msgs) t d
        (ap (gui_window delay) (sym new) ∙ e) in
    (first_decision-allow deadline msgs d decision k, rw same in_time)
