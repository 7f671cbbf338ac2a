-- ===== src/Iced/App/Overlap.antt =====
-- A request that comes to the window of filewall-ui-iced while another is still shown.
use mathlib.Core.List.{append-nil, append_assoc}
use mathlib.Core.List.Memᴰ.{cases_cons}
use filewall.Iced
use filewall.Iced.App.{
  App, Pending, Meanwhile, Message, worker_ready, prompt, window_opened, decide, deny, tick, Task,
  nothing, close, open_window, Setup, resolve, resolve_pending, pass_on, closing, on_prompt,
  on_tick, update, run,
}
use filewall.Iced.App.Answers.{Messages}
use filewall.Iced.App.Clicks.{gui_window}
use filewall.Iced.App.Shown.{closed}
use filewall.Prelude.{
  ℕ, Option, none, some, List, [], ◌∷◌, ◌++◌, All, leb, length, drop, drop-append, ◌≡◌, ◌≢◌, ◌∙◌,
  sym, ap, refl, arith, Bool-cases, inl, inr, Memᴰ, ◌⊎◌,
}
use filewall.Proto.{Decision, deny_once, PromptRequest}

-- What was sent stays sent.
pass_on_more :
    (o : Option ℕ) (d : Decision) (sent : List (ℕ × Decision))
    → (more : List (ℕ × Decision)) × (pass_on o d sent ≡ sent ++ more)
unfolding pass_on
pass_on_more none d sent = ([], sym (append-nil sent))
pass_on_more (some tx) d sent = ((tx, d) ∷ [], refl)

abbrev Grows : App → App → Type 0
Grows a b = (more : List (ℕ × Decision)) × (b.sent ≡ a.sent ++ more)

resolve-Grows : (o : Option Pending) (d : Decision) (a : App) → Grows a (resolve_pending o d a).0
unfolding resolve_pending
resolve-Grows none d a = ([], sym (append-nil a.sent))
resolve-Grows (some p) d a = pass_on_more a.decision_tx d a.sent

tick-Grows : (m : Meanwhile) (o : Option Pending) (a : App) → Grows a (on_tick m o a).0
unfolding on_tick resolve
tick-Grows m none a = ([], sym (append-nil a.sent))
tick-Grows m (some p) a = elim (Bool-cases (leb p.deadline m.now)) [
  | inl e ↦ rw e (resolve-Grows a.pending deny_once a)
  | inr e ↦ rw e ([], sym (append-nil a.sent))
]

update-Grows : (s : Setup) (m : Meanwhile) (msg : Message) (a : App) → Grows a (update s m msg a).0
unfolding update on_prompt resolve
update-Grows s m (worker_ready tx) a = ([], sym (append-nil a.sent))
update-Grows s m (prompt req) a = resolve-Grows a.pending deny_once a
update-Grows s m (window_opened id) a = ([], sym (append-nil a.sent))
update-Grows s m (decide d) a = resolve-Grows a.pending d a
update-Grows s m deny a = resolve-Grows a.pending deny_once a
update-Grows s m tick a = tick-Grows m a.pending a

run-Grows : (s : Setup) (msgs : Messages) (a : App) → Grows a (run s msgs a).0
unfolding run
run-Grows s [] a = ([], sym (append-nil a.sent))
run-Grows s ((m, msg) ∷ rest) a =
    let (first, e) = update-Grows s m msg a in
    let (later, f) = run-Grows s rest (update s m msg a).0 in
    (first ++ later, f ∙ ap (λ l. l ++ later) e ∙ append_assoc a.sent first later)

closing-ne : (o : Option ℕ) (w : ℕ) → o ≢ some w → closing o ≢ close w
unfolding closing
closing-ne none w h e = cc
closing-ne (some id) w h e = h (cc e)

-- The window is not the app's, and the task does not close it.
abbrev Spares : ℕ → App × Task → Type 0
Spares w (b, task) = (b.window ≢ some w) × (task ≢ close w)

resolve-Spares :
    (o : Option Pending) (d : Decision) (a : App) (w : ℕ)
    → a.window ≢ some w
    → Spares w (resolve_pending o d a)
unfolding resolve_pending
resolve-Spares none d a w h = (h, λ e. cc e)
resolve-Spares (some p) d a w h = (λ e. cc e, closing-ne a.window w h)

tick-Spares :
    (m : Meanwhile) (o : Option Pending) (a : App) (w : ℕ)
    → a.window ≢ some w
    → Spares w (on_tick m o a)
unfolding on_tick resolve
tick-Spares m none a w h = (h, λ e. cc e)
tick-Spares m (some p) a w h = elim (Bool-cases (leb p.deadline m.now)) [
  | inl e ↦ rw e (resolve-Spares a.pending deny_once a w h)
  | inr e ↦ rw e (h, λ e. cc e)
]

-- A window that is not the app's, and whose id is not given again, is not closed by any message.
update-Spares :
    (s : Setup) (m : Meanwhile) (msg : Message) (a : App) (w : ℕ)
    → a.window ≢ some w
    → m.new_id ≢ w
    → Spares w (update s m msg a)
unfolding update on_prompt resolve
update-Spares s m (worker_ready tx) a w h k = (h, λ e. cc e)
update-Spares s m (prompt req) a w h k = (λ e. k (cc e), λ e. cc e)
update-Spares s m (window_opened id) a w h k = (h, λ e. cc e)
update-Spares s m (decide d) a w h k = resolve-Spares a.pending d a w h
update-Spares s m deny a w h k = resolve-Spares a.pending deny_once a w h
update-Spares s m tick a w h k = tick-Spares m a.pending a w h

closed-cons :
    (task : Task) (rest : List Task) (w : ℕ)
    → Memᴰ w (closed (task ∷ rest))
    → (task ≡ close w) ⊎ Memᴰ w (closed rest)
closed-cons nothing rest w h = inr h
closed-cons (open_window id) rest w h = inr h
closed-cons (close id) rest w h = elim (cases_cons h) [
  | inl e ↦ inl (ap close (sym e))
  | inr m ↦ inr m
]

run-Spares :
    (s : Setup) (msgs : Messages) (a : App) (w : ℕ)
    → a.window ≢ some w
    → All (λ e. e.0.new_id ≢ w) msgs
    → ¬ Memᴰ w (closed (run s msgs a).1)
unfolding run
run-Spares s [] a w h k m = elim m [ ]
run-Spares s ((x, msg) ∷ rest) a w h k m =
    let (lost, open') = update-Spares s x msg a w h k.0 in
    elim (closed-cons (update s x msg a).1 (run s rest (update s x msg a).0).1 w m) [
      | inl e ↦ open' e
      | inr later ↦ run-Spares s rest (update s x msg a).0 w lost k.1 later
    ]

lost_window :
    (s : Setup) (m : Meanwhile) (req : PromptRequest) (a : App) (w : ℕ)
    → m.new_id ≢ w
    → (on_prompt s m req a).0.window ≢ some w
unfolding on_prompt
lost_window s m req a w h e = h (cc e)

on_prompt-sent :
    (s : Setup) (m : Meanwhile) (req : PromptRequest) (a : App) (p : Pending) (tx : ℕ)
    → a.pending ≡ some p
    → a.decision_tx ≡ some tx
    → (on_prompt s m req a).0.sent ≡ a.sent ++ (tx, deny_once) ∷ []
unfolding on_prompt resolve resolve_pending pass_on
on_prompt-sent s m req a p tx h k = ground arith

refused_either_way :
    (req : PromptRequest) (fallback_ms delay : ℕ) (stale : List Decision) (tx : ℕ)
    (rest : List (ℕ × Decision))
    → (Iced.resolve req fallback_ms (gui_window delay ((tx, deny_once) ∷ rest)) stale).0
      ≡ some deny_once
unfolding Iced.resolve Iced.awaited
refused_either_way req fallback_ms delay stale tx rest = ground arith

-- Where a request comes while another is still shown, whatever the user does afterwards: the refusal
-- of the one that was shown is what the worker takes for the answer to the new one, and the window of
-- the old one is not closed, unless its id is given again.
pub overlapping_request_is_refused :
    (s : Setup) (m : Meanwhile) (req : PromptRequest) (msgs : Messages) (a : App) (p : Pending)
    (tx w fallback_ms delay : ℕ) (stale : List Decision)
    → a.pending ≡ some p
    → a.decision_tx ≡ some tx
    → a.window ≡ some w
    → m.new_id ≢ w
    → All (λ e. e.0.new_id ≢ w) msgs
    → let (b, tasks) = run s ((m, prompt req) ∷ msgs) a in
      ((Iced.resolve req fallback_ms (gui_window delay (drop (length a.sent) b.sent)) stale).0
        ≡ some deny_once)
      × (¬ Memᴰ w (closed tasks))
unfolding run update
overlapping_request_is_refused s m req msgs a p tx w fallback_ms delay stale h k _ new later =
    let b = (on_prompt s m req a).0 in
    let (more, grown) = run-Grows s msgs b in
    let refusal = (tx, deny_once) ∷ more in
    let all_sent =
      grown
      ∙ ap (λ l. l ++ more) (on_prompt-sent s m req a p tx h k)
      ∙ append_assoc a.sent ((tx, deny_once) ∷ []) more in
    let new_sent = ap (drop (length a.sent)) all_sent ∙ drop-append a.sent refusal in
    (
      ap (λ l. (Iced.resolve req fallback_ms (gui_window delay l) stale).0) new_sent
          ∙ refused_either_way req fallback_ms delay stale tx more,
      run-Spares s msgs b w (lost_window s m req a w new) later,
    )
