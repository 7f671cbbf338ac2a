-- ===== src/Iced/App/Shown.antt =====
-- A request that is shown in the window of filewall-ui-iced, from message to message.
use mathlib.Core.List.{append-nil}
use filewall.Iced.App.{
  App, Pending, Meanwhile, Message, worker_ready, prompt, window_opened, decide, deny, tick, Task,
  nothing, close, open_window, Setup, effective_ms, pending_of, resolve, resolve_pending, pass_on,
  closing, on_prompt, on_tick, update, run,
}
use filewall.Iced.App.Answers.{Messages}
use filewall.Prelude.{
  ℕ, ◌+◌, ◌-◌, ◌*◌, ◌/◌, Bool, true, false, Option, none, some, List, [], ◌∷◌, ◌++◌, All, leb, ◌≡◌,
  ◌∙◌, sym, ap, subst, refl, arith, if◌then◌else◌, Bool-cases, inl, inr,
}
use filewall.Proto.{Decision, deny_once, PromptRequest}

-- The decision that ends a request which is shown until the deadline: the first button, Escape,
-- Enter or close, or the first tick at the deadline or later, or the next request.
abbrev pub first_decision : ℕ → Messages → Option Decision
first_decision deadline [] = none
first_decision deadline ((m, worker_ready tx) ∷ rest) = first_decision deadline rest
first_decision deadline ((m, prompt req) ∷ rest) = some deny_once
first_decision deadline ((m, window_opened id) ∷ rest) = first_decision deadline rest
first_decision deadline ((m, decide d) ∷ rest) = some d
first_decision deadline ((m, deny) ∷ rest) = some deny_once
first_decision deadline ((m, tick) ∷ rest) =
    if leb deadline m.now then some deny_once else first_decision deadline rest

-- Neither a request nor a channel.
abbrev pub is_users : Message → Bool
is_users (worker_ready tx) = false
is_users (prompt req) = false
is_users _ = true

abbrev pub AllUsers : Messages → Type 0
AllUsers = All (λ e. is_users e.1 ≡ true)

-- The windows that are closed.
abbrev pub closed : List Task → List ℕ
closed [] = []
closed (nothing ∷ rest) = closed rest
closed (close id ∷ rest) = id ∷ closed rest
closed (open_window id ∷ rest) = closed rest

abbrev pub to_worker : ℕ → Option Decision → List (ℕ × Decision)
to_worker tx none = []
to_worker tx (some d) = (tx, d) ∷ []

abbrev pub shuts : ℕ → Option Decision → List ℕ
shuts id none = []
shuts id (some d) = id ∷ []

idle_step :
    (s : Setup) (m : Meanwhile) (msg : Message) (a : App)
    → a.pending ≡ none
    → is_users msg ≡ true
    → update s m msg a ≡ (a, nothing)
unfolding update resolve resolve_pending on_tick
idle_step s m (worker_ready tx) a h u = cc
idle_step s m (prompt req) a h u = cc
idle_step s m _ a h u = ground arith

-- With nothing shown, what the user does sends nothing and closes nothing.
idle_stays :
    (s : Setup) (msgs : Messages) (a : App)
    → a.pending ≡ none
    → AllUsers msgs
    → ((run s msgs a).0.sent ≡ a.sent) × (closed (run s msgs a).1 ≡ [])
unfolding run
idle_stays s [] a h u = (refl, refl)
idle_stays s ((m, msg) ∷ rest) a h u = rw (idle_step s m msg a h u.0) (idle_stays s rest a h u.1)

-- A request is shown in a window, and the worker's channel is there.
pub record IsShown (a : App) (tx id deadline : ℕ) : Type 0 where
  pending : Pending
  held : a.pending ≡ some pending
  until : pending.deadline ≡ deadline
  channel : a.decision_tx ≡ some tx
  window : a.window ≡ some id

-- A message either decides the request that is shown, or leaves it shown.
data Stepped (a : App) (tx id deadline : ℕ) (o : Option Decision) (b : App) (t : Task)
    : Type 0 where
  decided :
      (d : Decision)
      → o ≡ some d
      → b.pending ≡ none
      → b.sent ≡ a.sent ++ (tx, d) ∷ []
      → t ≡ close id
      → Stepped a tx id deadline o b t
  waits :
      o ≡ none
      → IsShown b tx id deadline
      → b.sent ≡ a.sent
      → t ≡ nothing
      → Stepped a tx id deadline o b t

resolve-Stepped :
    (d : Decision) (a : App) {tx id deadline : ℕ}
    → IsShown a tx id deadline
    → Stepped a tx id deadline (some d) (resolve d a).0 (resolve d a).1
unfolding resolve resolve_pending pass_on closing
resolve-Stepped d a h =
    decided d refl (rw (h.held) refl) (rw (h.held, h.channel) refl) (rw (h.held, h.window) refl)

tick-shown :
    (m : Meanwhile) (p : Pending) (a : App) {tx id : ℕ}
    → IsShown a tx id p.deadline
    → Stepped a tx id p.deadline
        (if leb p.deadline m.now then some deny_once else none)
        (on_tick m (some p) a).0
        (on_tick m (some p) a).1
unfolding on_tick
tick-shown m p a h = elim (Bool-cases (leb p.deadline m.now)) [
  | inl e ↦ rw e (resolve-Stepped deny_once a h)
  | inr e ↦ rw e (
      waits refl
        (record {
          pending = record p { remaining_s = (p.deadline - m.now) / 1000000000 + 1 };
          held = refl;
          until = refl;
          channel = h.channel;
          window = h.window;
        })
        refl refl)
]

tick-Stepped :
    (m : Meanwhile) (a : App) {tx id deadline : ℕ}
    → IsShown a tx id deadline
    → Stepped a tx id deadline
        (if leb deadline m.now then some deny_once else none)
        (on_tick m a.pending a).0
        (on_tick m a.pending a).1
tick-Stepped m a {tx} {id} {deadline} h =
    subst
      (λ o.
        Stepped a tx id deadline (if leb deadline m.now then some deny_once else none)
          (on_tick m o a).0 (on_tick m o a).1)
      (sym h.held)
      (subst
        (λ t.
          Stepped a tx id t (if leb t m.now then some deny_once else none)
            (on_tick m (some h.pending) a).0 (on_tick m (some h.pending) a).1)
        h.until
        (tick-shown m h.pending a (record {
          pending = h.pending;
          held = h.held;
          until = refl;
          channel = h.channel;
          window = h.window;
        })))

update-Stepped :
    (s : Setup) (m : Meanwhile) (msg : Message) (a : App) {tx id deadline : ℕ}
    → IsShown a tx id deadline
    → is_users msg ≡ true
    → Stepped a tx id deadline
        (first_decision deadline ((m, msg) ∷ []))
        (update s m msg a).0
        (update s m msg a).1
unfolding update
update-Stepped s m (worker_ready tx) a h u = cc
update-Stepped s m (prompt req) a h u = cc
update-Stepped s m (window_opened id) a h u = waits refl h refl refl
update-Stepped s m (decide d) a h u = resolve-Stepped d a h
update-Stepped s m deny a h u = resolve-Stepped deny_once a h
update-Stepped s m tick a h u = tick-Stepped m a h

-- What is left of the run, where the first message waits or decides.
abbrev or_else : Option Decision → Option Decision → Option Decision
or_else none o = o
or_else (some d) o = some d

first_decision-cons :
    (deadline : ℕ) (m : Meanwhile) (msg : Message) (rest : Messages)
    → first_decision deadline ((m, msg) ∷ rest)
      ≡ or_else (first_decision deadline ((m, msg) ∷ [])) (first_decision deadline rest)
first_decision-cons deadline m (worker_ready tx) rest = refl
first_decision-cons deadline m (prompt req) rest = refl
first_decision-cons deadline m (window_opened id) rest = refl
first_decision-cons deadline m (decide d) rest = refl
first_decision-cons deadline m deny rest = refl
first_decision-cons deadline m tick rest = ground arith

pub shown_run :
    (s : Setup) (msgs : Messages) (a : App) {tx id deadline : ℕ}
    → IsShown a tx id deadline
    → AllUsers msgs
    → ((run s msgs a).0.sent ≡ a.sent ++ to_worker tx (first_decision deadline msgs))
      × (closed (run s msgs a).1 ≡ shuts id (first_decision deadline msgs))
unfolding run
shown_run s [] a h u = (sym (append-nil a.sent), refl)
shown_run s ((m, msg) ∷ rest) a {tx} {id} {deadline} h u =
    rw (first_decision-cons deadline m msg rest) (elim (update-Stepped s m msg a h u.0) [
      | decided d o idle sent shut ↦
          let (same, none_shut) = idle_stays s rest (update s m msg a).0 idle u.1 in
          rw (o, shut) (same ∙ sent, ap (λ l. id ∷ l) none_shut)
      | waits o still sent no_task ↦
          let (sends, shuts_it) = shown_run s rest (update s m msg a).0 still u.1 in
          rw (o, no_task)
            (sends ∙ ap (λ l. l ++ to_worker tx (first_decision deadline rest)) sent, shuts_it)
    ])

pub on_prompt-IsShown :
    (s : Setup) (m : Meanwhile) (req : PromptRequest) (a : App) {tx : ℕ}
    → a.decision_tx ≡ some tx
    → IsShown (on_prompt s m req a).0 tx m.new_id (m.now + effective_ms s req * 1000000)
unfolding on_prompt pending_of resolve resolve_pending
on_prompt-IsShown s m req a h = record {
  pending = pending_of s m req;
  held = refl;
  until = refl;
  channel = ground arith;
  window = refl;
}
