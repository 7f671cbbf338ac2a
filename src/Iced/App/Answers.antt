-- ===== src/Iced/App/Answers.antt =====
-- What the window of filewall-ui-iced answers to a request, over every list of messages.
use filewall.Iced.App.{
  App, Pending, Meanwhile, Message, worker_ready, prompt, window_opened, decide, deny, tick, Setup,
  resolve, resolve_pending, pass_on, on_prompt, on_tick, update, run,
}
use filewall.Prelude.{
  ℕ, suc, ◌+◌, Option, none, some, List, [], ◌∷◌, length, ◌≡◌, refl, arith, length-append,
}
use filewall.Proto.{Decision, deny_once}

abbrev pub Messages : Type 0
Messages = List (Meanwhile × Message)

-- How many requests a list of messages has.
abbrev pub prompts : Messages → ℕ
prompts [] = 0
prompts ((m, prompt req) ∷ rest) = suc (prompts rest)
prompts ((m, _) ∷ rest) = prompts rest

abbrev pub shown : Option Pending → ℕ
shown none = 0
shown (some p) = 1

-- The worker has handed over its channel.
abbrev pub IsReady : App → Type 0
IsReady a = (tx : ℕ) × (a.decision_tx ≡ some tx)

length-pass_on :
    (o : Option ℕ) (d : Decision) (sent : List (ℕ × Decision)) {tx : ℕ}
    → o ≡ some tx
    → length (pass_on o d sent) ≡ length sent + 1
unfolding pass_on
length-pass_on none d sent h = cc
length-pass_on (some tx) d sent h = length-append sent ((tx, d) ∷ [])

-- `resolve` answers a request that is shown, and then none is.
pub resolve_lem :
    (d : Decision) (a : App) {tx : ℕ}
    → a.decision_tx ≡ some tx
    → let b = (resolve d a).0 in
      (b.decision_tx ≡ some tx)
      × (b.pending ≡ none)
      × (length b.sent ≡ length a.sent + shown a.pending)
unfolding resolve resolve_pending
resolve_lem d a h = ground (arith, length-pass_on a.decision_tx d a.sent h)

-- What a message leaves of the balance.
update-balance :
    (s : Setup) (m : Meanwhile) (msg : Message) (a : App)
    → IsReady a
    → let b = (update s m msg a).0 in
      IsReady b
      × (length b.sent + shown b.pending
          ≡ length a.sent + shown a.pending + prompts ((m, msg) ∷ []))
unfolding update on_prompt on_tick
update-balance s m (worker_ready tx) a (t, h) = ((tx, refl), omega arith)
update-balance s m (prompt req) a (t, h) =
    ((t, (resolve_lem deny_once a h).0), ground (arith, resolve_lem deny_once a h))
update-balance s m (window_opened id) a (t, h) = ((t, h), omega arith)
update-balance s m (decide d) a (t, h) =
    ((t, (resolve_lem d a h).0), ground (arith, resolve_lem d a h))
update-balance s m deny a (t, h) =
    ((t, (resolve_lem deny_once a h).0), ground (arith, resolve_lem deny_once a h))
update-balance s m tick a (t, h) =
    ((t, ground (arith, resolve_lem deny_once a h)), ground (arith, resolve_lem deny_once a h))

prompts-cons :
    (e : Meanwhile × Message) (rest : Messages)
    → prompts (e ∷ rest) ≡ prompts (e ∷ []) + prompts rest
prompts-cons (m, prompt req) rest = omega arith
prompts-cons (m, worker_ready tx) rest = omega arith
prompts-cons (m, window_opened id) rest = omega arith
prompts-cons (m, decide d) rest = omega arith
prompts-cons (m, deny) rest = omega arith
prompts-cons (m, tick) rest = omega arith

-- Once the worker has handed over its channel, whatever messages come: the answers that were sent
-- are as many as the requests, less the one that is still shown.
pub one_answer_each :
    (s : Setup) (msgs : Messages) (a : App)
    → IsReady a
    → let b = (run s msgs a).0 in
      length b.sent + shown b.pending ≡ length a.sent + shown a.pending + prompts msgs
unfolding run
one_answer_each s [] a h = omega arith
one_answer_each s ((m, msg) ∷ rest) a h =
    let (ready, same) = update-balance s m msg a h in
    let later = one_answer_each s rest (update s m msg a).0 ready in
    omega (arith, same, later, prompts-cons (m, msg) rest)
