-- ===== src/Daemon/Click.antt =====
-- From an access to the button that lets it through: event_loop of filewalld/src/main.rs, the link of
-- filewalld/src/server.rs, and the worker and the window of filewall-ui-iced/src at its other end.
use filewall.Daemon.{Event, Seen, Daemon, Setup, path_of, prompt_request, skipped}
use filewall.Daemon.Fate.{Asked}
use filewall.Daemon.Access.{Grants, prompted, Answers, handle-Answers}
use filewall.Iced.{wait_ms}
use filewall.Iced.App
use filewall.Iced.App.{App, Meanwhile, prompt, effective_ms, run}
use filewall.Iced.App.Answers.{Messages}
use filewall.Iced.App.Clicks.{IsPressed, gui_window}
use filewall.Iced.App.Shown.{AllUsers}
use filewall.Iced.EndToEnd.{daemon_allow_is_a_click}
use filewall.Iced.Worker
use filewall.Iced.Worker.{Gui}
use filewall.Policy.{covering_watch}
use filewall.Prelude.{
  ℕ, ◌+◌, ◌*◌, ◌<◌, Bool, true, none, some, List, [], ◌∷◌, ◌++◌, ok, err, ltb, ltb→lt, drop,
  drop-append, length, ◌≡◌, ◌∙◌, sym, ap, arith, Bool-cases, inl, inr,
}
use filewall.Proto.{Decision, PromptRequest, PromptResponse, allows}
use filewall.Proto.Frame.{Bytes, Json, ReadsBack, read_msg, write_msg}
use filewall.Server
use filewall.Server.{Reply, answers, UiServer, prompt_recovering}

err-ne-ok : {E A : Type 0} {e : E} {a : A} → ¬ (err e ≡ ok a)
err-ne-ok h = cc

-- On a link with no answer outstanding the user's answer is the one that is read, in time.
own_answer :
    (json : Json PromptRequest) (s : UiServer) (req : PromptRequest) (frame : Bytes) (late : ℕ)
    (d decision : Decision) (more : List Reply)
    → write_msg json req ≡ ok frame
    → (prompt_recovering json s
        (some (record { buffered = []; replies = answers late d ∷ more }))
        req).result
      ≡ ok decision
    → (d ≡ decision) × (late < s.timeout_ms)
unfolding prompt_recovering Server.prompt Server.is_disconnect
own_answer json s req frame late d decision more w h = elim (Bool-cases (ltb late s.timeout_ms)) [
  | inl e ↦ let same : ok d ≡ ok decision = rw (w, e) at h in (cc same, ltb→lt late s.timeout_ms e)
  | inr e ↦ absurd (err-ne-ok (rw (w, e) at h))
]

module _ (c : Setup) (ev : Event) (seen : Seen) (d : Daemon) where
  -- An access that was asked about and let through was let through by the user.
  asked-grants :
      Asked c ev seen d
      → Grants c ev seen d
      → (decision : Decision) × ((prompted c ev seen d).result ≡ ok decision)
        × (allows decision ≡ true)
  unfolding skipped
  asked-grants a (Grants.other_event h) = cc (a.opens, h)
  asked-grants a (Grants.own_access h) = absurd (a.foreign h)
  asked-grants a (Grants.excluded w h k) = absurd (ground (arith, rw h at a.in_reach, k))
  asked-grants a (Grants.out_of_patterns w h k) = absurd (ground (arith, rw h at a.in_reach, k))
  asked-grants a (Grants.decided_allow h) = cc (a.open_verdict, h)
  asked-grants a (Grants.user_allows decision h k l) = (decision, k, l)

  -- What was written behind the answers so far says what it was.
  Answers-eq : (b : Bool) → Answers c ev seen d b → Answers c ev seen d true → b ≡ true
  Answers-eq b h k =
      let both : d.responses ++ record { fd = ev.fd; allow = b } ∷ []
          ≡ d.responses ++ record { fd = ev.fd; allow = true } ∷ [] =
        sym h ∙ k in
      let last : record { fd = ev.fd; allow = b } ∷ [] ≡ record { fd = ev.fd; allow = true } ∷ [] =
        sym (drop-append d.responses _)
        ∙ ap (drop (length d.responses)) both
        ∙ drop-append d.responses _ in
      cc last

-- Where an access is one to ask about, the daemon's link to the native window has no answer
-- outstanding, and the reply on it is what the worker there writes for the daemon's request, the
-- access is let through only where the user pressed the button for the decision of that reply, which
-- allows it, nothing had decided the request before that, the window's answer reached the worker
-- while it still waited, and the reply came before the daemon's own timeout. The window shows no
-- request when this one comes and gets no other, and each message is read back from what its encoder
-- gives.
pub access_is_let_through_by_a_click :
    (c : Setup) (ev : Event) (seen : Seen) (d : Daemon) (responses : Json PromptResponse) (g : Gui)
    (st : Worker.State) (s : App.Setup) (m : Meanwhile) (msgs : Messages) (a : App)
    (tx delay late : ℕ) (frame rest : Bytes) (msg : PromptResponse) (more : List Reply)
    → ReadsBack c.json
    → ReadsBack responses
    → Asked c ev seen d
    → d.ui ≡ some (record { buffered = []; replies = answers late msg.decision ∷ more })
    → a.pending ≡ none
    → a.decision_tx ≡ some tx
    → AllUsers msgs
    → (let req = prompt_request c ev seen (covering_watch d.policy (path_of seen)) in
        (g.windows st.asked
          ≡ gui_window delay (drop (length a.sent) (run s ((m, prompt req) ∷ msgs) a).0.sent))
        × (write_msg c.json req ≡ ok frame)
        × (read_msg responses (Worker.serve c.json responses g st frame).written ≡ ok (msg, rest)))
    → Answers c ev seen d true
    → let req = prompt_request c ev seen (covering_watch d.policy (path_of seen)) in
      IsPressed (m.now + effective_ms s req * 1000000) msgs msg.decision
      × (allows msg.decision ≡ true)
      × (delay < wait_ms req g.fallback_ms)
      × (late < d.server.timeout_ms)
access_is_let_through_by_a_click c ev seen d responses g st s m msgs a tx delay late frame rest msg
      more back back' asked link idle ready users (window, sends, reads) let_through =
    let (b, h, iff) = handle-Answers c ev seen d in
    let granted = iff.0 (Answers-eq c ev seen d b h let_through) in
    let (decision, result, allowed) = asked-grants c ev seen d asked granted in
    let (same, in_time) =
      own_answer c.json d.server (prompt_request c ev seen (covering_watch d.policy (path_of seen)))
        frame late msg.decision decision more sends (rw link at result) in
    let allows_it : allows msg.decision ≡ true = ap allows same ∙ allowed in
    let (pressed, waited) =
      daemon_allow_is_a_click c.json responses g st s m
        (prompt_request c ev seen (covering_watch d.policy (path_of seen))) msgs a tx delay frame
        rest msg back back' idle ready users window sends reads allows_it in
    (pressed, allows_it, waited, in_time)
