-- ===== src/Iced/EndToEnd.antt =====
-- The daemon's side of a request to the native window: filewall-ui-iced/src/app.rs and worker.rs,
-- with the messages of filewall-proto/src/lib.rs between them.
use filewall.Iced.{wait_ms}
use filewall.Iced
use filewall.Iced.App.{App, Meanwhile, prompt, Setup, effective_ms, run}
use filewall.Iced.App.Answers.{Messages}
use filewall.Iced.App.Clicks.{IsPressed, gui_window, worker_allow_is_a_click}
use filewall.Iced.App.Shown.{AllUsers}
use filewall.Iced.Worker
use filewall.Iced.Worker.{Gui}
use filewall.Prelude.{ℕ, ◌+◌, ◌*◌, ◌<◌, true, none, some, ok, ◌∷◌, ◌≡◌, ◌∙◌, sym, ap, length, drop}
use filewall.Proto.{allows, PromptRequest, PromptResponse}
use filewall.Proto.Frame.{Bytes, Json, ReadsBack, read_msg, write_msg}
use filewall.Proto.Serve.Exchange.{read_is_the_answer}

-- What is read back from the worker is the decision that it resolved the request to.
read-serve :
    (requests : Json PromptRequest) (responses : Json PromptResponse) (g : Gui) (st : Worker.State)
    (req : PromptRequest) (frame rest : Bytes) (msg : PromptResponse)
    → ReadsBack requests
    → ReadsBack responses
    → write_msg requests req ≡ ok frame
    → read_msg responses (Worker.serve requests responses g st frame).written ≡ ok (msg, rest)
    → (Iced.resolve req g.fallback_ms (g.windows st.asked) st.channel).0 ≡ some msg.decision
unfolding Worker.serve Worker.answer
read-serve requests responses g st req frame rest msg back back' h k =
    read_is_the_answer requests responses (Worker.answer g) (λ t. g.broken t.asked) (length frame)
      st req frame rest msg back back' h k

-- Where the daemon writes one request on a new link to the window, no request is shown there and no
-- other follows it, and the window's answer reaches the worker after any delay, the daemon reads an
-- allow back only where the user pressed the button for this very decision, nothing had decided the
-- request before that, and the answer came within the time that the worker waits. The encoder of
-- each message is read back by its decoder.
pub daemon_allow_is_a_click :
    (requests : Json PromptRequest) (responses : Json PromptResponse) (g : Gui) (st : Worker.State)
    (s : Setup) (m : Meanwhile) (req : PromptRequest) (msgs : Messages) (a : App) (tx delay : ℕ)
    (frame rest : Bytes) (msg : PromptResponse)
    → ReadsBack requests
    → ReadsBack responses
    → a.pending ≡ none
    → a.decision_tx ≡ some tx
    → AllUsers msgs
    → g.windows st.asked
      ≡ gui_window delay (drop (length a.sent) (run s ((m, prompt req) ∷ msgs) a).0.sent)
    → write_msg requests req ≡ ok frame
    → read_msg responses (Worker.serve requests responses g st frame).written ≡ ok (msg, rest)
    → allows msg.decision ≡ true
    → IsPressed (m.now + effective_ms s req * 1000000) msgs msg.decision
      × (delay < wait_ms req g.fallback_ms)
daemon_allow_is_a_click requests responses g st s m req msgs a tx delay frame rest msg back back'
      idle ready u w h k =
    worker_allow_is_a_click s m req msgs a tx g.fallback_ms delay st.channel msg.decision idle ready
      u
      (ap (λ x. (Iced.resolve req g.fallback_ms x st.channel).0) (sym w)
        ∙ read-serve requests responses g st req frame rest msg back back' h k)
