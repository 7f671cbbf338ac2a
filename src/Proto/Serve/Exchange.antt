-- ===== src/Proto/Serve/Exchange.antt =====
-- One request and its answer over a link that is served.
use mathlib.Core.List.{append-nil}
use filewall.Prelude.{
  ℕ, zero, suc, Bool, Option, none, some, [], ◌++◌, Result, ok, err, ◌≡◌, ◌∙◌, refl, sym, ap, subst,
  Bool-cases, inl, inr,
}
use filewall.Proto.{Decision, PromptRequest, PromptResponse}
use filewall.Proto.Frame.{Bytes, ErrorKind, Json, ReadsBack, read_msg, write_msg, max_msg_len}
use filewall.Proto.RoundTrip.{read_msg_capped-write_msg_capped}
use filewall.Proto.Serve.{Served, before, delivered, answered, on_read, serve_requests}
use filewall.Proto.Serve.Order.{read_msg_empty}

-- A frame that was written is read as the message, and nothing is left.
pub read_msg-write_msg :
    {T : Type 0} (json : Json T) (msg : T) (frame : Bytes)
    → ReadsBack json
    → write_msg json msg ≡ ok frame
    → read_msg json frame ≡ ok (msg, [])
unfolding read_msg write_msg
read_msg-write_msg json msg frame back h =
    subst (λ f. read_msg json f ≡ ok (msg, [])) (append-nil frame)
      (read_msg_capped-write_msg_capped json max_msg_len msg frame [] back h)

err-ne-ok : {E A : Type 0} {e : E} {a : A} → ¬ (err e ≡ ok a)
err-ne-ok h = cc

module _ {S : Type 0} (requests : Json PromptRequest) (responses : Json PromptResponse)
    (answer : S → PromptRequest → Option Decision × S) (broken : S → Bool) where
  -- Nothing comes of a link on which nothing was sent.
  quiet_link :
      (fuel : ℕ) (s : S) → (serve_requests requests responses answer broken fuel s []).written ≡ []
  unfolding serve_requests on_read
  quiet_link zero s = refl
  quiet_link (suc fuel) s = rw (read_msg_empty requests) refl

  delivered-read :
      (d : Decision) (w : Result ErrorKind Bytes) (s : S) (r : Served S) (msg : PromptResponse)
      (rest : Bytes)
      → ReadsBack responses
      → write_msg responses (record { decision = d }) ≡ w
      → r.written ≡ []
      → read_msg responses (delivered requests responses answer broken w s r).written
        ≡ ok (msg, rest)
      → d ≡ msg.decision
  unfolding delivered before
  delivered-read d (err e) s r msg rest back h q k =
      absurd (err-ne-ok (sym (read_msg_empty responses) ∙ k))
  delivered-read d (ok frame) s r msg rest back h q k = elim (Bool-cases (broken s)) [
    | inl e ↦ absurd (err-ne-ok (sym (read_msg_empty responses) ∙ rw e at k))
    | inr e ↦
        let whole : read_msg responses (frame ++ r.written) ≡ ok (record { decision = d }, []) =
          ap (λ b. read_msg responses (frame ++ b)) q
          ∙ ap (read_msg responses) (append-nil frame)
          ∙ read_msg-write_msg responses (record { decision = d }) frame back h in
        let same : ok (record { decision = d }, []) ≡ ok (msg, rest) = sym whole ∙ rw e at k in
        cc same
  ]

  answered-read :
      (o : Option Decision × S) (loop : S → Served S) (msg : PromptResponse) (rest : Bytes)
      → ReadsBack responses
      → ((s : S) → (loop s).written ≡ [])
      → read_msg responses (answered requests responses answer broken o loop).written
        ≡ ok (msg, rest)
      → o.0 ≡ some msg.decision
  unfolding answered
  answered-read (none, s) loop msg rest back q k =
      absurd (err-ne-ok (sym (read_msg_empty responses) ∙ k))
  answered-read (some d, s) loop msg rest back q k = ap some (
      delivered-read d (write_msg responses (record { decision = d })) s (loop s) msg rest back refl
        (q s) k)

  -- What the other side reads after one request is the window's answer to it.
  pub read_is_the_answer :
      (fuel : ℕ) (s : S) (req : PromptRequest) (frame rest : Bytes) (msg : PromptResponse)
      → ReadsBack requests
      → ReadsBack responses
      → write_msg requests req ≡ ok frame
      → read_msg responses
          (serve_requests requests responses answer broken (suc fuel) s frame).written
        ≡ ok (msg, rest)
      → (answer s req).0 ≡ some msg.decision
  unfolding serve_requests on_read
  read_is_the_answer fuel s req frame rest msg back back' h k =
      answered-read (answer s req)
        (λ s'. serve_requests requests responses answer broken fuel s' []) msg rest back'
        (λ s'. quiet_link fuel s') (rw (read_msg-write_msg requests req frame back h) at k)
