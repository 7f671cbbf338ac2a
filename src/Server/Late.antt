-- ===== src/Server/Late.antt =====
-- Answers that come late. The protocol has no correlation id, so an answer that comes after the
-- daemon gave up waiting is the answer to a later request on the same link.
use filewall.Prelude.{
  ℕ, ◌+◌, ◌-◌, ◌≤◌, ◌<◌, List, [], ◌∷◌, ◌++◌, map, Result, ok, err, ◌≡◌, ◌↔◌, ◌⊎◌, inl, inr, refl,
  le→ltb, lt→ltb, ltb, ltb→lt, ap, ◌∙◌, Bool-cases, arith,
}
use filewall.Proto.{Decision, PromptRequest}
use filewall.Proto.Frame.{Bytes, ErrorKind, would_block, Json, write_msg}
use filewall.Server.{Reply, idle, answers, fails, UiLink, elapse, waited, receive, sent, prompt}

-- The answers among the results.
abbrev pub oks : List (Result ErrorKind Decision) → List Decision
oks [] = []
oks (ok d ∷ rs) = d ∷ oks rs
oks (err e ∷ rs) = oks rs

abbrev answers_in : List Reply → List Decision
answers_in [] = []
answers_in (idle n ∷ rest) = answers_in rest
answers_in (answers delay d ∷ rest) = d ∷ answers_in rest
answers_in (fails e ∷ rest) = answers_in rest

abbrev decisions : List (ℕ × Decision) → List Decision
decisions [] = []
decisions ((n, d) ∷ later) = d ∷ decisions later

-- The answers that the window gives on the link and that the daemon has not had.
abbrev pub outstanding : UiLink → List Decision
outstanding l = decisions l.buffered ++ answers_in l.replies

-- A result and the link behind it have the answers that were outstanding before.
Keeps : Result ErrorKind Decision × UiLink → List Decision → Type 0
Keeps (r, l) ds = oks (r ∷ []) ++ outstanding l ≡ ds

decisions-elapse : (n : ℕ) (old : List (ℕ × Decision)) → decisions (elapse n old) ≡ decisions old
unfolding elapse
decisions-elapse n [] = refl
decisions-elapse n ((delay, d) ∷ later) = ap (λ ds. d ∷ ds) (decisions-elapse n later)

decisions-append :
    (old : List (ℕ × Decision)) (n : ℕ) (d : Decision) (ds : List Decision)
    → decisions (old ++ (n, d) ∷ []) ++ ds ≡ decisions old ++ d ∷ ds
decisions-append [] n d ds = refl
decisions-append ((k, e) ∷ later) n d ds = ap (λ xs. e ∷ xs) (decisions-append later n d ds)

waited-Keeps :
    (t : ℕ) (old : List (ℕ × Decision)) (replies : List Reply)
    → Keeps (waited t old replies) (decisions old ++ answers_in replies)
unfolding waited elapse Keeps
waited-Keeps t [] replies = refl
waited-Keeps t ((delay, d) ∷ later) replies = elim (Bool-cases (ltb delay t)) [
  | inl e ↦ rw (e, decisions-elapse delay later) refl
  | inr e ↦ rw (e, decisions-elapse t later) refl
]

receive-Keeps :
    (t : ℕ) (old : List (ℕ × Decision)) (replies : List Reply)
    → Keeps (receive t old replies) (decisions old ++ answers_in replies)
unfolding receive Keeps
receive-Keeps t old [] = waited-Keeps t old []
receive-Keeps t old (idle n ∷ rest) =
    receive-Keeps t (elapse n old) rest ∙ ap (λ ds. ds ++ answers_in rest) (decisions-elapse n old)
receive-Keeps t old (answers delay d ∷ rest) =
    waited-Keeps t (old ++ (delay, d) ∷ []) rest ∙ decisions-append old delay d (answers_in rest)
receive-Keeps t old (fails e ∷ rest) = refl

oks-cons :
    (r : Result ErrorKind Decision) (rs : List (Result ErrorKind Decision)) (ds : List Decision)
    → oks (r ∷ rs) ++ ds ≡ oks (r ∷ []) ++ (oks rs ++ ds)
oks-cons (ok d) rs ds = refl
oks-cons (err e) rs ds = refl

module _ (json : Json PromptRequest) (t : ℕ) where
  sent-Keeps :
      (frame : Result ErrorKind Bytes) (l : UiLink) → Keeps (sent json t frame l) (outstanding l)
  unfolding sent Keeps
  sent-Keeps (ok frame) l = receive-Keeps t l.buffered l.replies
  sent-Keeps (err e) l = refl

  prompt-Keeps : (req : PromptRequest) (l : UiLink) → Keeps (prompt json t req l) (outstanding l)
  unfolding prompt
  prompt-Keeps req l = sent-Keeps (write_msg json req) l

  -- One request after another on a link, and the link behind them.
  abbrev pub prompt_all : List PromptRequest → UiLink → List (Result ErrorKind Decision) × UiLink
  prompt_all [] l = ([], l)
  prompt_all (r ∷ rs) l =
      let (result, l1) = prompt json t r l in
      let (results, l2) = prompt_all rs l1 in (result ∷ results, l2)

  -- Over any requests on a link, with any timeouts and errors among them, the answers that the daemon
  -- gets are those that the window gives, in the window's order and from the oldest outstanding one
  -- on: none is dropped when a request times out, so each error shifts the answers that follow to
  -- later requests.
  pub answers_in_order :
      (reqs : List PromptRequest) (l : UiLink)
      → let (results, l') = prompt_all reqs l in oks results ++ outstanding l' ≡ outstanding l
  unfolding Keeps
  answers_in_order [] l = refl
  answers_in_order (r ∷ rs) l =
      let (result, l1) = prompt json t r l in
      let (results, l2) = prompt_all rs l1 in
      oks-cons result results (outstanding l2)
      ∙ ap (λ ds. oks (result ∷ []) ++ ds) (answers_in_order rs l1)
      ∙ prompt-Keeps r l

  first_of :
      (os ds more : List Decision) (d : Decision)
      → os ++ ds ≡ d ∷ more
      → (os ≡ []) ⊎ ((later : List Decision) × (os ≡ d ∷ later))
  first_of [] ds more d h = inl refl
  first_of (o ∷ os) ds more d h = let e : o ≡ d = cc h in inr (os, ap (λ x. x ∷ os) e)

  -- The link once a request has timed out and a while has passed.
  waits : ℕ → ℕ → Decision → List Reply → UiLink
  waits late gap d rest = record { buffered = (late - t, d) ∷ []; replies = idle gap ∷ rest }

  ok-ne-err : {d : Decision} {e : ErrorKind} → ¬ (err e ≡ ok d)
  ok-ne-err h = cc

  overdue_answer :
      (req : PromptRequest) (f : Bytes) (late gap soon : ℕ) (d1 d2 : Decision) (rest : List Reply)
      → write_msg json req ≡ ok f
      → 0 < t
      → t ≤ late
      → ((prompt json t req (waits late gap d1 (answers soon d2 ∷ rest))).0 ≡ ok d1)
        ↔ (late < t + gap + t)
  unfolding prompt sent receive waited elapse waits
  overdue_answer req f late gap soon d1 d2 rest w p h = elim (Bool-cases (ltb (late - t - gap) t)) [
    | inl e ↦
        rw (w, e) (λ k. let n : late - t - gap < t = ltb→lt _ t e in omega (arith, n, h), λ k. refl)
    | inr e ↦ rw (w, e) (λ k. absurd (ok-ne-err k), λ k. absurd (ground (arith, e, k, h, p)))
  ]

  -- On a link with no answer outstanding, where two requests fit into their frames, the timeout is not
  -- zero and the answer to the first request does not come before it, that access is refused with
  -- `would_block`. After a while without requests the second request gets that answer if and only if
  -- it comes before this request, too, times out; and whatever requests follow the first, if any of
  -- them gets an answer, then the first to get one gets that one.
  pub late_answer_decides_the_next :
      (req1 req2 : PromptRequest) (f1 f2 : Bytes) (late gap soon : ℕ) (d1 d2 : Decision)
      (rest : List Reply) (l : UiLink)
      → write_msg json req1 ≡ ok f1
      → write_msg json req2 ≡ ok f2
      → l ≡ record { buffered = []; replies = answers late d1 ∷ idle gap ∷ answers soon d2 ∷ rest }
      → 0 < t
      → t ≤ late
      → let (refused, l1) = prompt json t req1 l in
        (refused ≡ err would_block)
        × (((prompt json t req2 l1).0 ≡ ok d1) ↔ (late < t + gap + t))
        × ((reqs : List PromptRequest)
            → let answered = oks (prompt_all reqs l1).0 in
              (answered ≡ []) ⊎ ((later : List Decision) × (answered ≡ d1 ∷ later)))
  unfolding prompt sent receive waited elapse waits
  late_answer_decides_the_next req1 req2 f1 f2 late gap soon d1 d2 rest l w1 w2 e p h =
      rw (e, w1, le→ltb late t h)
        (
          refl,
          overdue_answer req2 f2 late gap soon d1 d2 rest w2 p h,
          λ reqs.
              let l1 = waits late gap d1 (answers soon d2 ∷ rest) in
              first_of (oks (prompt_all reqs l1).0) (outstanding (prompt_all reqs l1).1) _ d1
                (answers_in_order reqs l1),
        )

  -- The requests fit into a frame, and the answer to each comes in time.
  pub data InTime : List PromptRequest → List Reply → List Decision → Type 0 where
    done : {rest : List Reply} → InTime [] rest []
    next :
        {r : PromptRequest} {rs : List PromptRequest} {ps : List Reply} {ds : List Decision}
        {f : Bytes} {delay : ℕ} {d : Decision}
        → write_msg json r ≡ ok f
        → delay < t
        → InTime rs ps ds
        → InTime (r ∷ rs) (answers delay d ∷ ps) (d ∷ ds)

  -- While every request fits into a frame and every answer comes before the timeout, every
  -- request gets its own answer.
  pub InTime-answers_match :
      {rs : List PromptRequest} {ps : List Reply} {ds : List Decision}
      → InTime rs ps ds
      → (prompt_all rs (record { buffered = []; replies = ps })).0 ≡ map (λ d. ok d) ds
  unfolding prompt sent receive waited elapse
  InTime-answers_match done = refl
  InTime-answers_match (next {d} w h more) =
      rw (w, lt→ltb _ _ h) (ap (λ xs. ok d ∷ xs) (InTime-answers_match more))
