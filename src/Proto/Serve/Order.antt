-- ===== src/Proto/Serve/Order.antt =====
-- The serving loop comes to an end, and answers requests in their order.
use filewall.Prelude.{
  ℕ, zero, suc, ◌+◌, ◌≤◌, ◌<◌, ◌≡◌, ◌≢◌, refl, ap, arith, Bool, true, false, Option, none, some,
  List, [], ◌++◌, Result, ok, err, >>=-eq-ok, length, drop, length-drop, ltb, ltb→le, Bool-cases,
  inl, inr, ◌⊎◌, if◌then◌else◌,
}
use filewall.Proto.{Decision, PromptRequest, PromptResponse}
use filewall.Proto.Frame.{
  Bytes, ErrorKind, Json, ReadsBack, read_msg, write_msg, read_exact, parsed, max_msg_len,
  from_be_bytes, invalid_data, unexpected_eof, write_msg_capped,
}
use filewall.Proto.RoundTrip.{send_all, read_msg_capped-write_msg_capped}
use filewall.Proto.Serve.{
  Served, dropped, out_of_fuel, Answers, before, delivered, answered, on_read, serve_requests,
}

Result-cases : {E A : Type 0} (r : Result E A) → ((e : E) × (r ≡ err e)) ⊎ ((a : A) × (r ≡ ok a))
Result-cases (ok a) = inr (a, refl)
Result-cases (err e) = inl (e, refl)

ok-ne-err : {E A : Type 0} {e : E} {a : A} → ¬ (err e ≡ ok a)
ok-ne-err h = cc

read_exact-shrinks :
    (n : ℕ) (stream b rest : Bytes)
    → read_exact n stream ≡ ok (b, rest)
    → length rest + n ≤ length stream
unfolding read_exact
read_exact-shrinks n stream b rest h = elim (Bool-cases (ltb (length stream) n)) [
  | inl short ↦ absurd (ok-ne-err (rw short at h))
  | inr long ↦
      let e : drop n stream ≡ rest = cc (rw long at h) in
      omega (arith, length-drop n stream, ap length e, ltb→le _ _ long)
]

not_refused :
    {A : Type 0} (refuse : Bool) (later : Result ErrorKind A) {a : A}
    → (if refuse then err invalid_data else later) ≡ ok a
    → later ≡ ok a
not_refused true later h = cc
not_refused false later h = h

parsed-rest :
    {T : Type 0} (json : Json T) (o : Option T) (stream : Bytes) (msg : T) (rest : Bytes)
    → parsed json o stream ≡ ok (msg, rest)
    → stream ≡ rest
unfolding parsed
parsed-rest json none stream msg rest h = cc
parsed-rest json (some v) stream msg rest h = cc

-- Nothing can be read from a stream that has ended.
pub read_msg_empty : {T : Type 0} (json : Json T) → read_msg json [] ≡ err unexpected_eof
unfolding read_msg read_exact
read_msg_empty json = refl

-- A message takes at least four bytes off the stream.
read_msg-shrinks :
    {T : Type 0} (json : Json T) (stream rest : Bytes) (msg : T)
    → read_msg json stream ≡ ok (msg, rest)
    → length rest < length stream
unfolding read_msg
read_msg-shrinks json stream rest msg h =
    let ((b, stream1), first, h1) = >>=-eq-ok (read_exact 4 stream) _ h in
    let h2 = not_refused (ltb max_msg_len (from_be_bytes b)) _ h1 in
    let ((body, stream2), second, h3) = >>=-eq-ok (read_exact (from_be_bytes b) stream1) _ h2 in
    let same = parsed-rest json (json.from_slice body) stream2 msg rest h3 in
    omega (
      arith,
      read_exact-shrinks 4 stream b stream1 first,
      read_exact-shrinks (from_be_bytes b) stream1 body stream2 second,
      ap length same,
    )

module _ {S : Type 0} (requests : Json PromptRequest) (responses : Json PromptResponse)
    (answer : S → PromptRequest → Option Decision × S) (broken : S → Bool) where
  delivered_ends :
      (w : Result ErrorKind Bytes) (s : S) (r : Served S)
      → r.end ≢ out_of_fuel
      → (delivered requests responses answer broken w s r).end ≢ out_of_fuel
  unfolding delivered before
  delivered_ends (err e) s r h = λ k. cc k
  delivered_ends (ok frame) s r h = elim (Bool-cases (broken s)) [
    | inl e ↦ rw e (λ k. cc k)
    | inr e ↦ rw e h
  ]

  answered_ends :
      (o : Option Decision × S) (rest : S → Served S)
      → ((s : S) → (rest s).end ≢ out_of_fuel)
      → (answered requests responses answer broken o rest).end ≢ out_of_fuel
  unfolding answered
  answered_ends (none, s) rest h = λ k. cc k
  answered_ends (some d, s) rest h =
      delivered_ends (write_msg responses (record { decision = d })) s (rest s) (h s)

  on_read_ends :
      (r : Result ErrorKind (PromptRequest × Bytes)) (s : S) (loop : S → Bytes → Served S)
      → ((req : PromptRequest) (rest : Bytes) (s' : S)
          → r ≡ ok (req, rest)
          → (loop s' rest).end ≢ out_of_fuel)
      → (on_read requests responses answer broken r s loop).end ≢ out_of_fuel
  unfolding on_read
  on_read_ends (err e) s loop h = λ k. cc k
  on_read_ends (ok (req, rest)) s loop h =
      answered_ends (answer s req) (λ s'. loop s' rest) (λ s'. h req rest s' refl)

  -- Fuel above the length of what was received is enough.
  pub serve_requests_enough :
      (fuel : ℕ) (s : S) (stream : Bytes)
      → length stream < fuel
      → (serve_requests requests responses answer broken fuel s stream).end ≢ out_of_fuel
  unfolding serve_requests
  serve_requests_enough zero s stream h = absurd (omega arith)
  serve_requests_enough (suc fuel) s stream h =
      on_read_ends (read_msg requests stream) s
        (serve_requests requests responses answer broken fuel)
        λ req rest s' k.
          serve_requests_enough fuel s' rest
            (omega (arith, read_msg-shrinks requests stream rest req k))

  -- Requests that are received together and all answered: their answers are written, one frame for
  -- each and in their order, and then the loop ends as the stream does.
  pub serve_requests_in_order :
      (fuel : ℕ) (s end_state : S) (reqs : List PromptRequest) (answers : List PromptResponse)
      (sent replies : Bytes)
      → ReadsBack requests
      → Answers requests responses answer broken s reqs answers end_state
      → send_all requests max_msg_len reqs ≡ ok sent
      → send_all responses max_msg_len answers ≡ ok replies
      → length sent < fuel
      → serve_requests requests responses answer broken fuel s sent
        ≡ record { end = dropped; written = replies; state = end_state }
  unfolding serve_requests on_read answered delivered before read_msg write_msg
  serve_requests_in_order zero s end_state reqs answers sent replies back a h k lt =
      absurd (omega arith)
  serve_requests_in_order (suc fuel) s end_state reqs answers sent replies back (Answers.done s') h
        k lt =
      let nothing_sent : sent ≡ [] = cc in
      let no_replies : replies ≡ [] = cc in rw (nothing_sent, no_replies, read_msg_empty requests)
  serve_requests_in_order (suc fuel) s end_state reqs answers sent replies back
        (Answers.next s' s1 s2 req d reqs' rest' e b more) h k lt =
      let (frame, w, h1) = >>=-eq-ok (write_msg_capped requests max_msg_len req) _ h in
      let (later, w2, h2) = >>=-eq-ok (send_all requests max_msg_len reqs') _ h1 in
      let all_sent : sent ≡ frame ++ later = cc h2 in
      let (reply, r, k1) =
        >>=-eq-ok (write_msg_capped responses max_msg_len (record { decision = d })) _ k in
      let (replies', r2, k2) = >>=-eq-ok (send_all responses max_msg_len rest') _ k1 in
      let all_replies : replies ≡ reply ++ replies' = cc k2 in
      let first = read_msg_capped-write_msg_capped requests max_msg_len req frame later back w in
      let fewer = read_msg-shrinks requests (frame ++ later) later req first in
      let served =
        serve_requests_in_order fuel s1 end_state reqs' rest' later replies' back more w2 r2
          (omega (arith, fewer, ap length all_sent)) in
      rw (all_sent, all_replies, first, e, r, b)
        (ap (before requests responses answer broken reply) served)
