-- ===== src/Examples/Transport.antt =====
-- Messages and the window that answers prompts.
use filewall.Examples.Samples.{short_json}
use filewall.Prelude.{
  ◌⊎◌, ◌+◌, ◌<◌, ◌↔◌, Result, List, true, Option, none, some, [], ◌∷◌, ◌++◌, ◌≡◌, refl, arith, ok,
  err, text,
}
use filewall.Control.{handle_ready, fetch_dump}
use filewall.Control.Query.{fetch_dump-handle_ready}
use filewall.Proto.{
  Decision, PromptRequest, allow_once, deny_once, allow_always, ControlRequest, dump, DumpResponse,
  WatchedObject,
}
use filewall.Proto.Frame.{
  max_control_msg_len, Bytes, ErrorKind, invalid_data, Json, ReadsBack, broken_pipe, would_block,
  write_msg, write_msg_capped, to_be_bytes,
}
use filewall.Proto.RoundTrip.{send_all, receive, receive-send_all}
use filewall.Server.{
  idle, answers, fails, UiLink, client, UiServer, is_disconnect, prompt, prompt_recovering,
}
use filewall.Server.Late.{
  oks, outstanding, prompt_all, answers_in_order, late_answer_decides_the_next,
}
use filewall.Server.Recover.{stale_link_recovers}
use filewall.Ui.{build_dialog_text}
use filewall.Ui.Dialog.{angles, dialog_markup_is_fixed}

-- Messages that are their own form.
abbrev bytes_json : Json Bytes
bytes_json = record { to_vec = λ b. ok b; from_slice = λ b. some b }

bytes_json-ReadsBack : ReadsBack bytes_json
bytes_json-ReadsBack v b h = let e : v ≡ b = cc in rw e refl

abbrev frame : Bytes
frame = 0 ∷ 0 ∷ 0 ∷ 2 ∷ 8 ∷ 9 ∷ []

two_sent : send_all bytes_json 64 ((8 ∷ 9 ∷ []) ∷ (8 ∷ 9 ∷ []) ∷ []) ≡ ok (frame ++ (frame ++ []))
unfolding write_msg_capped to_be_bytes
two_sent = refl

receive-send_all_example :
    receive bytes_json 64 2 ((frame ++ (frame ++ [])) ++ 1 ∷ [])
    ≡ ok ((8 ∷ 9 ∷ []) ∷ (8 ∷ 9 ∷ []) ∷ [], 1 ∷ [])
receive-send_all_example =
    receive-send_all bytes_json 64 ((8 ∷ 9 ∷ []) ∷ (8 ∷ 9 ∷ []) ∷ []) (frame ++ (frame ++ []))
      (1 ∷ []) bytes_json-ReadsBack two_sent

abbrev request : PromptRequest
request = record {
  pid = 42;
  exe = text "/usr/bin/<b>cat";
  cmdline = text "cat";
  cwd = text "/tmp";
  path = text "/home/u/.ssh/id";
  always_object = text "/home/u/.ssh";
  always_tree = true;
  always_cwd_pinned = true;
  ui_timeout_ms = 25000;
}

abbrev dead : UiLink
dead = record { buffered = []; replies = fails broken_pipe ∷ [] }

abbrev slow : UiLink
slow = record {
  buffered = [];
  replies = answers 40000 allow_always ∷ idle 2000 ∷ answers 5 deny_once ∷ [];
}

abbrev new_window : UiLink
new_window = record { buffered = []; replies = answers 5 allow_once ∷ [] }

abbrev waiting : UiServer
waiting = record { timeout_ms = 30000; backlog = client new_window ∷ [] }

abbrev emptied : UiLink
emptied = record { buffered = []; replies = [] }

dead_fails : prompt short_json 30000 request dead ≡ (err broken_pipe, emptied)
unfolding prompt write_msg write_msg_capped
dead_fails = refl

new_answers : prompt short_json 30000 request new_window ≡ (ok allow_once, emptied)
unfolding prompt write_msg write_msg_capped
new_answers = refl

is_dead : is_disconnect broken_pipe ≡ true
unfolding is_disconnect
is_dead = refl

stale_link_recovers_example :
    prompt_recovering short_json waiting (some dead) request
    ≡ record { result = ok allow_once; ui = some emptied; server = record waiting { backlog = [] } }
stale_link_recovers_example =
    stale_link_recovers short_json request waiting dead emptied new_window emptied [] broken_pipe
      allow_once (omega arith) refl dead_fails is_dead new_answers

fits : write_msg short_json request ≡ ok (0 ∷ 0 ∷ 0 ∷ 1 ∷ 1 ∷ [])
unfolding write_msg write_msg_capped to_be_bytes
fits = refl

late_answer_decides_the_next_example :
    let (refused, l1) = prompt short_json 30000 request slow in
    (refused ≡ err would_block)
    × (((prompt short_json 30000 request l1).0 ≡ ok allow_always) ↔ (40000 < 30000 + 2000 + 30000))
    × ((reqs : List PromptRequest)
        → let answered = oks (prompt_all short_json 30000 reqs l1).0 in
          (answered ≡ []) ⊎ ((later : List Decision) × (answered ≡ allow_always ∷ later)))
late_answer_decides_the_next_example =
    late_answer_decides_the_next short_json 30000 request request (0 ∷ 0 ∷ 0 ∷ 1 ∷ 1 ∷ [])
      (0 ∷ 0 ∷ 0 ∷ 1 ∷ 1 ∷ []) 40000 2000 5 allow_always deny_once [] slow fits fits refl
      (omega arith) (omega arith)

answers_in_order_example :
    let (results, l') = prompt_all short_json 30000 (request ∷ request ∷ []) slow in
    oks results ++ outstanding l' ≡ outstanding slow
answers_in_order_example = answers_in_order short_json 30000 (request ∷ request ∷ []) slow

dialog_markup_is_fixed_example :
    angles (build_dialog_text request (text "/home/u"))
    ≡ text "<><><>" ++ (text "<>" ++ (text "<><><><><><>" ++ text "<><>"))
dialog_markup_is_fixed_example = dialog_markup_is_fixed request (text "/home/u")

-- One byte for the request, and a form of dumps that is right for one of them.
abbrev dump_request : Json ControlRequest
dump_request = record { to_vec = λ r. ok (1 ∷ []); from_slice = λ b. some dump }

abbrev response : DumpResponse
response = record { pid = 7; generated_unix = 100; objects = [] }

abbrev pair_form : DumpResponse → List WatchedObject → Result ErrorKind Bytes
pair_form r [] = ok (r.pid ∷ r.generated_unix ∷ [])
pair_form r (o ∷ os) = err invalid_data

abbrev pair_of : Bytes → Option DumpResponse
pair_of (p ∷ g ∷ []) = some (record { pid = p; generated_unix = g; objects = [] })
pair_of _ = none

abbrev empty_dumps : Json DumpResponse
empty_dumps = record { to_vec = λ r. pair_form r r.objects; from_slice = pair_of }

dump_request-ReadsBack : ReadsBack dump_request
dump_request-ReadsBack dump b h = refl

pair_back :
    (r : DumpResponse) (os : List WatchedObject) (b : Bytes)
    → r.objects ≡ os
    → pair_form r os ≡ ok b
    → pair_of b ≡ some r
pair_back r [] b e h = let same : b ≡ r.pid ∷ r.generated_unix ∷ [] = cc in rw (same, ← e) refl
pair_back r (o ∷ os) b e h = cc

empty_dumps-ReadsBack : ReadsBack empty_dumps
empty_dumps-ReadsBack r b h = pair_back r r.objects b refl h

asked : write_msg_capped dump_request max_control_msg_len dump ≡ ok (0 ∷ 0 ∷ 0 ∷ 1 ∷ 1 ∷ [])
unfolding write_msg_capped to_be_bytes
asked = refl

answered :
    write_msg_capped empty_dumps max_control_msg_len response ≡ ok (0 ∷ 0 ∷ 0 ∷ 2 ∷ 7 ∷ 100 ∷ [])
unfolding write_msg_capped to_be_bytes
answered = refl

fetch_dump-handle_ready_example :
    fetch_dump dump_request empty_dumps
      (λ sent. handle_ready dump_request empty_dumps (ok sent) response)
    ≡ ok response
fetch_dump-handle_ready_example =
    fetch_dump-handle_ready dump_request empty_dumps response (0 ∷ 0 ∷ 0 ∷ 1 ∷ 1 ∷ [])
      (0 ∷ 0 ∷ 0 ∷ 2 ∷ 7 ∷ 100 ∷ []) dump_request-ReadsBack empty_dumps-ReadsBack asked answered
