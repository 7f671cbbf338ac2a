-- ===== src/Examples/Links.antt =====
-- Links to the prompt windows: one that is served, and a request over it that the user answers.
use filewall.Prelude.{
  ℕ, ◌+◌, Bool, true, false, Option, none, some, [], ◌∷◌, ◌++◌, take, drop, length, take-append,
  drop-append, ok, ◌≡◌, ◌∙◌, ap, refl, arith, if◌then◌else◌, ◌==◌,
}
use filewall.Proto.{
  Decision, allow_once, deny_once, allow_always, deny_always, allows, PromptRequest, PromptResponse,
}
use filewall.Proto.Frame.{Bytes, Json, ReadsBack, max_msg_len, write_msg_capped}
use filewall.Proto.RoundTrip.{send_all}
use filewall.Proto.Serve.{Answers, dropped, serve_requests}
use filewall.Proto.Serve.Order.{serve_requests_in_order}
use filewall.Examples.Windows.{request}
use filewall.Iced.{decides}
use filewall.Iced.Worker
use filewall.Iced.Worker.{Gui}

-- A flag as a number.

abbrev flag : Bool → ℕ
flag b = if b then 1 else 0

-- A form of requests in numbers.
abbrev pub written : PromptRequest → Bytes
written r =
    r.pid
    ∷ r.ui_timeout_ms
    ∷ flag r.always_tree
    ∷ flag r.always_cwd_pinned
    ∷ length r.exe
    ∷ length r.cmdline
    ∷ length r.cwd
    ∷ length r.path
    ∷ (r.exe ++ (r.cmdline ++ (r.cwd ++ (r.path ++ r.always_object))))

abbrev read_request : Bytes → Option PromptRequest
read_request (pid ∷ ms ∷ b ∷ c ∷ l1 ∷ l2 ∷ l3 ∷ l4 ∷ t) =
    let t2 = drop l1 t in
    let t3 = drop l2 t2 in
    let t4 = drop l3 t3 in
    some (record {
      pid = pid;
      exe = take l1 t;
      cmdline = take l2 t2;
      cwd = take l3 t3;
      path = take l4 t4;
      always_object = drop l4 t4;
      always_tree = b == 1;
      always_cwd_pinned = c == 1;
      ui_timeout_ms = ms;
    })
read_request _ = none

abbrev pub requests : Json PromptRequest
requests = record { to_vec = λ r. ok (written r); from_slice = read_request }

flag_back : (b : Bool) → (flag b == 1) ≡ b
flag_back true = refl
flag_back false = refl

pub requests-ReadsBack : ReadsBack requests
requests-ReadsBack r b h =
    let same : b ≡ written r = cc in
    rw
      (
        same,
        take-append r.exe _,
        drop-append r.exe _,
        take-append r.cmdline _,
        drop-append r.cmdline _,
        take-append r.cwd _,
        drop-append r.cwd _,
        take-append r.path _,
        drop-append r.path _,
        flag_back r.always_tree,
        flag_back r.always_cwd_pinned,
      )
      refl

abbrev code : Decision → ℕ
code allow_once = 0
code deny_once = 1
code allow_always = 2
code deny_always = 3

abbrev decoded : ℕ → Option PromptResponse
decoded n =
    if n == 0
    then some (record { decision = allow_once })
    else if n == 1
    then some (record { decision = deny_once })
    else if n == 2
    then some (record { decision = allow_always })
    else if n == 3
    then some (record { decision = deny_always })
    else none

abbrev read_response : Bytes → Option PromptResponse
read_response (n ∷ []) = decoded n
read_response _ = none

abbrev pub responses : Json PromptResponse
responses = record { to_vec = λ r. ok (code r.decision ∷ []); from_slice = read_response }

decoded-code : (d : Decision) → decoded (code d) ≡ some (record { decision = d })
decoded-code allow_once = refl
decoded-code deny_once = refl
decoded-code allow_always = refl
decoded-code deny_always = refl

pub responses-ReadsBack : ReadsBack responses
responses-ReadsBack r b h =
    let same : b ≡ code r.decision ∷ [] = cc in ap read_response same ∙ decoded-code r.decision

-- The user allows the first request and then refuses.
abbrev answer : ℕ → PromptRequest → Option Decision × ℕ
answer n req = (some (if n == 0 then allow_once else deny_always), n + 1)

abbrev never : ℕ → Bool
never n = false

abbrev frame : Bytes
frame = 0 ∷ 0 ∷ 0 ∷ length (written request) ∷ written request

both_answered :
    Answers requests responses answer never 0
      (request ∷ request ∷ [])
      (record { decision = allow_once } ∷ record { decision = deny_always } ∷ [])
      2
both_answered =
    Answers.next 0 1 2 request allow_once _ _ refl refl
      (Answers.next 1 2 2 request deny_always _ _ refl refl (Answers.done 2))

both_sent : send_all requests max_msg_len (request ∷ request ∷ []) ≡ ok (frame ++ (frame ++ []))
unfolding write_msg_capped
both_sent = refl

both_fit :
    send_all responses max_msg_len
      (record { decision = allow_once } ∷ record { decision = deny_always } ∷ [])
    ≡ ok (0 ∷ 0 ∷ 0 ∷ 1 ∷ 0 ∷ 0 ∷ 0 ∷ 0 ∷ 1 ∷ 3 ∷ [])
unfolding write_msg_capped
both_fit = refl

serve_requests_in_order_example :
    serve_requests requests responses answer never 100 0 (frame ++ (frame ++ []))
    ≡ record { end = dropped; written = 0 ∷ 0 ∷ 0 ∷ 1 ∷ 0 ∷ 0 ∷ 0 ∷ 0 ∷ 1 ∷ 3 ∷ []; state = 2 }
serve_requests_in_order_example =
    serve_requests_in_order requests responses answer never 100 0 2 (request ∷ request ∷ [])
      (record { decision = allow_once } ∷ record { decision = deny_always } ∷ [])
      (frame ++ (frame ++ [])) (0 ∷ 0 ∷ 0 ∷ 1 ∷ 0 ∷ 0 ∷ 0 ∷ 0 ∷ 1 ∷ 3 ∷ []) requests-ReadsBack
      both_answered both_sent both_fit (omega arith)

pub is_allow : allows allow_once ≡ true
unfolding allows
is_allow = refl

-- The window answers after 600 milliseconds.
abbrev pub gui : Gui
gui = record { windows = λ n. decides 600 allow_once; broken = λ n. false; fallback_ms = 90000 }

abbrev pub fresh : Worker.State
fresh = record { asked = 0; channel = deny_once ∷ [] }
