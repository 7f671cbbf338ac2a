-- ===== src/Server.antt =====
-- filewalld/src/server.rs: the prompt socket and the link to the window that answers prompts. What
-- the other side does is given in advance: what each `accept` finds, and what becomes of each
-- request that is sent on a link.
pub mod Recover
pub mod Late
use filewall.FilePath.{parent}
use filewall.Prelude.{
  Text, ℕ, ◌-◌, Bool, true, false, Option, none, some, List, [], ◌∷◌, ◌++◌, Result, ok, err, ltb,
  ◌==◌, if◌then◌else◌,
}
use filewall.Proto.{Decision, PromptRequest}
use filewall.Proto.Frame.{
  Bytes, ErrorKind, not_found, would_block, invalid_input, broken_pipe, unexpected_eof,
  connection_reset, connection_aborted, not_connected, Json, write_msg,
}

-- What happens on a link: so many milliseconds without a request; or, for one request, an answer so
-- many milliseconds after it, or a broken connection.
pub data Reply : Type 0 where
  idle : ℕ → Reply
  answers : ℕ → Decision → Reply
  fails : ErrorKind → Reply

-- A connected window. `buffered` holds the answers to requests that the daemon has given up waiting
-- for, in order, each with the milliseconds until it is there: nothing in the protocol tells whose
-- answer it is.
pub record UiLink : Type 0 where
  pub buffered : List (ℕ × Decision)
  pub replies : List Reply

pub data Accept : Type 0 where
  nobody : Accept
  client : UiLink → Accept
  broken : ErrorKind → Accept

pub record UiServer : Type 0 where
  pub timeout_ms : ℕ
  pub backlog : List Accept

-- Is the connection dead, so that the daemon should take another?
unfoldable pub is_disconnect : ErrorKind → Bool
is_disconnect broken_pipe = true
is_disconnect unexpected_eof = true
is_disconnect connection_reset = true
is_disconnect connection_aborted = true
is_disconnect not_connected = true
is_disconnect _ = false

-- `set_read_timeout` refuses a timeout of zero.
accepted : ℕ → Accept → Result ErrorKind (Option UiLink)
accepted t nobody = ok none
accepted t (client l) = if t == 0 then err invalid_input else ok (some l)
accepted t (broken e) = err e

take_accept : ℕ → List Accept → Result ErrorKind (Option UiLink) × List Accept
unfolding accepted
take_accept t [] = (ok none, [])
take_accept t (a ∷ rest) = (accepted t a, rest)

-- `UiServer::try_accept`, which does not wait.
unfoldable pub try_accept : UiServer → Result ErrorKind (Option UiLink) × UiServer
unfolding take_accept
try_accept s =
    let (r, rest) = take_accept s.timeout_ms s.backlog in (r, record s { backlog = rest })

-- So many milliseconds pass.
elapse : ℕ → List (ℕ × Decision) → List (ℕ × Decision)
elapse n [] = []
elapse n ((delay, d) ∷ later) = (delay - n, d) ∷ elapse n later

-- The read of `UiLink::prompt`: the daemon waits up to the timeout for the first answer on the stream,
-- whichever request it is for.
waited : ℕ → List (ℕ × Decision) → List Reply → Result ErrorKind Decision × UiLink
unfolding elapse
waited t [] replies = (err would_block, record { buffered = []; replies = replies })
waited t ((delay, d) ∷ later) replies =
    if ltb delay t
    then (ok d, record { buffered = elapse delay later; replies = replies })
    else (err would_block, record { buffered = elapse t ((delay, d) ∷ later); replies = replies })

receive : ℕ → List (ℕ × Decision) → List Reply → Result ErrorKind Decision × UiLink
unfolding waited elapse
receive t old [] = waited t old []
receive t old (idle n ∷ rest) = receive t (elapse n old) rest
receive t old (answers delay d ∷ rest) = waited t (old ++ (delay, d) ∷ []) rest
receive t old (fails e ∷ rest) = (err e, record { buffered = old; replies = rest })

-- The answer, the link that is kept, and the listener.
pub record Prompted : Type 0 where
  pub result : Result ErrorKind Decision
  pub ui : Option UiLink
  pub server : UiServer

module _ (json : Json PromptRequest) where
  sent : ℕ → Result ErrorKind Bytes → UiLink → Result ErrorKind Decision × UiLink
  unfolding receive
  sent t (ok frame) l = receive t l.buffered l.replies
  sent t (err e) l = (err e, l)

  -- `UiLink::prompt`.
  unfoldable pub prompt : ℕ → PromptRequest → UiLink → Result ErrorKind Decision × UiLink
  unfolding sent
  prompt t req l = sent t (write_msg json req) l

  -- The last step: ask the link at hand, if there is one.
  retry_answer : Result ErrorKind Decision × UiLink → UiServer → Prompted
  retry_answer (ok d, l) s = record { result = ok d; ui = some l; server = s }
  retry_answer (err e, l) s = record {
    result = err e;
    ui = if is_disconnect e then none else some l;
    server = s;
  }

  retry : PromptRequest → Result ErrorKind (Option UiLink) × UiServer → Prompted
  unfolding retry_answer
  retry req (ok (some l), s) = retry_answer (prompt s.timeout_ms req l) s
  retry req (ok none, s) = record { result = err not_connected; ui = none; server = s }
  retry req (err e, s) = record { result = err e; ui = none; server = s }

  -- The first attempt. A dead link is dropped and another waiting window asked instead.
  first_answer : PromptRequest → Result ErrorKind Decision × UiLink → UiServer → Prompted
  unfolding retry
  first_answer req (ok d, l) s = record { result = ok d; ui = some l; server = s }
  first_answer req (err e, l) s =
      if is_disconnect e
      then retry req (try_accept s)
      else record { result = err e; ui = some l; server = s }

  attempt : PromptRequest → Result ErrorKind (Option UiLink) × UiServer → Prompted
  unfolding first_answer
  attempt req (ok (some l), s) = first_answer req (prompt s.timeout_ms req l) s
  attempt req (ok none, s) = retry req (try_accept s)
  attempt req (err e, s) = record { result = err e; ui = none; server = s }

  held : Option UiLink → UiServer → Result ErrorKind (Option UiLink) × UiServer
  held none s = try_accept s
  held (some l) s = (ok (some l), s)

  -- `UiServer::prompt_recovering`.
  unfoldable pub prompt_recovering : UiServer → Option UiLink → PromptRequest → Prompted
  unfolding held attempt
  prompt_recovering s ui req = attempt req (held ui s)

-- What the calls of `bind` answer: `some e` where one fails.
pub record BindCalls : Type 0 where
  pub create_dir_all : Option ErrorKind
  pub remove_file : Option ErrorKind
  pub bind : Option ErrorKind
  pub set_permissions : Option ErrorKind

-- That there was no socket file to remove is no error.
removed : Option ErrorKind → Option ErrorKind
removed (some not_found) = none
removed o = o

made_dir : BindCalls → Text → Option ErrorKind
made_dir c path = elim (parent path) [ none ↦ none | some cs ↦ c.create_dir_all ]

first_error : List (Option ErrorKind) → Option ErrorKind
first_error [] = none
first_error (none ∷ rest) = first_error rest
first_error (some e ∷ rest) = some e

-- `UiServer::bind`: the error of the first call that fails.
unfoldable pub bind : BindCalls → Text → Option ErrorKind
unfolding removed made_dir first_error
bind c socket_path =
    first_error (made_dir c socket_path ∷ removed c.remove_file ∷ c.bind ∷ c.set_permissions ∷ [])
