-- ===== src/Proto/Serve.antt =====
-- The loop by which a prompt window serves one connection: `serve` of filewall-ui/src/main.rs and of
-- filewall-ui-iced/src/worker.rs. How a request is answered is the parameter `answer`, on a state
-- of the window; `broken` says whether the write that follows fails.
pub mod Order
pub mod Exchange
pub mod Reconnect
use filewall.Prelude.{
  ℕ, zero, suc, ◌≡◌, Bool, false, Option, none, some, List, [], ◌∷◌, ◌++◌, Result, ok, err,
  if◌then◌else◌,
}
use filewall.Proto.{Decision, PromptRequest, PromptResponse}
use filewall.Proto.Frame.{Bytes, ErrorKind, Json, read_msg, write_msg}

-- Why the loop ends: the link is gone, or the window is.
pub data End : Type 0 where
  dropped gone out_of_fuel : End

pub record Served (S : Type 0) : Type 0 where
  pub end : End
  pub written : Bytes
  pub state : S

module _ {S : Type 0} (requests : Json PromptRequest) (responses : Json PromptResponse)
    (answer : S → PromptRequest → Option Decision × S) (broken : S → Bool) where
  -- The frame, and what the rest of the loop writes.
  before : Bytes → Served S → Served S
  before frame r = record r { written = frame ++ r.written }

  delivered : Result ErrorKind Bytes → S → Served S → Served S
  unfolding before
  delivered (err e) s rest = record { end = dropped; written = []; state = s }
  delivered (ok frame) s rest =
      if broken s then record { end = dropped; written = []; state = s } else before frame rest

  answered : Option Decision × S → (S → Served S) → Served S
  unfolding delivered
  answered (none, s) rest = record { end = gone; written = []; state = s }
  answered (some d, s) rest = delivered (write_msg responses (record { decision = d })) s (rest s)

  on_read : Result ErrorKind (PromptRequest × Bytes) → S → (S → Bytes → Served S) → Served S
  unfolding answered
  on_read (err e) s loop = record { end = dropped; written = []; state = s }
  on_read (ok (req, rest)) s loop = answered (answer s req) (λ s'. loop s' rest)

  -- The loop, on fuel that each request takes one of.
  unfoldable pub serve_requests : ℕ → S → Bytes → Served S
  unfolding on_read
  serve_requests zero s stream = record { end = out_of_fuel; written = []; state = s }
  serve_requests (suc fuel) s stream = on_read (read_msg requests stream) s (serve_requests fuel)

  -- Every request is answered, in turn and from the state that the one before has left.
  pub data Answers : S → List PromptRequest → List PromptResponse → S → Type 0 where
    done : (s : S) → Answers s [] [] s
    next :
        (s s1 s2 : S) (req : PromptRequest) (d : Decision) (reqs : List PromptRequest)
        (rest : List PromptResponse)
        → answer s req ≡ (some d, s1)
        → broken s1 ≡ false
        → Answers s1 reqs rest s2
        → Answers s (req ∷ reqs) (record { decision = d } ∷ rest) s2
