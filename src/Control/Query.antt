-- ===== src/Control/Query.antt =====
-- A query of `filewallctl` gets the daemon's answer.
use mathlib.Core.List.{append-nil}
use filewall.Control.{respond, serve, written, handle_ready, received_dump, fetch_dump}
use filewall.Prelude.{[], ok, ◌≡◌, refl, subst}
use filewall.Proto.{ControlRequest, dump, DumpResponse}
use filewall.Proto.Frame.{
  Bytes, Json, ReadsBack, max_control_msg_len, write_msg_capped, read_msg_capped,
}
use filewall.Proto.RoundTrip.{read_msg_capped-write_msg_capped}

module _ (requests : Json ControlRequest) (answers : Json DumpResponse) where
  whole_frame :
      {T : Type 0} (json : Json T) (msg : T) (frame : Bytes)
      → ReadsBack json
      → write_msg_capped json max_control_msg_len msg ≡ ok frame
      → read_msg_capped json max_control_msg_len frame ≡ ok (msg, [])
  whole_frame json msg frame back h =
      subst (λ f. read_msg_capped json max_control_msg_len f ≡ ok (msg, [])) (append-nil frame)
        (read_msg_capped-write_msg_capped json max_control_msg_len msg frame [] back h)

  -- Where the request and the answer fit into their frames and both JSON forms read back,
  -- `filewallctl` gets the very snapshot that the daemon has made.
  pub fetch_dump-handle_ready :
      (response : DumpResponse) (ask answer : Bytes)
      → ReadsBack requests
      → ReadsBack answers
      → write_msg_capped requests max_control_msg_len dump ≡ ok ask
      → write_msg_capped answers max_control_msg_len response ≡ ok answer
      → fetch_dump requests answers (λ sent. handle_ready requests answers (ok sent) response)
        ≡ ok response
  unfolding fetch_dump handle_ready serve respond written received_dump
  fetch_dump-handle_ready response ask answer back back' h k =
      rw (h, whole_frame requests dump ask back h, k, whole_frame answers response answer back' k)
        refl
