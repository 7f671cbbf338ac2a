-- ===== src/Control.antt =====
-- filewalld/src/control.rs, and the other side of it, `fetch_dump` of filewallctl/src/main.rs: one
-- request and one answer on a connection. A connection is what the client has sent, and what was
-- written to it; a client that sends nothing more is as one that has closed.
pub mod Query
use filewall.Server
use filewall.Server.{BindCalls}
use filewall.Prelude.{Text, Option, [], Result, ok, err, ◌>>=◌}
use filewall.Proto.{ControlRequest, dump, DumpResponse}
use filewall.Proto.Frame.{
  Bytes, ErrorKind, Json, max_control_msg_len, write_msg_capped, read_msg_capped,
}

module _ (requests : Json ControlRequest) (answers : Json DumpResponse) where
  respond : ControlRequest → DumpResponse → Result ErrorKind Bytes
  respond dump response = write_msg_capped answers max_control_msg_len response

  -- `ControlServer::serve`: what is written to the client, or an error.
  unfoldable pub serve : DumpResponse → Bytes → Result ErrorKind Bytes
  unfolding respond
  serve response received = do
    (req, rest) ← read_msg_capped requests max_control_msg_len received
    respond req response

  written : Result ErrorKind Bytes → Bytes
  written (ok b) = b
  written (err e) = []

  -- `handle_ready`, from what `accept` gives: an error of the accept or of the connection is only
  -- logged, and so nothing but what is written comes of it.
  unfoldable pub handle_ready : Result ErrorKind Bytes → DumpResponse → Bytes
  unfolding serve written
  handle_ready (err e) response = []
  handle_ready (ok received) response = written (serve response received)

  received_dump : Result ErrorKind (DumpResponse × Bytes) → Result ErrorKind DumpResponse
  received_dump (ok (response, rest)) = ok response
  received_dump (err e) = err e

  -- `fetch_dump` on a connection whose other end makes the given answer of what it is sent.
  unfoldable pub fetch_dump : (Bytes → Bytes) → Result ErrorKind DumpResponse
  unfolding received_dump
  fetch_dump daemon = do
    frame ← write_msg_capped requests max_control_msg_len dump
    received_dump (read_msg_capped answers max_control_msg_len (daemon frame))

-- `ControlServer::bind`, which makes the same calls as `UiServer::bind`.
unfoldable pub bind : BindCalls → Text → Option ErrorKind
unfolding Server.bind
bind c socket_path = Server.bind c socket_path
