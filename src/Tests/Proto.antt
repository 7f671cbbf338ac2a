-- ===== src/Tests/Proto.antt =====
-- The tests of the framing and of `Decision` in filewall-proto/src/lib.rs, with the forms of messages of
-- Examples/Links. Those of the JSON texts are tests of a crate.
use filewall.Examples.Links.{requests, responses}
use filewall.Prelude.{◌+◌, true, false, some, [], ◌++◌, text, ok, err, ◌>>=◌, ◌≡◌, refl}
use filewall.Proto.{
  PromptRequest, PromptResponse, allow_once, deny_once, allow_always, deny_always, allows,
  ControlRequest,
}
use filewall.Proto.Frame.{
  unexpected_eof, invalid_data, Json, max_msg_len, max_control_msg_len, to_be_bytes, write_msg,
  read_msg, read_msg_capped, write_msg_capped, read_exact, from_be_bytes,
}

abbrev sample_request : PromptRequest
sample_request = record {
  pid = 84321;
  exe = text "/usr/bin/node";
  cmdline = text "node /home/user/evil.js";
  cwd = text "/home/user/projects/foo";
  path = text "/home/user/.ssh/id_ed25519";
  always_object = text "/home/user/.ssh";
  always_tree = true;
  always_cwd_pinned = false;
  ui_timeout_ms = 25000;
}

abbrev DecisionAllowsPredicate : Type 0
DecisionAllowsPredicate =
    (allows allow_once ≡ true)
    × (allows allow_always ≡ true)
    × (allows deny_once ≡ false)
    × (allows deny_always ≡ false)

decision_allows_predicate : DecisionAllowsPredicate
unfolding allows write_msg read_msg write_msg_capped read_msg_capped to_be_bytes from_be_bytes
    read_exact
decision_allows_predicate = (refl, refl, refl, refl)

abbrev FramingRoundtripRequest : Type 0
FramingRoundtripRequest =
    (do buf ← write_msg requests sample_request; read_msg requests buf) ≡ ok (sample_request, [])

framing_roundtrip_request : FramingRoundtripRequest
unfolding allows write_msg read_msg write_msg_capped read_msg_capped to_be_bytes from_be_bytes
    read_exact
framing_roundtrip_request = refl

abbrev FramingRoundtripResponse : Type 0
FramingRoundtripResponse =
    (do buf ← write_msg responses (record { decision = deny_once }); read_msg responses buf)
    ≡ ok (record { decision = deny_once }, [])

framing_roundtrip_response : FramingRoundtripResponse
unfolding allows write_msg read_msg write_msg_capped read_msg_capped to_be_bytes from_be_bytes
    read_exact
framing_roundtrip_response = refl

abbrev TwoMessagesBackToBack : Type 0
TwoMessagesBackToBack =
    (do
      first ← write_msg requests sample_request
      second ← write_msg responses (record { decision = allow_once })
      (ra, rest) ← read_msg requests (first ++ second)
      (rb, end) ← read_msg responses rest
      let both : PromptRequest × PromptResponse = (ra, rb)
      ok both)
    ≡ ok (sample_request, record { decision = allow_once })

two_messages_back_to_back : TwoMessagesBackToBack
unfolding allows write_msg read_msg write_msg_capped read_msg_capped to_be_bytes from_be_bytes
    read_exact
two_messages_back_to_back = refl

abbrev TruncatedStreamIsEof : Type 0
TruncatedStreamIsEof = read_msg responses (to_be_bytes 100 ++ text "{}") ≡ err unexpected_eof

truncated_stream_is_eof : TruncatedStreamIsEof
unfolding allows write_msg read_msg write_msg_capped read_msg_capped to_be_bytes from_be_bytes
    read_exact
truncated_stream_is_eof = refl

abbrev dump_request : Json ControlRequest
dump_request = record { to_vec = λ r. ok (text "dump"); from_slice = λ b. some ControlRequest.dump }

abbrev ControlRequestRoundtrip : Type 0
ControlRequestRoundtrip =
    (do buf ← write_msg dump_request ControlRequest.dump; read_msg dump_request buf)
    ≡ ok (ControlRequest.dump, [])

control_request_roundtrip : ControlRequestRoundtrip
unfolding allows write_msg read_msg write_msg_capped read_msg_capped to_be_bytes from_be_bytes
    read_exact
control_request_roundtrip = refl

abbrev CappedFramingRejectsPayloadOverItsOwnCap : Type 0
CappedFramingRejectsPayloadOverItsOwnCap =
    read_msg_capped responses max_control_msg_len (to_be_bytes (max_control_msg_len + 1))
    ≡ err invalid_data

capped_framing_rejects_payload_over_its_own_cap : CappedFramingRejectsPayloadOverItsOwnCap
unfolding allows write_msg read_msg write_msg_capped read_msg_capped to_be_bytes from_be_bytes
    read_exact
capped_framing_rejects_payload_over_its_own_cap = refl

abbrev OversizedLengthIsRejected : Type 0
OversizedLengthIsRejected = read_msg responses (to_be_bytes (max_msg_len + 1)) ≡ err invalid_data

oversized_length_is_rejected : OversizedLengthIsRejected
unfolding allows write_msg read_msg write_msg_capped read_msg_capped to_be_bytes from_be_bytes
    read_exact
oversized_length_is_rejected = refl
