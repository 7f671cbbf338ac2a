-- ===== src/Tests/Server.antt =====
-- The tests of filewalld/src/server.rs. What the windows of a test do is given in advance.
use filewall.Examples.Links.{requests}
use filewall.Prelude.{
  ℕ, true, false, Option, none, some, List, [], ◌∷◌, text, Result, ok, err, ◌≡◌, refl,
}
use filewall.Proto.{PromptRequest, Decision, allow_once, deny_once}
use filewall.Proto.Frame.{
  ErrorKind, would_block, timed_out, broken_pipe, unexpected_eof, connection_reset,
  connection_aborted, not_connected, write_msg, write_msg_capped,
}
use filewall.Server.{
  Reply, answers, fails, UiLink, client, UiServer, is_disconnect, try_accept, prompt,
  prompt_recovering,
}

abbrev sample_req : PromptRequest
sample_req = record {
  pid = 4321;
  exe = text "/usr/bin/node";
  cmdline = text "node evil.js";
  cwd = text "/home/user/projects/foo";
  path = text "/home/user/.ssh/id_ed25519";
  always_object = text "/home/user/.ssh";
  always_tree = true;
  always_cwd_pinned = false;
  ui_timeout_ms = 25000;
}

abbrev window : List Reply → UiLink
window replies = record { buffered = []; replies = replies }

-- A server to which these windows connect, one after another.
abbrev server : List UiLink → UiServer
server [] = record { timeout_ms = 5000; backlog = [] }
server (l ∷ ls) = record { timeout_ms = 5000; backlog = client l ∷ (server ls).backlog }

-- A window is accepted and asked.
abbrev accepted_answer : Result ErrorKind (Option UiLink) → ℕ → Option (Result ErrorKind Decision)
accepted_answer (ok (some l)) timeout_ms = some (prompt requests timeout_ms sample_req l).0
accepted_answer _ timeout_ms = none

abbrev ask_first : UiServer → Option (Result ErrorKind Decision)
ask_first s = accepted_answer (try_accept s).0 s.timeout_ms

abbrev PromptRoundtripReturnsUserDecision : Type 0
PromptRoundtripReturnsUserDecision =
    ask_first (server (window (answers 10 allow_once ∷ []) ∷ [])) ≡ some (ok allow_once)

prompt_roundtrip_returns_user_decision : PromptRoundtripReturnsUserDecision
unfolding is_disconnect try_accept prompt prompt_recovering write_msg write_msg_capped
prompt_roundtrip_returns_user_decision = refl

abbrev PromptTimesOutWhenUiSilent : Type 0
PromptTimesOutWhenUiSilent =
    ask_first (record { timeout_ms = 300; backlog = client (window []) ∷ [] })
    ≡ some (err would_block)

prompt_times_out_when_ui_silent : PromptTimesOutWhenUiSilent
unfolding is_disconnect try_accept prompt prompt_recovering write_msg write_msg_capped
prompt_times_out_when_ui_silent = refl

abbrev PromptErrorsWhenUiDisconnects : Type 0
PromptErrorsWhenUiDisconnects =
    (ask_first (server (window (fails broken_pipe ∷ []) ∷ [])) ≡ some (err broken_pipe))
    × (ask_first (server (window (fails unexpected_eof ∷ []) ∷ [])) ≡ some (err unexpected_eof))

prompt_errors_when_ui_disconnects : PromptErrorsWhenUiDisconnects
unfolding is_disconnect try_accept prompt prompt_recovering write_msg write_msg_capped
prompt_errors_when_ui_disconnects = (refl, refl)

abbrev IsDisconnectClassifiesKinds : Type 0
IsDisconnectClassifiesKinds =
    (is_disconnect broken_pipe ≡ true)
    × (is_disconnect unexpected_eof ≡ true)
    × (is_disconnect connection_reset ≡ true)
    × (is_disconnect connection_aborted ≡ true)
    × (is_disconnect not_connected ≡ true)
    × (is_disconnect would_block ≡ false)
    × (is_disconnect timed_out ≡ false)

is_disconnect_classifies_kinds : IsDisconnectClassifiesKinds
unfolding is_disconnect
is_disconnect_classifies_kinds = (refl, refl, refl, refl, refl, refl, refl)

abbrev TryAcceptNoneWhenNoClient : Type 0
TryAcceptNoneWhenNoClient = (try_accept (server [])).0 ≡ ok none

try_accept_none_when_no_client : TryAcceptNoneWhenNoClient
unfolding try_accept
try_accept_none_when_no_client = refl

abbrev TryAcceptPicksUpWaitingClient : Type 0
TryAcceptPicksUpWaitingClient =
    ask_first (server (window (answers 10 deny_once ∷ []) ∷ [])) ≡ some (ok deny_once)

try_accept_picks_up_waiting_client : TryAcceptPicksUpWaitingClient
unfolding is_disconnect try_accept prompt prompt_recovering write_msg write_msg_capped
try_accept_picks_up_waiting_client = refl

abbrev PromptRecoveringPicksUpNewUiAfterStaleLink : Type 0
PromptRecoveringPicksUpNewUiAfterStaleLink =
    let p =
      prompt_recovering requests (server (window (answers 10 allow_once ∷ []) ∷ []))
        (some (window (fails broken_pipe ∷ []))) sample_req in
    (p.result ≡ ok allow_once) × (p.ui ≡ some (window []))

prompt_recovering_picks_up_new_ui_after_stale_link : PromptRecoveringPicksUpNewUiAfterStaleLink
unfolding is_disconnect try_accept prompt prompt_recovering write_msg write_msg_capped
prompt_recovering_picks_up_new_ui_after_stale_link = (refl, refl)

abbrev ReconnectAfterDisconnect : Type 0
ReconnectAfterDisconnect =
    let s =
      server (window (fails unexpected_eof ∷ []) ∷ window (answers 10 allow_once ∷ []) ∷ []) in
    (ask_first s ≡ some (err unexpected_eof))
    × (is_disconnect unexpected_eof ≡ true)
    × (ask_first (try_accept s).1 ≡ some (ok allow_once))

reconnect_after_disconnect : ReconnectAfterDisconnect
unfolding is_disconnect try_accept prompt prompt_recovering write_msg write_msg_capped
reconnect_after_disconnect = (refl, refl, refl)
