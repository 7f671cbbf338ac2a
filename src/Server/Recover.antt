-- ===== src/Server/Recover.antt =====
-- `prompt_recovering`: what it answers, which link it keeps, and that it gives up after one retry.
use filewall.Prelude.{
  ◌+◌, ◌≤◌, true, false, Option, none, some, List, [], ◌∷◌, ok, err, ◌≡◌, ◌≢◌, arith, length,
}
use filewall.Proto.{Decision, PromptRequest}
use filewall.Proto.Frame.{ErrorKind, not_connected, Json}
use filewall.Server.{
  UiLink, Accept, client, UiServer, is_disconnect, try_accept, prompt, prompt_recovering,
}

module _ (json : Json PromptRequest) (req : PromptRequest) where
  -- After an error that means a dead connection no link is kept, so the next access takes another.
  pub dead_link_is_dropped :
      (s : UiServer) (ui : Option UiLink) (e : ErrorKind)
      → (prompt_recovering json s ui req).result ≡ err e
      → is_disconnect e ≡ true
      → (prompt_recovering json s ui req).ui ≡ none
  unfolding prompt_recovering
  dead_link_is_dropped s none e h d = ground arith
  dead_link_is_dropped s (some l) e h d = ground arith

  -- An error that is no disconnect, such as a timeout, is returned at once: the link is kept as the
  -- request left it, and nothing is accepted.
  pub timeout_keeps_link :
      (s : UiServer) (l l' : UiLink) (e : ErrorKind)
      → prompt json s.timeout_ms req l ≡ (err e, l')
      → is_disconnect e ≡ false
      → prompt_recovering json s (some l) req ≡ record { result = err e; ui = some l'; server = s }
  unfolding prompt_recovering
  timeout_keeps_link s l l' e h d = ground arith

  -- Where the held link has died, a window waits, the timeout is not zero and that window
  -- answers, it is asked within the same call: its answer is the result, its link is kept, and it
  -- is taken off the backlog.
  pub stale_link_recovers :
      (s : UiServer) (old old' new new' : UiLink) (rest : List Accept) (e : ErrorKind)
      (d : Decision)
      → s.timeout_ms ≢ 0
      → s.backlog ≡ client new ∷ rest
      → prompt json s.timeout_ms req old ≡ (err e, old')
      → is_disconnect e ≡ true
      → prompt json s.timeout_ms req new ≡ (ok d, new')
      → prompt_recovering json s (some old) req
        ≡ record { result = ok d; ui = some new'; server = record s { backlog = rest } }
  unfolding prompt_recovering try_accept
  stale_link_recovers s old old' new new' rest e d t b h dead h' = ground arith

  -- One call accepts at most twice, so a peer that comes and goes does not hold the daemon up.
  pub accepts_at_most_twice :
      (s : UiServer) (ui : Option UiLink)
      → length s.backlog ≤ length (prompt_recovering json s ui req).server.backlog + 2
  unfolding prompt_recovering try_accept
  accepts_at_most_twice s none = ground arith
  accepts_at_most_twice s (some l) = ground arith

  -- With no link held and no window waiting the answer is `not_connected`, and no link is kept.
  pub no_window_is_not_connected :
      (s : UiServer)
      → s.backlog ≡ []
      → prompt_recovering json s none req
        ≡ record { result = err not_connected; ui = none; server = s }
  unfolding prompt_recovering try_accept
  no_window_is_not_connected s h = ground arith
