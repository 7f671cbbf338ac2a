-- ===== src/Iced/Worker.antt =====
-- filewall-ui-iced/src/worker.rs: the loops of the worker, over the links that it gets in turn. What
-- the window does with each request, and which writes fail, is given by the request's number.
use filewall.Iced.{Window, resolve}
use filewall.Proto.Serve.Reconnect.{reconnecting, on_links, links, reconnecting-on_links}
use filewall.Ui.{name_or}
use filewall.Proto.Frame.{ErrorKind}
use filewall.Prelude.{
  true, false, Text, text, Result, ◌++◌, if◌then◌else◌, zero, ◌≡◌, arith, ℕ, ◌+◌, suc, Bool, Option,
  List, [], ◌∷◌, length,
}
use filewall.Proto.{Decision, PromptRequest, PromptResponse}
use filewall.Proto.Frame.{Bytes, Json}
use filewall.Proto.Serve.{Served, serve_requests}

-- The requests so far, and the answers that are still in the channel.
pub record State : Type 0 where
  pub asked : ℕ
  pub channel : List Decision

pub record Gui : Type 0 where
  pub windows : ℕ → Window
  pub broken : ℕ → Bool
  pub fallback_ms : ℕ

-- One call of `resolve`.
unfoldable pub answer : Gui → State → PromptRequest → Option Decision × State
unfolding resolve
answer g s req =
    let (d, left) = resolve req g.fallback_ms (g.windows s.asked) s.channel in
    (d, record { asked = s.asked + 1; channel = left })

module _ (requests : Json PromptRequest) (responses : Json PromptResponse) (g : Gui) where
  -- `serve` on one link, from what the daemon sends on it.
  unfoldable pub serve : State → Bytes → Served State
  unfolding answer
  serve s stream =
      serve_requests requests responses (answer g) (λ t. g.broken t.asked) (suc (length stream)) s
        stream

  -- `run_socket`, from what the attempts to connect give.
  unfoldable pub run_socket : State → List (Result ErrorKind Bytes) → List (Served State)
  unfolding serve reconnecting
  run_socket s attempts = reconnecting serve (suc (length attempts)) s attempts

  -- The links that come are served in turn, and the attempts that fail between them change nothing.
  pub run_socket-on_links :
      (s : State) (attempts : List (Result ErrorKind Bytes))
      → run_socket s attempts ≡ on_links serve s (links attempts)
  unfolding run_socket
  run_socket-on_links s attempts =
      reconnecting-on_links serve (suc (length attempts)) s attempts (omega arith)

-- `str::repeat`.
abbrev repeated : ℕ → Text → Text
repeated zero s = []
repeated (suc n) s = s ++ repeated n s

-- The requests of `--demo`.
unfoldable pub samples : Option Text → List PromptRequest
samples var =
    let home = name_or var (text "/home/demo") in
    record {
      pid = 4242;
      exe =
          home
          ++ text
              "/.local/share/toolchains/x86_64-unknown-linux-gnu/bin/very-long-helper-binary-name";
      cmdline =
          text "very-long-helper-binary-name --config="
          ++ home
          ++ text "/.config/app/"
          ++ repeated 30 (text "nested/")
          ++ text " "
          ++ repeated 25 (text "--flag=value ");
      cwd = home ++ text "/projects/foo";
      path =
          home
          ++ text "/.config/"
          ++ repeated 8 (text "deeply-nested-directory/")
          ++ text "credentials.json";
      always_object = home ++ text "/.config";
      always_tree = true;
      always_cwd_pinned = true;
      ui_timeout_ms = 60000;
    }
    ∷ record {
      pid = 84321;
      exe = text "/usr/bin/node";
      cmdline = text "node /home/demo/evil.js --steal --exfil";
      cwd = home ++ text "/projects/foo";
      path = home ++ text "/.ssh/id_ed25519";
      always_object = home ++ text "/.ssh";
      always_tree = true;
      always_cwd_pinned = false;
      ui_timeout_ms = 30000;
    }
    ∷ record {
      pid = 90210;
      exe = text "/usr/bin/cat";
      cmdline = text "cat /home/demo/.config/secret.toml";
      cwd = home ++ text "/work";
      path = home ++ text "/.config/secret.toml";
      always_object = home ++ text "/.config/secret.toml";
      always_tree = false;
      always_cwd_pinned = true;
      ui_timeout_ms = 30000;
    }
    ∷ []

-- The loop of `run_demo`, where `sends` says whether the channel takes the next request and the
-- answers are what comes back until the other channel is closed: what was sent, with the decisions
-- that are printed.
unfoldable pub demo_loop :
    (PromptRequest → Bool) → List PromptRequest → List Decision → List PromptRequest × List Decision
demo_loop sends [] answers = ([], [])
demo_loop sends (req ∷ reqs) [] = (if sends req then req ∷ [] else [], [])
demo_loop sends (req ∷ reqs) (d ∷ answers) =
    let (sent, printed) = demo_loop sends reqs answers in
    if sends req then (req ∷ sent, d ∷ printed) else ([], [])

unfoldable pub run_demo :
    Option Text → (PromptRequest → Bool) → List Decision → List PromptRequest × List Decision
unfolding samples demo_loop
run_demo home sends answers = demo_loop sends (samples home) answers
