-- ===== src/Examples/Turns.antt =====
-- Turns of the daemon's loop, and the buffer of events that it reads.
use filewall.Config
use filewall.Config.{Config, ConfigKeys, build_policy, from_str, with_defaults}
use filewall.Daemon.Life.{Turns, event_loop, daemon_answers_every_event}
use filewall.Daemon.Start.{Boot, run, started}
use filewall.Rules.Disk.{no_faults}
use filewall.Daemon.{Event, Seen}
use filewall.Daemon.Loop.{World, Poll, ready, Loop}
use filewall.Examples.Samples.{literal_globs, cat_event, cat_seen, ready_daemon, setup}
use filewall.Fanotify.{Memory, RawEvent, fd_is_minus_one, read_ready}
use filewall.Fanotify.Overflow.{overflow_event_panics}
use filewall.Fanotify.RoundTrip.{AllLaidOut, done, next, read_ready_returns_laid_out}
use filewall.Server
use filewall.Server.{BindCalls}
use filewall.FilePath.{parent, components_eq}
use filewall.Prelude.{
  ℕ, ◌-◌, ◌==◌, ◌*◌, true, false, none, some, List, [], ◌∷◌, ◌++◌, map, text, ◌≡◌, refl, arith, ok,
  err, if◌then◌else◌, length,
}
use filewall.Proto.Frame.{not_found}
use filewall.Examples.Coverage.{machine, disk, fan, add_watch, treewatch, marks}

abbrev world : World
world = record {
  globs = literal_globs;
  machine = machine;
  parse = λ t. err t;
  read_to_string = λ p. err not_found;
  config_path = text "/c";
  disk = disk;
  fan = fan;
  add_watch = add_watch;
  inotify_init = true;
  now_unix = 100;
}

abbrev pub loop : Loop
loop = record {
  daemon = ready_daemon;
  treewatch = treewatch;
  marks = marks;
  reload = true;
  dumps = [];
}

abbrev pub events : List (Event × Seen)
events = (cat_event, cat_seen) ∷ []

abbrev pub one_event : Poll
one_event = ready (record { inotify = none; asked = false; events = some (ok events) })

-- One event with pidfd 9, then one for a queue that has overflown.
abbrev bytes : List ℕ
bytes =
    32 ∷ 0 ∷ 0 ∷ 0 ∷ 3 ∷ 0 ∷ 24 ∷ 0 ∷ 0 ∷ 0 ∷ 1 ∷ 0 ∷ 0 ∷ 0 ∷ 0 ∷ 0 ∷ 7 ∷ 0 ∷ 0 ∷ 0 ∷ 42 ∷ 0 ∷ 0 ∷ 0
    ∷ 4 ∷ 0 ∷ 8 ∷ 0 ∷ 9 ∷ 0 ∷ 0 ∷ 0 ∷ 24 ∷ 0 ∷ 0 ∷ 0 ∷ 3 ∷ 0 ∷ 24 ∷ 0 ∷ 0 ∷ 64 ∷ 0 ∷ 0 ∷ 0 ∷ 0 ∷ 0
    ∷ 0 ∷ 255 ∷ 255 ∷ 255 ∷ 255 ∷ 0 ∷ 0 ∷ 0 ∷ 0 ∷ []

abbrev nth : List ℕ → ℕ → ℕ
nth [] i = 0
nth (b ∷ bs) i = let rest = nth bs (i - 1) in if i == 0 then b else rest

abbrev memory : Memory
memory = nth bytes

abbrev first_event : RawEvent
first_event = record { mask = 65536; pid = 42; file_fd = 7; pidfd = some 9 }

first_laid_out : AllLaidOut memory 0 (first_event ∷ [])
first_laid_out =
    next
      (record {
        event_len = refl;
        metadata_len = refl;
        mask = refl;
        fd = refl;
        fd_valid = omega arith;
        pid = refl;
        info_type = refl;
        info_len = refl;
        pidfd = (refl, omega arith);
      })
      done

read_ready_returns_laid_out_example :
    read_ready memory (ok (length (first_event ∷ []) * 32)) ≡ ok (first_event ∷ [])
read_ready_returns_laid_out_example =
    read_ready_returns_laid_out memory (first_event ∷ []) first_laid_out

overflow_event_panics_example : read_ready memory (ok 56) ≡ err fd_is_minus_one
overflow_event_panics_example =
    overflow_event_panics memory (first_event ∷ []) 56 first_laid_out (omega arith) (omega arith)
      refl

-- A machine whose configuration file is empty.
abbrev pub empty_config : ConfigKeys
empty_config = record {
  default_action = none;
  prompt_timeout_seconds = none;
  socket_path = none;
  control_socket_path = none;
  rules_path = none;
  watch = none;
}

abbrev binds : BindCalls
binds = record { create_dir_all = none; remove_file = none; bind = none; set_permissions = none }

abbrev pub boot : Boot
boot = record {
  arg = none;
  world = record world { parse = λ t. ok empty_config; read_to_string = λ p. ok [] };
  own_pid = 1;
  json = setup.json;
  toml = setup.toml;
  files = λ p. none;
  watcher_inotify = false;
  watcher_add = λ d. false;
  fanotify_init = λ flags event_f_flags. none;
  pidfile_faults = no_faults;
  bind = record binds { remove_file = some not_found };
  connections = [];
  control_bind = record binds { bind = some not_found };
}

abbrev default_config : Config
default_config = with_defaults empty_config

started_up : run boot ≡ ok (started boot default_config (record { watches = [] }))
unfolding run Config.load Server.bind from_str build_policy with_defaults parent components_eq
started_up = refl

abbrev turns : Turns
turns = (world, one_event, false) ∷ (world, Poll.timed_out, true) ∷ (world, one_event, false) ∷ []

daemon_answers_every_event_example :
    let s = started boot default_config (record { watches = [] }) in
    (l : Loop) × (event_loop s.setup turns s.loop ≡ ok l)
    × (map (λ r. r.fd) l.daemon.responses ≡ map (λ e. e.0.fd) (events ++ events))
daemon_answers_every_event_example =
    daemon_answers_every_event boot (started boot default_config (record { watches = [] })) turns
      (events ++ events) started_up refl
