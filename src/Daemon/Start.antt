-- ===== src/Daemon/Start.antt =====
-- `run` of filewalld/src/main.rs, up to the event loop. What the calls of the machine answer is in a
-- record: `none` for one that succeeds, else its error.
use filewall.Config
use filewall.Config.{Config, ConfigError, build_policy}
use filewall.Daemon.{Setup}
use filewall.Daemon.Loop.{World, Loop}
use filewall.Daemon.Pidfile.{write_pidfile}
use filewall.Daemon.Timeout.{ui_timeout_ms}
use filewall.Fanotify.Calls
use filewall.Marks
use filewall.Marks.All.{mark_all}
use filewall.Policy.{Policy}
use filewall.Prelude.{
  ℕ, ◌*◌, Bool, true, false, Option, none, some, List, [], Text, text, Result, ok, err, ◌>>=◌,
  map_err, >>=-eq-ok, ◌≡◌, ◌↔◌, refl,
}
use filewall.Proto.{PromptRequest}
use filewall.Proto.Frame.{ErrorKind, Json}
use filewall.Rules.Disk.{Toml, Files, Faults, load}
use filewall.Control
use filewall.Server
use filewall.Server.{Accept, BindCalls}
use filewall.TreeWatch
use filewall.Watcher.{Watcher, spawn_watcher}

-- `connections` are those that will come to the prompt socket.
pub record Boot : Type 0 where
  pub arg : Option Text
  pub world : World
  pub own_pid : ℕ
  pub json : Json PromptRequest
  pub toml : Toml
  pub files : Files
  pub watcher_inotify : Bool
  pub watcher_add : Text → Bool
  pub fanotify_init : ℕ → ℕ → Option ErrorKind
  pub pidfile_faults : Faults
  pub bind : BindCalls
  pub connections : List Accept
  pub control_bind : BindCalls

pub data StartError : Type 0 where
  bad_config : ConfigError → StartError
  no_fanotify no_socket : ErrorKind → StartError

pub record Started : Type 0 where
  pub setup : Setup
  pub world : World
  pub watcher : Option Watcher
  pub control : Bool
  pub loop : Loop

abbrev pub pidfile : Text
pidfile = text "/run/filewall/filewalld.pid"

abbrev or_default : Option Text → Text
or_default none = text "/etc/filewall/config.toml"
or_default (some path) = path

-- `?` on a call that gives nothing but its error.
called : (ErrorKind → StartError) → Option ErrorKind → Result StartError (Unit {0})
called wrap none = ok tt
called wrap (some e) = err (wrap e)

is_bound : Option ErrorKind → Bool
is_bound none = true
is_bound (some e) = false

-- The machine, with the path of the configuration.
abbrev pub world_of : Boot → World
world_of b = record b.world { config_path = or_default b.arg }

unfoldable pub started : Boot → Config → Policy → Started
unfolding ui_timeout_ms write_pidfile mark_all load spawn_watcher is_bound Control.bind
started b cfg policy =
    let x = world_of b in
    record {
      setup = record {
        own_pid = b.own_pid;
        ui_timeout_ms = ui_timeout_ms cfg.prompt_timeout_seconds;
        rules_path = cfg.rules_path;
        json = b.json;
        toml = b.toml;
      };
      world = x;
      watcher = spawn_watcher b.watcher_inotify b.watcher_add x.config_path cfg.rules_path;
      control = is_bound (Control.bind b.control_bind cfg.control_socket_path);
      loop = record {
        daemon = record {
          policy = policy;
          rules = load b.toml b.files cfg.rules_path;
          server = record {
            timeout_ms = cfg.prompt_timeout_seconds * 1000;
            backlog = b.connections;
          };
          ui = none;
          files = (write_pidfile b.pidfile_faults b.files pidfile b.own_pid).1;
          responses = [];
        };
        treewatch = TreeWatch.build x.add_watch x.disk x.inotify_init policy;
        marks = (mark_all x.disk x.fan policy Marks.new).1;
        reload = false;
        dumps = [];
      };
    }

-- The steps that can end the daemon, in their order.
unfoldable pub run : Boot → Result StartError Started
unfolding started called Server.bind Calls.init
run b = do
  let x = world_of b
  cfg ← map_err bad_config (Config.load x.parse x.read_to_string x.config_path)
  policy ← map_err bad_config (build_policy x.globs x.machine cfg)
  group ← called no_fanotify (Calls.init b.fanotify_init)
  socket ← called no_socket (Server.bind b.bind cfg.socket_path)
  ok (started b cfg policy)

map_err-ok :
    {E F A : Type 0} (wrap : E → F) (r : Result E A) {a : A} → map_err wrap r ≡ ok a → r ≡ ok a
map_err-ok wrap (ok a) h = cc
map_err-ok wrap (err e) h = cc

called-ok :
    (wrap : ErrorKind → StartError) (o : Option ErrorKind) {u : Unit {0}}
    → called wrap o ≡ ok u
    → o ≡ none
unfolding called
called-ok wrap none h = refl
called-ok wrap (some e) h = cc

-- The daemon starts just when its configuration can be loaded and built into a policy, the fanotify
-- group is there and the prompt socket can be bound: the watcher, the pidfile, the control socket, the
-- marks and inotify may all fail. It then has the policy, and every mark and watch that this asks for.
pub run_starts_iff :
    (b : Boot) (s : Started)
    → (run b ≡ ok s) ↔ (
        (cfg : Config) × (policy : Policy) × (Config.load b.world.parse b.world.read_to_string
            (world_of b).config_path
          ≡ ok cfg)
        × (build_policy b.world.globs b.world.machine cfg ≡ ok policy)
        × (Calls.init b.fanotify_init ≡ none)
        × (Server.bind b.bind cfg.socket_path ≡ none)
        × (s ≡ started b cfg policy))
unfolding run
run_starts_iff b s = (
  λ h.
      let (cfg, e, h1) = >>=-eq-ok (map_err bad_config _) _ h in
      let (policy, f, h2) = >>=-eq-ok (map_err bad_config _) _ h1 in
      let (u, g, h3) = >>=-eq-ok (called no_fanotify (Calls.init b.fanotify_init)) _ h2 in
      let (v, k, h4) = >>=-eq-ok (called no_socket (Server.bind b.bind cfg.socket_path)) _ h3 in
      (
        cfg,
        policy,
        map_err-ok bad_config _ e,
        map_err-ok bad_config _ f,
        called-ok no_fanotify _ g,
        called-ok no_socket _ k,
        cc h4,
      ),
  λ (cfg, policy, e, f, g, k, same). rw (e, f, g, k, same) refl,
)
