-- ===== src/Daemon/Loop.antt =====
-- One turn of `event_loop` of filewalld/src/main.rs: poll, new directories, the control socket, the
-- reading of events, a reload if one is due, and then the events.
pub mod Turn
use filewall.Config
use filewall.Config.{Config, ConfigError, ConfigKeys, Machine, build_policy}
use filewall.Daemon.{Event, Seen, Daemon, Setup, handle_all}
use filewall.Marks.{MarkSet, build_dump}
use filewall.Marks.All.{Fan, mark_all}
use filewall.Policy.{GlobLib, Policy}
use filewall.Prelude.{
  ℕ, Bool, false, ◌||◌, Option, none, some, List, [], ◌∷◌, ◌++◌, Text, Result, ok, err, ◌>>=◌,
  if◌then◌else◌,
}
use filewall.Proto.{DumpResponse}
use filewall.Proto.Frame.{ErrorKind}
use filewall.Rules.Disk.{load}
use filewall.TreeWatch
use filewall.TreeWatch.{TreeWatch, InotifyEvent, is_watching, on_ready}
use filewall.Walk.{Disk}

-- The machine around the daemon while one turn runs.
pub record World : Type 0 where
  pub globs : GlobLib
  pub machine : Machine
  pub parse : Text → Result Text ConfigKeys
  pub read_to_string : Text → Result ErrorKind Text
  pub config_path : Text
  pub disk : Disk
  pub fan : Fan
  pub add_watch : Text → Option ℕ
  pub inotify_init : Bool
  pub now_unix : ℕ

-- What `poll` reports: for each descriptor `none` where it is not ready, else what reading it gives.
-- `asked` says whether `filewallctl` waits on the control socket.
pub record Ready : Type 0 where
  pub inotify : Option (Option (List InotifyEvent))
  pub asked : Bool
  pub events : Option (Result ErrorKind (List (Event × Seen)))

pub data Poll : Type 0 where
  interrupted timed_out : Poll
  failed : ErrorKind → Poll
  ready : Ready → Poll

-- The variables of the loop; `reload` is `RELOAD`, and `dumps` the answers on the control socket.
pub record Loop : Type 0 where
  pub daemon : Daemon
  pub treewatch : TreeWatch
  pub marks : MarkSet
  pub reload : Bool
  pub dumps : List DumpResponse

module _ (c : Setup) (x : World) where
  noticed : Option (Option (List InotifyEvent)) → Loop → Loop
  unfolding on_ready
  noticed none l = l
  noticed (some evs) l =
      let ((t, marks), reload) =
        on_ready x.add_watch x.disk x.fan l.daemon.policy evs ((l.treewatch, l.marks), l.reload) in
      record l { treewatch = t; marks = marks; reload = reload }

  dump : Loop → DumpResponse
  unfolding build_dump
  dump l = record {
    pid = c.own_pid;
    generated_unix = x.now_unix;
    objects = build_dump l.marks (λ p. is_watching l.treewatch p);
  }

  told : Bool → Loop → Loop
  unfolding dump
  told asked l = if asked then record l { dumps = l.dumps ++ dump l ∷ [] } else l

  unfoldable pub read :
      Option (Result ErrorKind (List (Event × Seen))) → Result ErrorKind (List (Event × Seen))
  read none = ok []
  read (some r) = r

  -- The events to handle, once poll has returned.
  unfoldable pub polled : Poll → Loop → Result ErrorKind (List (Event × Seen) × Loop)
  unfolding noticed told read
  polled interrupted l = ok ([], l)
  polled timed_out l = ok ([], l)
  polled (failed e) l = err e
  polled (ready r) l = do
    let l' = told r.asked (noticed r.inotify l)
    events ← read r.events
    ok (events, l')

  -- `Config::load` and `build_policy`.
  unfoldable pub new_policy : Result ConfigError Policy
  new_policy = do
    cfg ← Config.load x.parse x.read_to_string x.config_path
    build_policy x.globs x.machine cfg

  reloaded : Result ConfigError Policy → Loop → Loop
  unfolding mark_all load
  reloaded (ok policy) l = record l {
    daemon = record l.daemon { policy = policy; rules = load c.toml l.daemon.files c.rules_path };
    marks = (mark_all x.disk x.fan policy l.marks).1;
    treewatch = TreeWatch.build x.add_watch x.disk x.inotify_init policy;
  }
  reloaded (err e) l = l

  -- `RELOAD.swap(false)`, and the reload where it was set.
  unfoldable pub maybe_reload : Loop → Loop
  unfolding reloaded new_policy
  maybe_reload l = if l.reload then reloaded new_policy (record l { reload = false }) else l

  -- `hup` says that a signal or the watcher's thread set `RELOAD` meanwhile.
  unfoldable pub turn : Poll → Bool → Loop → Result ErrorKind Loop
  unfolding polled maybe_reload
  turn poll hup l = do
    (events, l1) ← polled poll l
    let l2 = maybe_reload (record l1 { reload = l1.reload || hup })
    ok (record l2 { daemon = handle_all c events l2.daemon })
