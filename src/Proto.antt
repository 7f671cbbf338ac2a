-- ===== src/Proto.antt =====
-- filewall-proto/src/lib.rs: the messages between the daemon, the prompt windows and filewallctl.
-- The frames that carry them are in Proto/Frame.
pub mod Frame
pub mod RoundTrip
pub mod Serve
use filewall.Prelude.{ℕ, Bool, true, false, Option, List, Text}

pub record PromptRequest : Type 0 where
  pub pid : ℕ
  pub exe : Text
  pub cmdline : Text
  pub cwd : Text
  pub path : Text
  pub always_object : Text
  pub always_tree : Bool
  pub always_cwd_pinned : Bool
  pub ui_timeout_ms : ℕ

pub data Decision : Type 0 where
  allow_once deny_once allow_always deny_always : Decision

-- Whether the decision permits the access.
unfoldable pub allows : Decision → Bool
allows allow_once = true
allows allow_always = true
allows deny_once = false
allows deny_always = false

pub record PromptResponse : Type 0 where
  pub decision : Decision

pub data ObjKind : Type 0 where
  file dir : ObjKind

pub record WatchedObject : Type 0 where
  pub path : Text
  pub kind : ObjKind
  pub recursive : Bool
  pub watch : Text
  pub fanotify : Bool
  pub live_marked : Option Bool

pub data ControlRequest : Type 0 where
  dump : ControlRequest

pub record DumpResponse : Type 0 where
  pub pid : ℕ
  pub generated_unix : ℕ
  pub objects : List WatchedObject
