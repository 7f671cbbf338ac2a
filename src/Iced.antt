-- ===== src/Iced.antt =====
-- filewall-ui-iced/src/model.rs and worker.rs: the fields that the native window shows, and how its
-- worker gets an answer for a request. What the window does with a request is given in advance.
pub mod Answers
pub mod Theme
pub mod View
pub mod App
pub mod Worker
pub mod EndToEnd
use filewall.FilePath.{file_name}
use filewall.Prelude.{
  ℕ, ◌+◌, Bool, Option, none, some, List, [], ◌∷◌, ◌++◌, Text, text, length, take, ltb, leb, is_nil,
  if◌then◌else◌,
}
use filewall.Proto.{Decision, deny_once, PromptRequest}
use filewall.Ui.{abbrev_path, name_or}

pub data Scope : Type 0 where
  file tree : Scope

pub record PromptView : Type 0 where
  pub proc_name : Text
  pub path : Text
  pub exe : Text
  pub object : Text
  pub cwd : Text
  pub cmdline : Text
  pub pid : ℕ
  pub scope : Scope
  pub cwd_pinned : Bool

abbrev pub max_field : ℕ
max_field = 400

-- The text, cut after so many characters.
cap_at : ℕ → Text → Text
cap_at n s = if leb (length s) n then s else take n s ++ text "…"

unfoldable pub cap : Text → Text
unfolding cap_at
cap s = cap_at max_field s

-- `PromptView::build`; its `abbrev` is a copy of that of filewall-ui.
unfoldable pub build : PromptRequest → Text → PromptView
unfolding cap abbrev_path file_name
build req home = record {
  proc_name = cap (name_or (file_name req.exe) req.exe);
  path = cap (abbrev_path req.path home);
  exe = cap (abbrev_path req.exe home);
  object = cap (abbrev_path req.always_object home);
  cwd = cap (abbrev_path req.cwd home);
  cmdline = if is_nil req.cmdline then text "<unavailable>" else cap req.cmdline;
  pid = req.pid;
  scope = if req.always_tree then tree else file;
  cwd_pinned = req.always_cwd_pinned;
}

abbrev backstop_grace_ms : ℕ
backstop_grace_ms = 2000

-- What becomes of a request: the channel to the window is closed, or an answer comes so many
-- milliseconds later, or none does, or the window goes away before it answers.
pub data Window : Type 0 where
  closed silent leaves : Window
  decides : ℕ → Decision → Window

-- How long the worker waits.
unfoldable pub wait_ms : PromptRequest → ℕ → ℕ
wait_ms req fallback_ms =
    (if ltb 0 req.ui_timeout_ms then req.ui_timeout_ms else fallback_ms) + backstop_grace_ms

awaited : ℕ → Window → Option Decision × List Decision
awaited wait closed = (none, [])
awaited wait silent = (some deny_once, [])
awaited wait leaves = (none, [])
awaited wait (decides delay d) = if ltb delay wait then (some d, []) else (some deny_once, d ∷ [])

-- `resolve`, from the answers that are in the channel: they are drained first. What it leaves in
-- the channel is an answer that comes too late.
unfoldable pub resolve :
    PromptRequest → ℕ → Window → List Decision → Option Decision × List Decision
unfolding wait_ms awaited
resolve req fallback_ms window stale = awaited (wait_ms req fallback_ms) window
