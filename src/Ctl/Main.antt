-- ===== src/Ctl/Main.antt =====
-- filewallctl/src/main.rs: `list`, `dump`, `reload`, `status` and the dispatch on the arguments. JSON
-- and YAML are the parameter `Emit`; what connecting to the daemon's socket gives is an argument.
pub mod Effects
pub mod Requests
use filewall.Control.{fetch_dump}
use filewall.Ctl.{
  Format, table, parse_format, ℤ, Errno, Line, sent_sighup, reload_failed, render_failed,
  usage_text, needs_ids, printed, error, ack, Ran, send_sighup, cmd_remove,
}
use filewall.Ctl.Status.{StatusReport, status_report}
use filewall.Ctl.Tables.{list_table, dump_table, status_text}
use filewall.Prelude.Decimal.{parse_unsigned}
use filewall.Prelude.{
  ℕ, Bool, true, false, Option, none, some, List, [], ◌∷◌, ◌++◌, Text, text, text_eq, Result, ok,
  err, ◌>>=◌, if◌then◌else◌,
}
use filewall.Proto.{ControlRequest, DumpResponse}
use filewall.Proto.Frame.{Bytes, ErrorKind, Json}
use filewall.Rules.{LearnedRule}
use filewall.Rules.Disk.{Toml, Files, Faults, Stamp, load}

-- `render::emit` for the kinds of values that are printed; `none` is an error of the crate.
pub record Emit : Type 0 where
  pub rules : Format → List LearnedRule → Option Text
  pub dump : Format → DumpResponse → Option Text
  pub status : Format → StatusReport → Option Text

-- A command that prints and changes nothing.
prints : Files → List Line → Bool → Ran
prints fs lines success = record { files = fs; signals = []; lines = lines; success = success }

-- `println!` of what was emitted, or the note that it could not be; the exit code where it could.
emitted : Files → Option Text → Bool → Ran
unfolding prints
emitted fs none code = prints fs (render_failed ∷ []) false
emitted fs (some s) code = prints fs (printed (s ++ text "\n") ∷ []) code

-- The values of a `u64`.
abbrev pub u64_space : ℕ
u64_space = 18446744073709551616

unfoldable pub parse_ids : List Text → Option (List ℕ)
unfolding parse_unsigned
parse_ids [] = some []
parse_ids (a ∷ rest) = elim (parse_unsigned u64_space a) [
  | none ↦ none
  | some id ↦ elim (parse_ids rest) [ none ↦ none | some ids ↦ some (id ∷ ids) ]
]

-- `args.get(1)`, or the default.
unfoldable pub second_or : List Text → Text → Text
second_or [] d = d
second_or (a ∷ rest) d = a

abbrev pub default_rules : Text
default_rules = text "/var/lib/filewall/rules.toml"

abbrev pub default_pidfile : Text
default_pidfile = text "/run/filewall/filewalld.pid"

abbrev pub default_control_socket : Text
default_control_socket = text "/run/filewall/control.sock"

-- The machine around a command: `connect` gives, for a socket, what the other end makes of what it is
-- sent.
pub record Machine : Type 0 where
  pub toml : Toml
  pub emit : Emit
  pub kill : ℤ → Result Errno (Unit {0})
  pub requests : Json ControlRequest
  pub responses : Json DumpResponse
  pub connect : Text → Result ErrorKind (Bytes → Bytes)
  pub stamp : Stamp
  pub faults : Faults

module _ (m : Machine) where
  list_rules : Format → List LearnedRule → Text → Files → Ran
  unfolding prints emitted list_table
  list_rules table [] path fs =
      prints fs (printed (text "No learned rules (" ++ (path ++ text ")\n")) ∷ []) true
  list_rules table (r ∷ rules) path fs = prints fs (printed (list_table (r ∷ rules) path) ∷ []) true
  list_rules format rules path fs = emitted fs (m.emit.rules format rules) true

  unfoldable pub cmd_list : Text → Format → Files → Ran
  unfolding list_rules
  cmd_list path format fs = list_rules format (load m.toml fs path).rules path fs

  reloaded : Format → Option ℤ → Files → Ran
  reloaded table (some pid) fs = record {
    files = fs;
    signals = pid ∷ [];
    lines = sent_sighup pid ∷ [];
    success = true;
  }
  reloaded format (some pid) fs = record {
    files = fs;
    signals = pid ∷ [];
    lines = ack true (some pid) [] [] ∷ [];
    success = true;
  }
  reloaded table none fs = prints fs (reload_failed ∷ []) false
  reloaded format none fs = prints fs (ack false none [] [] ∷ []) false

  unfoldable pub cmd_reload : Text → Format → Files → Ran
  unfolding reloaded prints
  cmd_reload pidfile format fs = reloaded format (send_sighup m.toml m.kill fs pidfile) fs

  report : Format → StatusReport → Files → Ran
  unfolding prints emitted status_text
  report table r fs = prints fs (printed (status_text r.state r.pid) ∷ []) r.running
  report format r fs = emitted fs (m.emit.status format r) r.running

  unfoldable pub cmd_status : Text → Format → Files → Ran
  unfolding report
  cmd_status pidfile format fs = report format (status_report m.kill fs pidfile) fs

  dumped : Format → Text → Result ErrorKind DumpResponse → Files → Ran
  unfolding prints emitted dump_table
  dumped table socket (ok resp) fs = prints fs (printed (dump_table resp) ∷ []) true
  dumped format socket (ok resp) fs = emitted fs (m.emit.dump format resp) true
  dumped format socket (err e) fs = prints fs (error socket ∷ []) false

  unfoldable pub cmd_dump : Text → Format → Files → Ran
  unfolding dumped
  cmd_dump socket format fs =
      dumped format socket (do daemon ← m.connect socket; fetch_dump m.requests m.responses daemon)
        fs

  usage : Files → List Line → Ran
  unfolding prints
  usage fs lines = prints fs (lines ++ usage_text ∷ []) false

  removal : Option (List ℕ) → Format → Files → Ran
  unfolding usage
  removal none format fs = usage fs (needs_ids ∷ [])
  removal (some []) format fs = usage fs (needs_ids ∷ [])
  removal (some (id ∷ ids)) format fs =
      cmd_remove m.toml m.kill (id ∷ ids) default_rules default_pidfile format m.stamp m.faults fs

  dispatch : List Text → Format → Files → Ran
  unfolding usage removal second_or text_eq
  dispatch [] format fs = usage fs []
  dispatch (command ∷ args) format fs =
      if text_eq command (text "dump")
      then cmd_dump (second_or args default_control_socket) format fs
      else if text_eq command (text "list")
      then cmd_list (second_or args default_rules) format fs
      else if text_eq command (text "remove")
      then removal (parse_ids args) format fs
      else if text_eq command (text "reload")
      then cmd_reload (second_or args default_pidfile) format fs
      else if text_eq command (text "status")
      then cmd_status (second_or args default_pidfile) format fs
      else usage fs []

  -- `main`: the format flag is taken out first, wherever it stands.
  unfoldable pub main : List Text → Files → Ran
  unfolding dispatch
  main raw fs = let (format, args) = parse_format raw in dispatch args format fs
