-- ===== src/Iced/View.antt =====
-- filewall-ui-iced/src/main.rs, `view` and `subscription`: what the window shows of a request, without
-- its layout, and the messages that what the user does gives.
pub mod Grants
use filewall.Iced.{PromptView, Scope, file, tree}
use filewall.Iced.App.{Pending, App, Message, decide, deny, tick}
use filewall.Prelude.Decimal.{decimal}
use filewall.Prelude.{
  ℕ, Bool, true, false, Option, none, some, List, [], ◌∷◌, ◌++◌, Text, text, get_elem?,
}
use filewall.Proto.{allow_once, allow_always, deny_always}

pub record View : Type 0 where
  pub header : Text
  pub scope : List Text
  pub details : List Text
  pub countdown : Text
  pub buttons : List (Text × Message)

-- `allow_always_label` and `deny_always_label` of model.rs.
unfoldable pub allow_always_label : Scope → Text
allow_always_label tree = text "Always allow ALL"
allow_always_label file = text "Always allow file"

unfoldable pub deny_always_label : Scope → Text
deny_always_label tree = text "Always deny ALL"
deny_always_label file = text "Always deny file"

-- The block on what "Always allow" covers.
unfoldable pub scope_lines : Scope → Text → List Text
scope_lines tree object =
    text "\"Always allow\" GRANTS ACCESS TO ALL FILES"
    ∷ (text "    under " ++ (object ++ text " — every subfolder, not just the requested file."))
    ∷ []
scope_lines file object =
    text "\"Always allow\" remembers only this one file:" ∷ (text "    " ++ object) ∷ []

cwd_lines : Bool → Text → List Text
cwd_lines true cwd = (text "…and only while it runs from " ++ cwd) ∷ []
cwd_lines false cwd = []

-- The part that scrolls.
details_of : PromptView → List Text
unfolding cwd_lines decimal
details_of v =
    (v.proc_name ++ text " wants to open:")
    ∷ v.path
    ∷ text "Rule is tied to this program:"
    ∷ (text "    " ++ v.exe)
    ∷ (cwd_lines v.cwd_pinned v.cwd
        ++ (text "PID " ++ (decimal v.pid ++ (text " · cmd: " ++ v.cmdline))) ∷ [])

unfoldable pub buttons_of : Scope → List (Text × Message)
unfolding allow_always_label deny_always_label
buttons_of scope =
    (text "Deny once", deny)
    ∷ (text "Allow once", decide allow_once)
    ∷ (deny_always_label scope, decide deny_always)
    ∷ (allow_always_label scope, decide allow_always)
    ∷ []

unfoldable pub view_of : Pending → View
unfolding details_of decimal
view_of p = record {
  header = text "filewall — sensitive file access";
  scope = scope_lines p.view.scope p.view.object;
  details = details_of p.view;
  countdown = text "auto-deny in " ++ (decimal p.remaining_s ++ text "s");
  buttons = buttons_of p.view.scope;
}

-- `view`: nothing is shown while no request is pending.
unfoldable pub view : Option Pending → Option View
unfolding view_of
view none = none
view (some p) = some (view_of p)

pub data Key : Type 0 where
  escape enter other_key : Key

-- What the user can do with a window: press the button of a number, close it, or press a key.
pub data Input : Type 0 where
  press : ℕ → Input
  close_requested : Input
  key : Key → Input

pressed : Option (Text × Message) → Option Message
pressed none = none
pressed (some (label, m)) = some m

buttons_in : Option View → List (Text × Message)
buttons_in none = []
buttons_in (some v) = v.buttons

-- The messages of the buttons, and of `listen_with`.
unfoldable pub message_of : Option View → Input → Option Message
unfolding pressed buttons_in
message_of v (press n) = pressed (get_elem? (buttons_in v) n)
message_of v close_requested = some deny
message_of v (key escape) = some deny
message_of v (key enter) = some deny
message_of v (key other_key) = none

-- The clock of `subscription` runs while a request is pending.
unfoldable pub ticks : App → Option Message
ticks a = elim a.pending [ none ↦ none | some p ↦ some tick ]
