-- ===== src/Ui.antt =====
-- filewall-ui/src/main.rs: the window that asks by way of `yad`. The dialog's text is Pango markup.
-- What `yad` answers is an argument: its exit code, `none` where it was killed or did not start.
pub mod Escape
pub mod Dialog
use filewall.FilePath.{file_name}
use filewall.Prelude.Decimal.{decimal}
use filewall.Prelude.{
  ℕ, suc, ◌+◌, length, Bool, true, false, Option, none, some, List, [], ◌∷◌, ◌++◌, Text, text,
  text_eq, is_nil, ◌==◌, Result, if◌then◌else◌,
}
use filewall.Proto.{
  Decision, allow_once, deny_once, allow_always, deny_always, PromptRequest, PromptResponse,
}
use filewall.Proto.Frame.{Bytes, ErrorKind, Json}
use filewall.Proto.Serve.Reconnect.{reconnecting}
use filewall.Proto.Serve.{Served, serve_requests}

-- `str::replace` of one character.
unfoldable pub replace : ℕ → Text → Text → Text
replace c by [] = []
replace c by (a ∷ s) = (if a == c then by else a ∷ []) ++ replace c by s

unfoldable pub pango_escape : Text → Text
unfolding replace
pango_escape s =
    replace b'>' (text "&gt;") (replace b'<' (text "&lt;") (replace b'&' (text "&amp;") s))

-- `str::strip_prefix`.
unfoldable pub strip_str : Text → Text → Option Text
strip_str [] s = some s
strip_str (p ∷ ps) [] = none
strip_str (p ∷ ps) (c ∷ s) = let rest = strip_str ps s in if p == c then rest else none

slash_first : Text → Bool
slash_first [] = false
slash_first (c ∷ s) = c == b'/'

below_home : Text → Option Text → Text
unfolding slash_first
below_home path none = path
below_home path (some rest) = if slash_first rest then b'~' ∷ rest else path

unfoldable pub abbrev_path : Text → Text → Text
unfolding strip_str below_home text_eq
abbrev_path path home =
    if is_nil home
    then path
    else if text_eq path home
    then text "~"
    else below_home path (strip_str home path)

unfoldable pub esc : Text → Text → Text
unfolding abbrev_path pango_escape
esc home s = pango_escape (abbrev_path s home)

abbrev pub name_or : Option Text → Text → Text
name_or none exe = exe
name_or (some name) exe = name

-- The block on what "Always" covers.
unfoldable pub scope_text : Bool → Text → Text
scope_text true object =
    text
      "<span foreground=\"#cc0000\"><b>「Always allow」 GRANTS ACCESS TO ALL FILES</b></span>\n<span foreground=\"#cc0000\">    under "
    ++ (object ++ text " — every subfolder, not just the file above.</span>")
scope_text false object = text "「Always allow」 remembers only this one file:\n    " ++ object

unfoldable pub cwd_text : Bool → Text → Text
cwd_text true cwd = text "\n…and only while it runs from " ++ cwd
cwd_text false cwd = []

-- The template, with its fields put in.
unfoldable pub dialog : Text → Text → Text → Text → Text → Text → Text → Text
dialog proc_name path scope exe cwd_line pid cmdline =
    text "<b>⚠  filewall — sensitive file access</b>\n\n<b>"
    ++ (proc_name
        ++ (text "</b> wants to open:\n    "
            ++ (path
                ++ (text "\n\n"
                    ++ (scope
                        ++ (text "\n\nRule is tied to this program:\n    "
                            ++ (exe
                                ++ (cwd_line
                                    ++ (text "\n\n<small>PID "
                                        ++ (pid
                                            ++ (text " · cmd: "
                                                ++ (cmdline ++ text "</small>"))))))))))))

unfoldable pub build_dialog_text : PromptRequest → Text → Text
unfolding esc pango_escape dialog scope_text cwd_text file_name decimal
build_dialog_text req home =
    dialog (pango_escape (name_or (file_name req.exe) req.exe)) (esc home req.path)
      (scope_text req.always_tree (esc home req.always_object)) (esc home req.exe)
      (cwd_text req.always_cwd_pinned (esc home req.cwd)) (decimal req.pid)
      (pango_escape (if is_nil req.cmdline then text "<unavailable>" else req.cmdline))

-- The buttons for "Always": their labels, with the exit code of each.
unfoldable pub always_labels : Bool → Text × Text
always_labels tree =
    if tree
    then (text "Always allow ALL:12", text "Always deny ALL:13")
    else (text "Always allow file:12", text "Always deny file:13")

unfoldable pub classify : Option ℕ → Decision
classify none = deny_once
classify (some code) =
    if code == 10
    then allow_once
    else if code == 12
    then allow_always
    else if code == 13
    then deny_always
    else deny_once

-- `ask`, from what running `yad` with the text and the labels gives.
unfoldable pub ask : (Text → Text × Text → Option ℕ) → Option Text → PromptRequest → Decision
unfolding classify build_dialog_text always_labels
ask yad home req =
    classify (yad (build_dialog_text req (name_or home [])) (always_labels req.always_tree))

-- `serve` on one link, where `yad` shows the dialogs one after another: the state is their number.
module _ (requests : Json PromptRequest) (responses : Json PromptResponse)
    (yad : ℕ → Text → Text × Text → Option ℕ) (home : Option Text) (broken : ℕ → Bool) where
  answer : ℕ → PromptRequest → Option Decision × ℕ
  unfolding ask
  answer n req = (some (ask (yad n) home req), n + 1)

  unfoldable pub serve : ℕ → Bytes → Served ℕ
  unfolding answer
  serve n stream = serve_requests requests responses answer broken (suc (length stream)) n stream

  -- The loop of `main`, from what the attempts to connect give.
  unfoldable pub main_loop : ℕ → List (Result ErrorKind Bytes) → List (Served ℕ)
  unfolding serve reconnecting
  main_loop n attempts = reconnecting serve (suc (length attempts)) n attempts
