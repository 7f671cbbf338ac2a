-- ===== src/Tests/Ui.antt =====
-- The tests of filewall-ui/src/main.rs.
use filewall.Prelude.{true, false, none, some, text, ◌≡◌, refl}
use filewall.Proto.{PromptRequest, allow_once, deny_once, allow_always, deny_always}
use filewall.Tests.{has}
use filewall.Ui.{
  pango_escape, classify, abbrev_path, build_dialog_text, scope_text, cwd_text, dialog,
}

abbrev PangoEscapeHandlesMarkupMetachars : Type 0
PangoEscapeHandlesMarkupMetachars =
    (pango_escape (text "a & b") ≡ text "a &amp; b")
    × (pango_escape (text "<b>x</b>") ≡ text "&lt;b&gt;x&lt;/b&gt;")
    × (pango_escape (text "evil & <span foreground=\"red\">")
        ≡ text "evil &amp; &lt;span foreground=\"red\"&gt;")
    × (pango_escape (text "plain text") ≡ text "plain text")

pango_escape_handles_markup_metachars : PangoEscapeHandlesMarkupMetachars
unfolding pango_escape
pango_escape_handles_markup_metachars = (refl, refl, refl, refl)

abbrev ClassifyMapsButtonCodes : Type 0
ClassifyMapsButtonCodes =
    (classify (some 10) ≡ allow_once)
    × (classify (some 12) ≡ allow_always)
    × (classify (some 13) ≡ deny_always)

classify_maps_button_codes : ClassifyMapsButtonCodes
unfolding classify
classify_maps_button_codes = (refl, refl, refl)

abbrev ClassifyFailsClosedOnEverythingElse : Type 0
ClassifyFailsClosedOnEverythingElse =
    (classify (some 11) ≡ deny_once)
    × (classify (some 252) ≡ deny_once)
    × (classify none ≡ deny_once)
    × (classify (some 1) ≡ deny_once)

classify_fails_closed_on_everything_else : ClassifyFailsClosedOnEverythingElse
unfolding classify
classify_fails_closed_on_everything_else = (refl, refl, refl, refl)

abbrev AbbrevReplacesHomePrefixOnly : Type 0
AbbrevReplacesHomePrefixOnly =
    (abbrev_path (text "/home/alice/.ssh/id") (text "/home/alice") ≡ text "~/.ssh/id")
    × (abbrev_path (text "/home/alice") (text "/home/alice") ≡ text "~")
    × (abbrev_path (text "/etc/hosts") (text "/home/alice") ≡ text "/etc/hosts")
    × (abbrev_path (text "/home/alice2/x") (text "/home/alice") ≡ text "/home/alice2/x")
    × (abbrev_path (text "/home/alice/.ssh") (text "") ≡ text "/home/alice/.ssh")

abbrev_replaces_home_prefix_only : AbbrevReplacesHomePrefixOnly
unfolding abbrev_path
abbrev_replaces_home_prefix_only = (refl, refl, refl, refl, refl)

abbrev req_fixture : PromptRequest
req_fixture = record {
  pid = 7;
  exe = text "/usr/bin/node";
  cmdline = text "node app.js";
  cwd = text "/home/u/work";
  path = text "/home/u/.ssh/id_ed25519";
  always_object = text "/home/u/.ssh";
  always_tree = true;
  always_cwd_pinned = false;
  ui_timeout_ms = 0;
}

abbrev DialogTextTreeGrantShowsRedAllFilesWarning : Type 0
DialogTextTreeGrantShowsRedAllFilesWarning =
    let t = build_dialog_text req_fixture (text "/home/u") in
    (has (text "GRANTS ACCESS TO ALL FILES") t ≡ true)
    × (has (text "#cc0000") t ≡ true)
    × (has (text "~/.ssh") t ≡ true)
    × (has (text "remembers only this one file") t ≡ false)

dialog_text_tree_grant_shows_red_all_files_warning : DialogTextTreeGrantShowsRedAllFilesWarning
unfolding pango_escape classify abbrev_path build_dialog_text scope_text cwd_text dialog
dialog_text_tree_grant_shows_red_all_files_warning = (refl, refl, refl, refl)

abbrev DialogTextFileGrantIsNeutralNoWarning : Type 0
DialogTextFileGrantIsNeutralNoWarning =
    let t =
      build_dialog_text
        (record req_fixture { always_tree = false; always_object = text "/home/u/.ssh/id_ed25519" })
        (text "/home/u") in
    (has (text "remembers only this one file") t ≡ true)
    × (has (text "ALL FILES") t ≡ false)
    × (has (text "#cc0000") t ≡ false)

dialog_text_file_grant_is_neutral_no_warning : DialogTextFileGrantIsNeutralNoWarning
unfolding pango_escape classify abbrev_path build_dialog_text scope_text cwd_text dialog
dialog_text_file_grant_is_neutral_no_warning = (refl, refl, refl)

abbrev DialogTextCwdPinLinePresentOnlyWhenPinned : Type 0
DialogTextCwdPinLinePresentOnlyWhenPinned =
    let t = build_dialog_text (record req_fixture { always_cwd_pinned = true }) (text "/home/u") in
    let t2 = build_dialog_text req_fixture (text "/home/u") in
    (has (text "and only while it runs from") t ≡ true)
    × (has (text "~/work") t ≡ true)
    × (has (text "and only while it runs from") t2 ≡ false)

dialog_text_cwd_pin_line_present_only_when_pinned : DialogTextCwdPinLinePresentOnlyWhenPinned
unfolding pango_escape classify abbrev_path build_dialog_text scope_text cwd_text dialog
dialog_text_cwd_pin_line_present_only_when_pinned = (refl, refl, refl)

abbrev DialogTextEscapesMaliciousCmdline : Type 0
DialogTextEscapesMaliciousCmdline =
    let t =
      build_dialog_text (record req_fixture { cmdline = text "node </span><b>SPOOF" })
        (text "/home/u") in
    (has (text "</span><b>SPOOF") t ≡ false) × (has (text "&lt;/span&gt;&lt;b&gt;SPOOF") t ≡ true)

dialog_text_escapes_malicious_cmdline : DialogTextEscapesMaliciousCmdline
unfolding pango_escape classify abbrev_path build_dialog_text scope_text cwd_text dialog
dialog_text_escapes_malicious_cmdline = (refl, refl)
