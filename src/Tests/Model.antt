-- ===== src/Tests/Model.antt =====
-- The tests of filewall-ui-iced/src/model.rs.
use filewall.FilePath.{file_name}
use filewall.Iced.{Scope, build, cap, max_field}
use filewall.Iced.View.{allow_always_label, deny_always_label}
use filewall.Prelude.{◌+◌, true, false, [], text, length, replicate, ◌≡◌, refl}
use filewall.Proto.{PromptRequest}
use filewall.Tests.{ends}
use filewall.Ui.{abbrev_path}

abbrev req_fixture : PromptRequest
req_fixture = record {
  pid = 7;
  exe = text "/usr/bin/node";
  cmdline = text "node app.js";
  cwd = text "/home/u/work";
  path = text "/home/u/.ssh/id_ed25519";
  always_object = text "/home/u/.ssh";
  always_tree = true;
  always_cwd_pinned = false;
  ui_timeout_ms = 0;
}

abbrev AbbrevReplacesHomePrefixOnly : Type 0
AbbrevReplacesHomePrefixOnly =
    (abbrev_path (text "/home/alice/.ssh/id") (text "/home/alice") ≡ text "~/.ssh/id")
    × (abbrev_path (text "/home/alice") (text "/home/alice") ≡ text "~")
    × (abbrev_path (text "/etc/hosts") (text "/home/alice") ≡ text "/etc/hosts")
    × (abbrev_path (text "/home/alice2/x") (text "/home/alice") ≡ text "/home/alice2/x")
    × (abbrev_path (text "/home/alice/.ssh") (text "") ≡ text "/home/alice/.ssh")

abbrev_replaces_home_prefix_only : AbbrevReplacesHomePrefixOnly
unfolding abbrev_path
abbrev_replaces_home_prefix_only = (refl, refl, refl, refl, refl)

abbrev TreeScopeSelectsAllLabelsAndWarning : Type 0
TreeScopeSelectsAllLabelsAndWarning =
    let v = build req_fixture (text "/home/u") in
    (v.scope ≡ Scope.tree)
    × (allow_always_label v.scope ≡ text "Always allow ALL")
    × (deny_always_label v.scope ≡ text "Always deny ALL")
    × (v.object ≡ text "~/.ssh")
    × (v.proc_name ≡ text "node")

tree_scope_selects_all_labels_and_warning : TreeScopeSelectsAllLabelsAndWarning
unfolding build cap abbrev_path allow_always_label deny_always_label file_name
tree_scope_selects_all_labels_and_warning = (refl, refl, refl, refl, refl)

abbrev FileScopeSelectsFileLabels : Type 0
FileScopeSelectsFileLabels =
    let v =
      build
        (record req_fixture { always_tree = false; always_object = text "/home/u/.ssh/id_ed25519" })
        (text "/home/u") in
    (v.scope ≡ Scope.file)
    × (allow_always_label v.scope ≡ text "Always allow file")
    × (v.path ≡ text "~/.ssh/id_ed25519")

file_scope_selects_file_labels : FileScopeSelectsFileLabels
unfolding build cap abbrev_path allow_always_label deny_always_label file_name
file_scope_selects_file_labels = (refl, refl, refl)

abbrev CwdPinFlagIsCarried : Type 0
CwdPinFlagIsCarried =
    let v = build (record req_fixture { always_cwd_pinned = true }) (text "/home/u") in
    (v.cwd_pinned ≡ true) × (v.cwd ≡ text "~/work")

cwd_pin_flag_is_carried : CwdPinFlagIsCarried
unfolding build cap abbrev_path allow_always_label deny_always_label file_name
cwd_pin_flag_is_carried = (refl, refl)

abbrev MarkupMetacharsAreShownVerbatimNotEscaped : Type 0
MarkupMetacharsAreShownVerbatimNotEscaped =
    let v = build (record req_fixture { cmdline = text "node </span><b>SPOOF" }) (text "/home/u") in
    v.cmdline ≡ text "node </span><b>SPOOF"

markup_metachars_are_shown_verbatim_not_escaped : MarkupMetacharsAreShownVerbatimNotEscaped
unfolding build cap abbrev_path allow_always_label deny_always_label file_name
markup_metachars_are_shown_verbatim_not_escaped = refl

abbrev EmptyCmdlineShowsPlaceholder : Type 0
EmptyCmdlineShowsPlaceholder =
    let v = build (record req_fixture { cmdline = [] }) (text "/home/u") in
    v.cmdline ≡ text "<unavailable>"

empty_cmdline_shows_placeholder : EmptyCmdlineShowsPlaceholder
unfolding build cap abbrev_path allow_always_label deny_always_label file_name
empty_cmdline_shows_placeholder = refl

abbrev OverlongFieldIsTruncated : Type 0
OverlongFieldIsTruncated =
    let v =
      build (record req_fixture { cmdline = replicate (max_field + 50) b'a' }) (text "/home/u") in
    (length v.cmdline ≡ max_field + 1) × (ends (text "…") v.cmdline ≡ true)

overlong_field_is_truncated : OverlongFieldIsTruncated
unfolding build cap abbrev_path allow_always_label deny_always_label file_name
overlong_field_is_truncated = (refl, refl)
