-- ===== src/Tests/Ctl.antt =====
-- The tests of filewallctl/src/main.rs. Those of JSON texts are tests of a crate.
use filewall.Ctl.{pos, eperm, esrch, errno, parse_pidfile, remove_ids}
use filewall.Ctl.Status.{running, stale, unknown, classify_liveness}
use filewall.Ctl.Tables.{list_table, dump_table}
use filewall.Prelude.{
  ℕ, zero, suc, true, false, none, some, List, [], ◌∷◌, map, length, Text, text, ok, err, ◌≡◌, refl,
}
use filewall.Prelude.Decimal.{unsigned}
use filewall.Proto.{DumpResponse, ObjKind}
use filewall.Rules.{allow, LearnedRule, tree, default, push, alloc_id}
use filewall.Tests.{begins, has, lines}

abbrev rule : Text → LearnedRule
rule exe = record {
  id = 0;
  created_unix = 0;
  action = allow;
  exe = exe;
  object = text "/home/u/.ssh";
  object_kind = tree;
  cwd = none;
}

-- A line of a table, if there are so many.
abbrev line : ℕ → List Text → Text
line n [] = []
line zero (l ∷ ls) = l
line (suc n) (l ∷ ls) = line n ls

abbrev ParsePidfileTrimsAndParses : Type 0
ParsePidfileTrimsAndParses =
    (parse_pidfile (text "4242\n") ≡ some (pos 4242)) × (parse_pidfile (text "not-a-pid") ≡ none)

parse_pidfile_trims_and_parses : ParsePidfileTrimsAndParses
unfolding parse_pidfile unsigned
parse_pidfile_trims_and_parses = (refl, refl)

abbrev RemoveIdsRemovesMatchedReportsMissing : Type 0
RemoveIdsRemovesMatchedReportsMissing =
    let rs =
      push (push (push default (rule (text "/usr/bin/a"))) (rule (text "/usr/bin/b")))
        (rule (text "/usr/bin/c")) in
    let out = remove_ids rs (1 ∷ 3 ∷ 99 ∷ []) in
    (map (λ r. r.exe) out.removed ≡ text "/usr/bin/a" ∷ text "/usr/bin/c" ∷ [])
    × (out.missing ≡ 99 ∷ [])
    × (length out.rules.rules ≡ 1)
    × (map (λ r. r.exe) out.rules.rules ≡ text "/usr/bin/b" ∷ [])

remove_ids_removes_matched_reports_missing : RemoveIdsRemovesMatchedReportsMissing
unfolding remove_ids push alloc_id
remove_ids_removes_matched_reports_missing = (refl, refl, refl, refl)

abbrev EpermMeansRunningNotStale : Type 0
EpermMeansRunningNotStale = classify_liveness (err eperm) ≡ running

eperm_means_running_not_stale : EpermMeansRunningNotStale
unfolding classify_liveness
eperm_means_running_not_stale = refl

abbrev EsrchMeansStale : Type 0
EsrchMeansStale = classify_liveness (err esrch) ≡ stale

esrch_means_stale : EsrchMeansStale
unfolding classify_liveness
esrch_means_stale = refl

abbrev OkMeansRunning : Type 0
OkMeansRunning = classify_liveness (ok tt) ≡ running

ok_means_running : OkMeansRunning
unfolding classify_liveness
ok_means_running = refl

abbrev OtherErrnoIsUnknown : Type 0
OtherErrnoIsUnknown = classify_liveness (err (errno 22)) ≡ unknown (errno 22)

other_errno_is_unknown : OtherErrnoIsUnknown
unfolding classify_liveness
other_errno_is_unknown = refl

abbrev ListTableRendersAlignedColumns : Type 0
ListTableRendersAlignedColumns =
    let rs = push default (rule (text "/usr/bin/ssh")) in
    let out = list_table rs.rules (text "/var/lib/filewall/rules.toml") in
    (begins (text "ID  ACTION") (line 0 (lines out)) ≡ true)
    × (has (text "OBJECT") (line 0 (lines out)) ≡ true)
    × (begins (text "1   allow") (line 1 (lines out)) ≡ true)
    × (has (text "/usr/bin/ssh") (line 1 (lines out)) ≡ true)
    × (has (text "/home/u/.ssh") (line 1 (lines out)) ≡ true)
    × (has (text "tree") (line 1 (lines out)) ≡ true)
    × (has (text "1 rule(s) (/var/lib/filewall/rules.toml)") out ≡ true)

list_table_renders_aligned_columns : ListTableRendersAlignedColumns
unfolding list_table push alloc_id
list_table_renders_aligned_columns = (refl, refl, refl, refl, refl, refl, refl)

abbrev DumpTableRendersObjectsWithHealth : Type 0
DumpTableRendersObjectsWithHealth =
    let resp : DumpResponse = record {
      pid = 7;
      generated_unix = 0;
      objects =
          record {
            path = text "/home/u/.ssh";
            kind = ObjKind.dir;
            recursive = true;
            watch = text "/home/u/.ssh";
            fanotify = true;
            live_marked = some true;
          }
          ∷ record {
            path = text "/home/u/.vault-token";
            kind = ObjKind.file;
            recursive = false;
            watch = text "/home/u/.vault-token";
            fanotify = true;
            live_marked = none;
          }
          ∷ [];
    } in
    let out = dump_table resp in
    (has (text "PATH") out ≡ true)
    × (has (text "/home/u/.ssh") out ≡ true)
    × (has (text "dir") out ≡ true)
    × (has (text "yes") out ≡ true)
    × (has (text "-") out ≡ true)

dump_table_renders_objects_with_health : DumpTableRendersObjectsWithHealth
unfolding dump_table
dump_table_renders_objects_with_health = (refl, refl, refl, refl, refl)

abbrev RemoveIdsAllMissingRemovesNothing : Type 0
RemoveIdsAllMissingRemovesNothing =
    let out = remove_ids (push default (rule (text "/usr/bin/a"))) (7 ∷ 8 ∷ []) in
    (out.removed ≡ []) × (out.missing ≡ 7 ∷ 8 ∷ []) × (length out.rules.rules ≡ 1)

remove_ids_all_missing_removes_nothing : RemoveIdsAllMissingRemovesNothing
unfolding remove_ids push alloc_id
remove_ids_all_missing_removes_nothing = (refl, refl, refl)
