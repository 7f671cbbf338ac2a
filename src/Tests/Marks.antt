-- ===== src/Tests/Marks.antt =====
-- The tests of filewalld/src/markset.rs.
use filewall.FilePath.{components}
use filewall.Marks.{MarkEntry, new, record_mark, insert, cmp_path, build_dump}
use filewall.Prelude.{Bool, true, false, none, some, [], ◌∷◌, map, length, text, ◌≡◌, refl}
use filewall.Proto.{ObjKind}

abbrev dir_entry : Bool → MarkEntry
dir_entry ok = record { kind = ObjKind.dir; recursive = true; watch_root = text "/w"; ok = ok }

abbrev FileEntryReportsLiveMarkedNone : Type 0
FileEntryReportsLiveMarkedNone =
    let objs =
      build_dump
        (record_mark new (text "/w/token")
          (record { kind = ObjKind.file; recursive = false; watch_root = text "/w"; ok = true }))
        (λ p. true) in
    (length objs ≡ 1)
    × (map (λ o. o.kind) objs ≡ ObjKind.file ∷ [])
    × (map (λ o. o.live_marked) objs ≡ none ∷ [])
    × (map (λ o. o.fanotify) objs ≡ true ∷ [])

file_entry_reports_live_marked_none : FileEntryReportsLiveMarkedNone
unfolding record_mark insert cmp_path build_dump components
file_entry_reports_live_marked_none = (refl, refl, refl, refl)

abbrev HealthyDirIsLiveMarkedTrue : Type 0
HealthyDirIsLiveMarkedTrue =
    let objs = build_dump (record_mark new (text "/w/sub") (dir_entry true)) (λ p. true) in
    map (λ o. o.live_marked) objs ≡ some true ∷ []

healthy_dir_is_live_marked_true : HealthyDirIsLiveMarkedTrue
unfolding record_mark insert cmp_path build_dump components
healthy_dir_is_live_marked_true = refl

abbrev DirWithoutInotifyWatchIsLiveMarkedFalse : Type 0
DirWithoutInotifyWatchIsLiveMarkedFalse =
    let objs = build_dump (record_mark new (text "/w/sub") (dir_entry true)) (λ p. false) in
    (map (λ o. o.live_marked) objs ≡ some false ∷ []) × (map (λ o. o.fanotify) objs ≡ true ∷ [])

dir_without_inotify_watch_is_live_marked_false : DirWithoutInotifyWatchIsLiveMarkedFalse
unfolding record_mark insert cmp_path build_dump components
dir_without_inotify_watch_is_live_marked_false = (refl, refl)

abbrev FailedMarkReportsFanotifyFalse : Type 0
FailedMarkReportsFanotifyFalse =
    let objs = build_dump (record_mark new (text "/w/sub") (dir_entry false)) (λ p. true) in
    map (λ o. o.fanotify) objs ≡ false ∷ []

failed_mark_reports_fanotify_false : FailedMarkReportsFanotifyFalse
unfolding record_mark insert cmp_path build_dump components
failed_mark_reports_fanotify_false = refl

abbrev OutputIsSortedByPath : Type 0
OutputIsSortedByPath =
    let objs =
      build_dump
        (record_mark (record_mark new (text "/w/b") (dir_entry true)) (text "/w/a")
          (dir_entry true))
        (λ p. true) in
    map (λ o. o.path) objs ≡ text "/w/a" ∷ text "/w/b" ∷ []

output_is_sorted_by_path : OutputIsSortedByPath
unfolding record_mark insert cmp_path build_dump components
output_is_sorted_by_path = refl
