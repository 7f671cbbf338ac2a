-- ===== src/Tests/Walk.antt =====
-- The tests of filewalld/src/main.rs, on files of the model.
use filewall.Ctl.{pos, parse_pidfile}
use filewall.Daemon.Pidfile.{write_pidfile}
use filewall.FilePath.{starts_with, join, parent, components_eq}
use filewall.Policy.{Action, WatchPolicy, new_watch, pattern_is_deep, is_excluded}
use filewall.Prelude.{
  true, false, some, List, [], ◌∷◌, any, Text, text, text_eq, Result, ok, ◌≡◌, refl,
}
use filewall.Prelude.Decimal.{decimal, unsigned}
use filewall.Examples.Samples.{no_files}
use filewall.Rules.{ObjectKind}
use filewall.Rules.Disk.{no_faults, write_file}
use filewall.Tests.{after, ends}
use filewall.Tests.Globs.{globs}
use filewall.Tests.Trees.{disk_of, lists}
use filewall.Walk.{
  Disk, WatchScan, unresolved, scan_watch, walk_dirs, walk, visit, taken, children, is_dir, scanned,
}

abbrev watch_for : Text → List Text → Result Text WatchPolicy
watch_for root exclude = new_watch globs root [] Action.prompt ObjectKind.file false exclude []

abbrev watch_with_patterns : Text → List Text → Result Text WatchPolicy
watch_with_patterns root patterns =
    new_watch globs root [] Action.prompt ObjectKind.file false [] patterns

abbrev scan_disk : Disk
scan_disk =
    disk_of
      ((text "/t", text "token" ∷ text "tree" ∷ text "empty" ∷ [])
        ∷ (text "/t/tree", text "Cache" ∷ text "sub" ∷ text "a.txt" ∷ [])
        ∷ (text "/t/tree/Cache", text "junk" ∷ [])
        ∷ (text "/t/tree/sub", [])
        ∷ (text "/t/empty", [])
        ∷ [])
      (text "/t/token" ∷ text "/t/tree/a.txt" ∷ text "/t/tree/Cache/junk" ∷ [])

abbrev dirs_of : WatchScan → List Text
dirs_of (WatchScan.dir ds) = ds
dirs_of _ = []

abbrev ScanWatchClassifiesFileDirAndMissing : Type 0
ScanWatchClassifiesFileDirAndMissing =
    let tree =
      after (watch_for (text "/t/tree") (text "**/Cache" ∷ [])) (λ w. scan_watch scan_disk w) in
    (after (watch_for (text "/t/nope") []) (λ w. scan_watch scan_disk w) ≡ ok unresolved)
    × (after (watch_for (text "/t/token") []) (λ w. scan_watch scan_disk w)
        ≡ ok (WatchScan.file (text "/t/token")))
    × (after tree (λ s. lists (text "/t/tree") (dirs_of s)) ≡ ok true)
    × (after tree (λ s. lists (text "/t/tree/sub") (dirs_of s)) ≡ ok true)
    × (after tree (λ s. any (λ d. starts_with d (text "/t/tree/Cache")) (dirs_of s)) ≡ ok false)
    × (after tree (λ s. lists (text "/t/tree/a.txt") (dirs_of s)) ≡ ok false)
    × (after (watch_for (text "/t/empty") []) (λ w. scan_watch scan_disk w)
        ≡ ok (WatchScan.dir (text "/t/empty" ∷ [])))

scan_watch_classifies_file_dir_and_missing : ScanWatchClassifiesFileDirAndMissing
unfolding new_watch pattern_is_deep is_excluded scan_watch scanned walk_dirs walk visit taken
    children is_dir join text_eq starts_with
scan_watch_classifies_file_dir_and_missing = (refl, refl, refl, refl, refl, refl, refl)

abbrev pattern_disk : Disk
pattern_disk =
    disk_of
      ((text "/t", text "sub" ∷ text ".zsh_history" ∷ [])
        ∷ (text "/t/sub", text "deep" ∷ [])
        ∷ (text "/t/sub/deep", [])
        ∷ [])
      (text "/t/.zsh_history" ∷ [])

abbrev ScanWatchShallowPatternsMarksOnlyRootDeepWalks : Type 0
ScanWatchShallowPatternsMarksOnlyRootDeepWalks =
    let tree =
      after (watch_with_patterns (text "/t") (text "**/*_history" ∷ []))
        (λ w. scan_watch pattern_disk w) in
    (after (watch_with_patterns (text "/t") (text "*_history" ∷ []))
        (λ w. scan_watch pattern_disk w)
      ≡ ok (WatchScan.dir (text "/t" ∷ [])))
    × (after tree (λ s. lists (text "/t") (dirs_of s)) ≡ ok true)
    × (after tree (λ s. lists (text "/t/sub") (dirs_of s)) ≡ ok true)
    × (after tree (λ s. lists (text "/t/sub/deep") (dirs_of s)) ≡ ok true)

scan_watch_shallow_patterns_marks_only_root_deep_walks :
    ScanWatchShallowPatternsMarksOnlyRootDeepWalks
unfolding new_watch pattern_is_deep is_excluded scan_watch scanned walk_dirs walk visit taken
    children is_dir join text_eq starts_with
scan_watch_shallow_patterns_marks_only_root_deep_walks = (refl, refl, refl, refl)

abbrev walk_disk : Disk
walk_disk =
    disk_of
      ((text "/t", text "Cache" ∷ text "sub" ∷ text "keep.txt" ∷ [])
        ∷ (text "/t/Cache", text "junk" ∷ [])
        ∷ (text "/t/sub", text "deep" ∷ text "keep2.txt" ∷ [])
        ∷ (text "/t/sub/deep", [])
        ∷ [])
      (text "/t/keep.txt" ∷ text "/t/Cache/junk" ∷ text "/t/sub/keep2.txt" ∷ [])

abbrev WalkDirsReturnsRootAndSubdirsPruningExcluded : Type 0
WalkDirsReturnsRootAndSubdirsPruningExcluded =
    let dirs = walk_dirs walk_disk (text "/t") (λ p. ends (text "/Cache") p) in
    (lists (text "/t") dirs ≡ true)
    × (lists (text "/t/sub") dirs ≡ true)
    × (lists (text "/t/sub/deep") dirs ≡ true)
    × (lists (text "/t/Cache") dirs ≡ false)
    × (lists (text "/t/keep.txt") dirs ≡ false)
    × (lists (text "/t/sub/keep2.txt") dirs ≡ false)

walk_dirs_returns_root_and_subdirs_pruning_excluded : WalkDirsReturnsRootAndSubdirsPruningExcluded
unfolding new_watch pattern_is_deep is_excluded scan_watch scanned walk_dirs walk visit taken
    children is_dir join text_eq starts_with
walk_dirs_returns_root_and_subdirs_pruning_excluded = (refl, refl, refl, refl, refl, refl)

abbrev PidfileWriteHasTrailingNewline : Type 0
PidfileWriteHasTrailingNewline =
    let (done, files) = write_pidfile no_faults no_files (text "/t/d.pid") 4242 in
    (done ≡ ok tt)
    × (files (text "/t/d.pid") ≡ some (text "4242\n"))
    × (parse_pidfile (text "4242\n") ≡ some (pos 4242))

pidfile_write_has_trailing_newline : PidfileWriteHasTrailingNewline
unfolding write_pidfile parse_pidfile decimal unsigned text_eq parent components_eq write_file
pidfile_write_has_trailing_newline = (refl, refl, refl)
