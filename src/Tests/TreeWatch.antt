-- ===== src/Tests/TreeWatch.antt =====
-- The tests of filewalld/src/treewatch.rs, on files of the model.
use filewall.FilePath.{join}
use filewall.Prelude.{true, false, [], ◌∷◌, text, text_eq, ◌≡◌, refl}
use filewall.Tests.{ends}
use filewall.Tests.Trees.{disk_of, lists}
use filewall.TreeWatch.{is_watching}
use filewall.Walk.{dirs_to_mark, walk_dirs, walk, visit, taken, children, is_dir}

abbrev IsWatchingFalseForUnknownAndWhenInert : Type 0
IsWatchingFalseForUnknownAndWhenInert =
    is_watching (record { inotify = false; wd_map = [] }) (text "/anything") ≡ false

is_watching_false_for_unknown_and_when_inert : IsWatchingFalseForUnknownAndWhenInert
unfolding is_watching
is_watching_false_for_unknown_and_when_inert = refl

abbrev DirsToMarkRecursesIntoPopulatedSubtree : Type 0
DirsToMarkRecursesIntoPopulatedSubtree =
    let disk =
      disk_of
        ((text "/t", text "a" ∷ [])
          ∷ (text "/t/a", text "b" ∷ text "file.txt" ∷ [])
          ∷ (text "/t/a/b", [])
          ∷ [])
        (text "/t/a/file.txt" ∷ []) in
    let dirs = dirs_to_mark disk (text "/t") (λ p. false) in
    (lists (text "/t") dirs ≡ true)
    × (lists (text "/t/a") dirs ≡ true)
    × (lists (text "/t/a/b") dirs ≡ true)
    × (lists (text "/t/a/file.txt") dirs ≡ false)

dirs_to_mark_recurses_into_populated_subtree : DirsToMarkRecursesIntoPopulatedSubtree
unfolding dirs_to_mark walk_dirs walk visit taken children is_dir join text_eq
dirs_to_mark_recurses_into_populated_subtree = (refl, refl, refl, refl)

abbrev DirsToMarkHonorsExcludes : Type 0
DirsToMarkHonorsExcludes =
    let disk =
      disk_of
        ((text "/t", text "keep" ∷ text "Cache" ∷ [])
          ∷ (text "/t/keep", [])
          ∷ (text "/t/Cache", text "inner" ∷ [])
          ∷ (text "/t/Cache/inner", [])
          ∷ [])
        [] in
    let dirs = dirs_to_mark disk (text "/t") (λ p. ends (text "/Cache") p) in
    (lists (text "/t") dirs ≡ true)
    × (lists (text "/t/keep") dirs ≡ true)
    × (lists (text "/t/Cache") dirs ≡ false)
    × (lists (text "/t/Cache/inner") dirs ≡ false)

dirs_to_mark_honors_excludes : DirsToMarkHonorsExcludes
unfolding dirs_to_mark walk_dirs walk visit taken children is_dir join text_eq
dirs_to_mark_honors_excludes = (refl, refl, refl, refl)

abbrev DirsToMarkEmptyWhenNewDirItselfExcluded : Type 0
DirsToMarkEmptyWhenNewDirItselfExcluded =
    dirs_to_mark (disk_of ((text "/t", text "child" ∷ []) ∷ (text "/t/child", []) ∷ []) [])
      (text "/t") (λ p. true)
    ≡ []

dirs_to_mark_empty_when_new_dir_itself_excluded : DirsToMarkEmptyWhenNewDirItselfExcluded
unfolding dirs_to_mark walk_dirs walk visit taken children is_dir join text_eq
dirs_to_mark_empty_when_new_dir_itself_excluded = refl
