-- ===== src/Marks/All.antt =====
-- `mark_all` of filewalld/src/main.rs: every watch is scanned, and every path that a scan gives is
-- marked and recorded. `Fan` says which calls of `fanotify_mark` succeed.
pub mod Coverage
pub mod Scope
use filewall.Marks.{MarkEntry, MarkSet, clear, record_mark}
use filewall.Policy.{WatchPolicy, Policy}
use filewall.Prelude.{ℕ, ◌+◌, Bool, List, [], ◌∷◌, Text, if◌then◌else◌}
use filewall.Proto.{ObjKind}
use filewall.Walk.{Disk, WatchScan, unresolved, scan_watch}

pub record Fan : Type 0 where
  pub mark_file : Text → Bool
  pub mark_dir : Text → Bool

abbrev pub entry_of : WatchPolicy → ObjKind → Bool → MarkEntry
entry_of w kind ok = record { kind = kind; recursive = w.recursive; watch_root = w.root; ok = ok }

mark_dirs : Fan → WatchPolicy → List Text → ℕ × MarkSet → ℕ × MarkSet
unfolding record_mark
mark_dirs fan w [] s = s
mark_dirs fan w (dir ∷ dirs) (n, marks) =
    let ok = fan.mark_dir dir in
    mark_dirs fan w dirs
      (if ok then n + 1 else n, record_mark marks dir (entry_of w ObjKind.dir ok))

mark_scan : Fan → WatchPolicy → WatchScan → ℕ × MarkSet → ℕ × MarkSet
unfolding mark_dirs
mark_scan fan w (WatchScan.file p) (marked, marks) =
    let ok = fan.mark_file p in
    (if ok then marked + 1 else marked, record_mark marks p (entry_of w ObjKind.file ok))
mark_scan fan w (WatchScan.dir dirs) (marked, marks) =
    let (n, marks') = mark_dirs fan w dirs (0, marks) in (marked + n, marks')
mark_scan fan w unresolved s = s

mark_watches : Disk → Fan → List WatchPolicy → ℕ × MarkSet → ℕ × MarkSet
unfolding mark_scan
mark_watches fs fan [] s = s
mark_watches fs fan (w ∷ ws) s = mark_watches fs fan ws (mark_scan fan w (scan_watch fs w) s)

-- The number of marks that were placed, and the record.
unfoldable pub mark_all : Disk → Fan → Policy → MarkSet → ℕ × MarkSet
unfolding mark_watches
mark_all fs fan policy marks = mark_watches fs fan policy.watches (0, clear marks)
