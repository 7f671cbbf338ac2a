-- ===== src/Walk.antt =====
-- filewalld/src/main.rs and treewatch.rs: which directories a watch marks. The file system is seen
-- through what `read_dir` and `symlink_metadata` answer.
pub mod Reach
pub mod Complete
use filewall.FilePath.{join}
use filewall.Policy.{WatchPolicy, is_excluded}
use filewall.Prelude.{
  ℕ, zero, suc, Bool, true, false, not, ◌&&◌, Option, none, some, List, [], ◌∷◌, ◌++◌, Text,
  if◌then◌else◌,
}

pub data FileType : Type 0 where
  regular directory other : FileType

-- `read_dir` answers `none` for an error, and its entries are names, `none` where one cannot be
-- read; `file_type` is that of `symlink_metadata`. `size` bounds the directories below one.
pub record Disk : Type 0 where
  pub read_dir : Text → Option (List (Option Text))
  pub file_type : Text → Option FileType
  pub size : Text → ℕ

abbrev dir_type : Option FileType → Bool
dir_type (some directory) = true
dir_type _ = false

-- `entries.flatten()`, as the paths of the entries.
entry_paths : Text → List (Option Text) → List Text
unfolding join
entry_paths dir [] = []
entry_paths dir (none ∷ es) = entry_paths dir es
entry_paths dir (some name ∷ es) = join dir name ∷ entry_paths dir es

listed : Text → Option (List (Option Text)) → List Text
unfolding entry_paths
listed dir none = []
listed dir (some es) = entry_paths dir es

-- What the inner loop sees of a directory; one that cannot be read is as an empty one.
unfoldable pub children : Disk → Text → List Text
unfolding listed
children fs dir = listed dir (fs.read_dir dir)

unfoldable pub is_dir : Disk → Text → Bool
is_dir fs p = dir_type (fs.file_type p)

module _ (fs : Disk) (excluded : Text → Bool) where
  -- Is the entry taken: neither excluded nor anything but a directory?
  unfoldable pub taken : Text → Bool
  unfolding is_dir
  taken p = not (excluded p) && is_dir fs p

  -- The inner loop, on `out` and on the stack with its top first.
  unfoldable pub visit : List Text → List Text → List Text → List Text × List Text
  unfolding taken
  visit [] out stack = (out, stack)
  visit (p ∷ ps) out stack =
      visit ps (if taken p then out ++ p ∷ [] else out) (if taken p then p ∷ stack else stack)

  -- The outer loop, at most so many times.
  unfoldable pub walk : ℕ → List Text → List Text → List Text
  unfolding visit
  walk zero out stack = out
  walk (suc n) out [] = out
  walk (suc n) out (dir ∷ stack) =
      let (out', stack') = visit (children fs dir) out stack in walk n out' stack'

unfoldable pub walk_dirs : Disk → Text → (Text → Bool) → List Text
unfolding walk
walk_dirs fs root excluded = walk fs excluded (fs.size root) (root ∷ []) (root ∷ [])

pub data WatchScan : Type 0 where
  unresolved : WatchScan
  file : Text → WatchScan
  dir : List Text → WatchScan

unfoldable pub scanned : Disk → WatchPolicy → Option FileType → WatchScan
unfolding walk_dirs is_excluded
scanned fs w (some regular) = file w.root
scanned fs w (some directory) =
    if w.recursive then dir (walk_dirs fs w.root (λ p. is_excluded w p)) else dir (w.root ∷ [])
scanned fs w _ = unresolved

unfoldable pub scan_watch : Disk → WatchPolicy → WatchScan
unfolding scanned
scan_watch fs w = scanned fs w (fs.file_type w.root)

-- `dirs_to_mark`, for a directory that appears.
unfoldable pub dirs_to_mark : Disk → Text → (Text → Bool) → List Text
unfolding walk_dirs
dirs_to_mark fs new_dir excluded = if excluded new_dir then [] else walk_dirs fs new_dir excluded
