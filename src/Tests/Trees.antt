-- ===== src/Tests/Trees.antt =====
-- Small file systems for the unit tests of filewalld that make directories.
use filewall.Prelude.{
  Bool, Option, none, some, List, [], ◌∷◌, map, Text, text_eq, any, if◌then◌else◌,
}
use filewall.Walk.{Disk, FileType, regular, directory}

abbrev lookup : List (Text × List Text) → Text → Option (List Text)
lookup [] p = none
lookup ((d, names) ∷ rest) p = if text_eq d p then some names else lookup rest p

abbrev entries : Option (List Text) → Option (List (Option Text))
entries none = none
entries (some names) = some (map (λ n. some n) names)

abbrev pub lists : Text → List Text → Bool
lists p dirs = any (λ d. text_eq d p) dirs

abbrev type_of : Option (List Text) → Bool → Option FileType
type_of (some names) is_file = some directory
type_of none is_file = if is_file then some regular else none

-- Directories with the names in them, and files; no walk takes more than ten steps.
abbrev pub disk_of : List (Text × List Text) → List Text → Disk
disk_of dirs files = record {
  read_dir = λ p. entries (lookup dirs p);
  file_type = λ p. type_of (lookup dirs p) (lists p files);
  size = λ p. 10;
}
