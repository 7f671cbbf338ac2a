-- ===== src/FilePath.antt =====
-- What the program uses of `std::path`: a path is compared by its components, not by its text.
-- A path is read as Unix does, and its text is taken to be UTF-8.
pub mod Laws
use filewall.Prelude.{
  ℕ, Bool, true, false, ◌&&◌, ◌||◌, Option, none, some, List, [], ◌∷◌, ◌++◌, Text, text, text_eq,
  ◌==◌, if◌then◌else◌,
}

-- `std::path::Component`, on Unix.
pub data Component : Type 0 where
  root_dir cur_dir parent_dir : Component
  normal : Text → Component

unfoldable pub component_eq : Component → Component → Bool
unfolding text_eq
component_eq root_dir root_dir = true
component_eq cur_dir cur_dir = true
component_eq parent_dir parent_dir = true
component_eq (normal s) (normal t) = text_eq s t
component_eq _ _ = false

abbrev cons_first : ℕ → List Text → List Text
cons_first c [] = (c ∷ []) ∷ []
cons_first c (s ∷ ss) = (c ∷ s) ∷ ss

-- The pieces of a text between the slashes: one more than there are slashes.
segments : Text → List Text
segments [] = [] ∷ []
segments (c ∷ cs) = let rest = segments cs in if c == b'/' then [] ∷ rest else cons_first c rest

-- An empty segment and a `.` give no component.
push_segment : Text → List Component → List Component
unfolding text_eq
push_segment s rest =
    if text_eq s [] || text_eq s (text ".")
    then rest
    else if text_eq s (text "..")
    then parent_dir ∷ rest
    else normal s ∷ rest

body : List Text → List Component
unfolding push_segment
body [] = []
body (s ∷ ss) = push_segment s (body ss)

-- The first segment: empty before a leading slash; a leading `.` counts.
head_component : List Text → List Component
unfolding body text_eq
head_component [] = []
head_component (s ∷ []) = if text_eq s (text ".") then cur_dir ∷ [] else body (s ∷ [])
head_component (s ∷ t ∷ ss) =
    if text_eq s []
    then root_dir ∷ body (t ∷ ss)
    else if text_eq s (text ".")
    then cur_dir ∷ body (t ∷ ss)
    else body (s ∷ t ∷ ss)

-- `Path::components`.
unfoldable pub components : Text → List Component
unfolding segments head_component
components p = head_component (segments p)

unfoldable pub components_eq : List Component → List Component → Bool
unfolding component_eq
components_eq [] [] = true
components_eq (a ∷ as') (b ∷ bs) = component_eq a b && components_eq as' bs
components_eq _ _ = false

-- `==` on paths.
unfoldable pub path_eq : Text → Text → Bool
unfolding components components_eq
path_eq p q = components_eq (components p) (components q)

-- What is left of the first list behind the second, which must be its beginning.
unfoldable pub after_prefix : List Component → List Component → Option (List Component)
unfolding component_eq
after_prefix cs [] = some cs
after_prefix [] (b ∷ bs) = none
after_prefix (c ∷ cs) (b ∷ bs) = if component_eq c b then after_prefix cs bs else none

abbrev pub is_some : {A : Type 0} → Option A → Bool
is_some none = false
is_some (some a) = true

-- `Path::starts_with`.
unfoldable pub starts_with : Text → Text → Bool
unfolding components after_prefix
starts_with p base = is_some (after_prefix (components p) (components base))

component_text : Component → Text
component_text root_dir = text "/"
component_text cur_dir = text "."
component_text parent_dir = text ".."
component_text (normal s) = s

-- The components with one slash between them. It is the text itself where that has no empty and
-- no `.` segment, as in the paths that the kernel reports.
unfoldable pub path_text : List Component → Text
unfolding component_text
path_text [] = []
path_text (c ∷ []) = component_text c
path_text (root_dir ∷ d ∷ cs) = b'/' ∷ path_text (d ∷ cs)
path_text (c ∷ d ∷ cs) = component_text c ++ (b'/' ∷ path_text (d ∷ cs))

-- `Path::strip_prefix`, with `none` for its error.
unfoldable pub strip_prefix : Text → Text → Option Text
unfolding components after_prefix path_text
strip_prefix p base = elim (after_prefix (components p) (components base)) [
  | none ↦ none
  | some cs ↦ some (path_text cs)
]

ends_in_slash : Text → Bool
ends_in_slash [] = false
ends_in_slash (c ∷ []) = c == b'/'
ends_in_slash (c ∷ d ∷ cs) = ends_in_slash (d ∷ cs)

is_absolute : Text → Bool
is_absolute [] = false
is_absolute (c ∷ cs) = c == b'/'

abbrev is_empty : Text → Bool
is_empty [] = true
is_empty (c ∷ cs) = false

-- `Path::join`: an absolute second path replaces the first.
unfoldable pub join : Text → Text → Text
unfolding ends_in_slash is_absolute
join base p =
    if is_absolute p
    then p
    else if is_empty base || ends_in_slash base
    then base ++ p
    else base ++ (b'/' ∷ p)

last_name : List Component → Option Text
last_name [] = none
last_name (normal s ∷ []) = some s
last_name (c ∷ []) = none
last_name (c ∷ d ∷ cs) = last_name (d ∷ cs)

-- `Path::file_name`.
unfoldable pub file_name : Text → Option Text
unfolding components last_name
file_name p = last_name (components p)

without_last : List Component → List Component
without_last [] = []
without_last (c ∷ []) = []
without_last (c ∷ d ∷ cs) = c ∷ without_last (d ∷ cs)

-- `Path::parent`: `none` for the empty path and for the root.
unfoldable pub parent : Text → Option (List Component)
unfolding components without_last
parent p = elim (components p) [
  | [] ↦ none
  | c ∷ cs ↦ if components_eq (c ∷ cs) (root_dir ∷ []) then none else some (without_last (c ∷ cs))
]
