-- ===== src/Fanotify/Calls.antt =====
-- The calls of filewalld/src/fanotify.rs other than the parser: marks, with `fanotify_mark` as a
-- parameter that says whether it succeeds, and the command line of a process from its bytes.
use filewall.Marks.All.{Fan}
use filewall.Proto.Frame.{ErrorKind}
use filewall.Prelude.{
  map, ℕ, ◌+◌, Bool, false, not, Option, none, some, List, [], ◌∷◌, ◌++◌, Text, text, any, keep_if,
  is_nil, ◌==◌, if◌then◌else◌, ◌≡◌, refl,
}

-- FAN_CLOEXEC, FAN_CLASS_CONTENT and FAN_REPORT_PIDFD, of which no two have a bit in common.
abbrev init_flags : ℕ
init_flags = 0x1 + 0x4 + 0x80

abbrev o_rdonly : ℕ
o_rdonly = 0

-- `init`, where `fanotify_init` gives the error of a call that fails.
unfoldable pub init : (ℕ → ℕ → Option ErrorKind) → Option ErrorKind
init fanotify_init = fanotify_init init_flags o_rdonly

abbrev fan_open_perm : ℕ
fan_open_perm = 0x10000

abbrev fan_event_on_child : ℕ
fan_event_on_child = 0x8000000

module _ (fanotify_mark : Text → ℕ → Bool) where
  -- `mark`: a path with a NUL is refused before the call. The result says whether it went through.
  mark : Text → ℕ → Bool
  mark path mask = if any (λ c. c == 0) path then false else fanotify_mark path mask

  mark_file : Text → Bool
  unfolding mark
  mark_file path = mark path fan_open_perm

  -- The masks have no bit in common, so `|` is their sum.
  mark_dir : Text → Bool
  unfolding mark
  mark_dir path = mark path (fan_open_perm + fan_event_on_child)

  -- The group as the rest of the program uses it.
  unfoldable pub fanotify : Fan
  unfolding mark_file mark_dir
  fanotify = record { mark_file = mark_file; mark_dir = mark_dir }

abbrev onto_first : ℕ → List (List ℕ) → List (List ℕ)
onto_first b [] = (b ∷ []) ∷ []
onto_first b (s ∷ rest) = (b ∷ s) ∷ rest

-- The pieces between the NULs: one more than there are NULs.
split_nul : List ℕ → List (List ℕ)
split_nul [] = [] ∷ []
split_nul (b ∷ bs) = let rest = split_nul bs in if b == 0 then [] ∷ rest else onto_first b rest

joined : List Text → Text
joined [] = []
joined (s ∷ []) = s
joined (s ∷ t ∷ rest) = s ++ (b' ' ∷ joined (t ∷ rest))

-- `Event::cmdline`, where `from_utf8_lossy` is the parameter.
unfoldable pub cmdline : (List ℕ → Text) → Option (List ℕ) → Text
unfolding split_nul joined
cmdline from_utf8_lossy none = []
cmdline from_utf8_lossy (some bytes) =
    joined (map from_utf8_lossy (keep_if (λ s. not (is_nil s)) (split_nul bytes)))

-- A command line as the kernel gives it, with an empty argument and a NUL at its end.
cat_line : cmdline (λ b. b) (some (99 ∷ 97 ∷ 116 ∷ 0 ∷ 0 ∷ 47 ∷ 97 ∷ 0 ∷ [])) ≡ text "cat /a"
unfolding cmdline
cat_line = refl
