-- ===== src/Tests.antt =====
-- The repository's own unit tests, on the model: each is a statement, and its proof, by computation,
-- has the name of the test. What a test asks of a crate, of the kernel or of the clock is given.
-- The functions here stand for what the tests use of the standard library.
pub mod Rules
pub mod Proto
pub mod Globs
pub mod Trees
pub mod Config
pub mod Walk
pub mod TreeWatch
pub mod Watcher
pub mod Server
pub mod Policy
pub mod Patterns
pub mod Ui
pub mod Model
pub mod Theme
pub mod Format
pub mod Render
pub mod Ctl
pub mod Marks
use filewall.Prelude.{
  ℕ, Bool, true, false, ◌&&◌, ◌||◌, List, [], ◌∷◌, Text, Result, ok, err, is_nil, ◌==◌,
  if◌then◌else◌,
}

-- `str::starts_with`, with the text behind its beginning.
abbrev pub begins : Text → Text → Bool
begins [] s = true
begins (c ∷ cs) [] = false
begins (c ∷ cs) (d ∷ ds) = (c == d) && begins cs ds

-- `str::contains`, the text behind what is looked for.
abbrev pub has : Text → Text → Bool
has needle [] = is_nil needle
has needle (c ∷ cs) = begins needle (c ∷ cs) || has needle cs

abbrev pub ends : Text → Text → Bool
ends end [] = is_nil end
ends end (c ∷ cs) = (begins end (c ∷ cs) && begins (c ∷ cs) end) || ends end cs

abbrev onto_first : ℕ → List Text → List Text
onto_first c [] = (c ∷ []) ∷ []
onto_first c (l ∷ ls) = (c ∷ l) ∷ ls

-- The lines of a text; one that ends with a line break has an empty one behind it.
abbrev pub lines : Text → List Text
lines [] = [] ∷ []
lines (c ∷ cs) = let rest = lines cs in if c == 10 then [] ∷ rest else onto_first c rest

-- `unwrap`, and then.
abbrev pub after : {E A B : Type 0} → Result E A → (A → B) → Result E B
after (ok a) f = ok (f a)
after (err e) f = err e
