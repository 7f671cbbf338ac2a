-- ===== src/Tests/Globs.antt =====
-- The patterns of the unit tests of filewalld, with what the crate globset documents that they match:
-- `*` goes on up to a `/`, a leading `**/` stands for any directories, and a trailing `**` for
-- anything. A pattern with a `[` that is not closed is refused.
use filewall.Policy.{GlobLib}
use filewall.Prelude.{
  Bool, true, false, not, ◌&&◌, ◌||◌, List, [], ◌∷◌, Text, text, text_eq, ok, err, any, drop,
  length, is_nil, ◌==◌, if◌then◌else◌,
}
use filewall.Tests.{begins}

pub data Piece : Type 0 where
  lit : Text → Piece
  star any_dirs anything : Piece

-- Here or behind so many characters, none of which is a `/`.
abbrev within : (Text → Bool) → Text → Bool
within f [] = f []
within f (c ∷ cs) = f (c ∷ cs) || (not (c == b'/') && within f cs)

-- Behind one of the `/`.
abbrev behind : (Text → Bool) → Text → Bool
behind f [] = false
behind f (c ∷ cs) = (c == b'/' && f cs) || behind f cs

abbrev fits : List Piece → Text → Bool
fits [] s = is_nil s
fits (lit t ∷ ps) s = begins t s && fits ps (drop (length t) s)
fits (star ∷ ps) s = within (fits ps) s
fits (any_dirs ∷ ps) s = fits ps s || behind (fits ps) s
fits (anything ∷ ps) s = true

abbrev table : List (Text × List Piece)
table =
    (text "/usr/bin/ssh-*", lit (text "/usr/bin/ssh-") ∷ star ∷ [])
    ∷ (text "/usr/lib/openssh/*", lit (text "/usr/lib/openssh/") ∷ star ∷ [])
    ∷ (
      text "/usr/lib/python*/site-packages/awscli/**",
      lit (text "/usr/lib/python") ∷ star ∷ lit (text "/site-packages/awscli/") ∷ anything ∷ [],
    )
    ∷ (text "**/Cache", any_dirs ∷ lit (text "Cache") ∷ [])
    ∷ (text "**/*.tmp", any_dirs ∷ star ∷ lit (text ".tmp") ∷ [])
    ∷ (text "*_history", star ∷ lit (text "_history") ∷ [])
    ∷ (text "**/*_history", any_dirs ∷ star ∷ lit (text "_history") ∷ [])
    ∷ []

-- Any other pattern is taken as it stands.
abbrev pieces : List (Text × List Piece) → Text → List Piece
pieces [] pat = lit pat ∷ []
pieces ((name, ps) ∷ rest) pat = if text_eq pat name then ps else pieces rest pat

abbrev pub globs : GlobLib
globs = record {
  build = λ pat.
      if any (λ c. c == b'[') pat
      then err (text "unclosed character class")
      else ok (record { is_match = fits (pieces table pat) });
  build_set =
      λ gs. ok (record { is_match = λ p. any (λ g. g.is_match p) gs; is_empty = is_nil gs });
}
