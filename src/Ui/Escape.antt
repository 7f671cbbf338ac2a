-- ===== src/Ui/Escape.antt =====
-- `pango_escape` of filewall-ui/src/main.rs leaves no markup, and loses nothing.
use mathlib.Core.List.{append_assoc}
use filewall.Prelude.{
  ℕ, Bool, ◌||◌, [], ◌∷◌, ◌++◌, Text, text, ◌==◌, if◌then◌else◌, keep_if, ◌≡◌, ◌≢◌, refl, ◌∙◌,
  arith, sym,
}
use filewall.Ui.{replace, pango_escape}

-- What one character becomes.
entity : ℕ → Text
entity c =
    if c == b'&'
    then text "&amp;"
    else if c == b'<'
    then text "&lt;"
    else if c == b'>'
    then text "&gt;"
    else c ∷ []

replace-append : (c : ℕ) (by s t : Text) → replace c by (s ++ t) ≡ replace c by s ++ replace c by t
unfolding replace
replace-append c by [] t = refl
replace-append c by (a ∷ s) t = rw (replace-append c by s t, append_assoc) refl

pango_escape_cons : (c : ℕ) (s : Text) → pango_escape (c ∷ s) ≡ entity c ++ pango_escape s
unfolding pango_escape replace entity
pango_escape_cons c s = rw (replace-append, replace-append) (ground arith)

abbrev pub is_angle : ℕ → Bool
is_angle c = (c == b'<') || (c == b'>')

pub keep_if-append : (p : ℕ → Bool) (s t : Text) → keep_if p (s ++ t) ≡ keep_if p s ++ keep_if p t
keep_if-append p [] t = refl
keep_if-append p (c ∷ s) t = ground (arith, keep_if-append p s t)

entity_no_angles : (c : ℕ) → keep_if is_angle (entity c) ≡ []
unfolding entity
entity_no_angles c = ground arith

pub no_angles : (s : Text) → keep_if is_angle (pango_escape s) ≡ []
unfolding pango_escape
no_angles [] = refl
no_angles (c ∷ s) = rw (pango_escape_cons c s, keep_if-append, entity_no_angles, no_angles s) refl

entity_first : (c d : ℕ) (s t : Text) → entity c ++ s ≡ entity d ++ t → (c ≡ d) × (s ≡ t)
unfolding entity
entity_first c d s t h = ground arith

escaped_not_empty : (c : ℕ) (s : Text) → entity c ++ s ≢ []
unfolding entity
escaped_not_empty c s h = ground arith

pango_escape_nil : pango_escape [] ≡ []
unfolding pango_escape
pango_escape_nil = refl

injective : (s t : Text) → pango_escape s ≡ pango_escape t → s ≡ t
injective [] [] h = refl
injective [] (d ∷ t) h =
    absurd (
      escaped_not_empty d (pango_escape t) (sym (pango_escape_cons d t) ∙ sym h ∙ pango_escape_nil))
injective (c ∷ s) [] h =
    absurd
      (escaped_not_empty c (pango_escape s) (sym (pango_escape_cons c s) ∙ h ∙ pango_escape_nil))
injective (c ∷ s) (d ∷ t) h =
    let (e, f) =
      entity_first c d (pango_escape s) (pango_escape t)
        (sym (pango_escape_cons c s) ∙ h ∙ pango_escape_cons d t) in
    rw (e, injective s t f) refl

-- An escaped text has no angle bracket left, and different texts are escaped to different texts.
pub pango_escape_safe :
    (s t : Text)
    → (keep_if is_angle (pango_escape s) ≡ []) × (pango_escape s ≡ pango_escape t → s ≡ t)
pango_escape_safe s t = (no_angles s, injective s t)
