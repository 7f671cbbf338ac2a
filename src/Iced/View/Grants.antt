-- ===== src/Iced/View/Grants.antt =====
-- What a press of a button grants is what the window says.
use filewall.Iced.{Scope, file, tree}
use filewall.Iced.App.{decide}
use filewall.Iced.View.{View}
use filewall.Prelude.{
  ℕ, Bool, true, false, List, ◌∷◌, ◌++◌, some, [], Text, text, get_elem?, ◌≡◌, if◌then◌else◌,
}
use filewall.Proto.{Decision}

-- The button, its label, and what it does.
abbrev pub IsButton : View → ℕ → Text → Decision → Type 0
IsButton v n label d = get_elem? v.buttons n ≡ some (label, decide d)

-- What the window has to say of an "Always allow": everything below the object, or the object alone.
abbrev pub label_for : Bool → Text
label_for true = text "Always allow ALL"
label_for false = text "Always allow file"

abbrev pub warning_for : Bool → Text → List Text
warning_for true object =
    text "\"Always allow\" GRANTS ACCESS TO ALL FILES"
    ∷ (text "    under " ++ (object ++ text " — every subfolder, not just the requested file."))
    ∷ []
warning_for false object =
    text "\"Always allow\" remembers only this one file:" ∷ (text "    " ++ object) ∷ []

scope_of : Bool → Scope
scope_of in_tree = if in_tree then tree else file
