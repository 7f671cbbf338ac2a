-- ===== src/Ui/Dialog.antt =====
-- The dialog of filewall-ui/src/main.rs: what the accessing process can put into it, and what the
-- answer of `yad` means.
use filewall.FilePath.{file_name}
use filewall.Prelude.Decimal.{decimal, digits_onto}
use filewall.Prelude.{
  ℕ, zero, suc, ◌+◌, ◌/◌, ◌%◌, Bool, true, false, Option, some, [], ◌∷◌, ◌++◌, Text, text, is_nil,
  if◌then◌else◌, keep_if, ◌≡◌, ◌↔◌, ◌⊎◌, refl, ap, ◌∙◌, arith,
}
use filewall.Proto.{PromptRequest, allows}
use filewall.Ui.{
  pango_escape, esc, abbrev_path, name_or, scope_text, cwd_text, dialog, build_dialog_text,
  classify,
}
use filewall.Ui.Escape.{is_angle, keep_if-append, no_angles}

digits_no_angles :
    (fuel n : ℕ) (rest : Text)
    → keep_if is_angle rest ≡ []
    → keep_if is_angle (digits_onto fuel n rest) ≡ []
unfolding digits_onto
digits_no_angles zero n rest h = h
digits_no_angles (suc fuel) n rest h =
    ground (arith, digits_no_angles fuel (n / 10) ((b'0' + n % 10) ∷ rest))

decimal_no_angles : (n : ℕ) → keep_if is_angle (decimal n) ≡ []
unfolding decimal
decimal_no_angles n = digits_no_angles (suc n) n [] refl

-- The tags of the text: what is left when all but the angle brackets is taken out.
abbrev pub angles : Text → Text
angles = keep_if is_angle

front : (s t : Text) → angles s ≡ [] → angles (s ++ t) ≡ angles t
front s t h = rw (keep_if-append, h) refl

angles-dialog :
    (proc_name path scope exe cwd_line pid cmdline : Text)
    → angles proc_name ≡ []
    → angles path ≡ []
    → angles exe ≡ []
    → angles cwd_line ≡ []
    → angles pid ≡ []
    → angles cmdline ≡ []
    → angles (dialog proc_name path scope exe cwd_line pid cmdline)
      ≡ text "<><><>" ++ (text "<>" ++ (angles scope ++ text "<><>"))
unfolding dialog
angles-dialog proc_name path scope exe cwd_line pid cmdline a b c d e f =
    rw
      (
        front proc_name _ a,
        front path _ b,
        keep_if-append is_angle scope _,
        front exe _ c,
        front cwd_line _ d,
        front pid _ e,
        front cmdline _ f,
      )
      refl

scope_angles :
    (tree : Bool) (object : Text)
    → angles object ≡ []
    → angles (scope_text tree object) ≡ (if tree then text "<><><><><><>" else [])
unfolding scope_text
scope_angles true object h = rw (front object _ h) refl
scope_angles false object h = h

cwd_angles : (pinned : Bool) (cwd : Text) → angles cwd ≡ [] → angles (cwd_text pinned cwd) ≡ []
unfolding cwd_text
cwd_angles true cwd h = h
cwd_angles false cwd h = refl

-- The angle brackets of the dialog depend on nothing but whether the answer covers a tree: no
-- path, command line or directory can add a tag to it or take one away.
pub dialog_markup_is_fixed :
    (req : PromptRequest) (home : Text)
    → angles (build_dialog_text req home)
      ≡ text "<><><>"
        ++ (text "<>" ++ ((if req.always_tree then text "<><><><><><>" else []) ++ text "<><>"))
unfolding build_dialog_text esc
dialog_markup_is_fixed req home =
    angles-dialog (pango_escape (name_or (file_name req.exe) req.exe)) (esc home req.path)
      (scope_text req.always_tree (esc home req.always_object)) (esc home req.exe)
      (cwd_text req.always_cwd_pinned (esc home req.cwd)) (decimal req.pid)
      (pango_escape (if is_nil req.cmdline then text "<unavailable>" else req.cmdline))
      (no_angles (name_or (file_name req.exe) req.exe)) (no_angles (abbrev_path req.path home))
      (no_angles (abbrev_path req.exe home))
      (cwd_angles req.always_cwd_pinned (esc home req.cwd) (no_angles (abbrev_path req.cwd home)))
      (decimal_no_angles req.pid)
      (no_angles (if is_nil req.cmdline then text "<unavailable>" else req.cmdline))
    ∙ ap (λ x. text "<><><>" ++ (text "<>" ++ (x ++ text "<><>")))
        (scope_angles req.always_tree (esc home req.always_object)
          (no_angles (abbrev_path req.always_object home)))

-- Access is allowed by the two "Allow" buttons alone: any other exit code of `yad`, or none, denies.
pub classify_fails_closed :
    (code : Option ℕ) → (allows (classify code) ≡ true) ↔ ((code ≡ some 10) ⊎ (code ≡ some 12))
unfolding classify allows
classify_fails_closed code = ground arith
