-- ===== src/Tests/Render.antt =====
-- The test of the table in filewallctl/src/render.rs. Those of JSON and YAML are tests of crates.
use filewall.Ctl.Render.{render_table}
use filewall.Prelude.{[], ◌∷◌, text, take, ◌≡◌, refl}
use filewall.Tests.{lines}

abbrev TableAlignsColumnsAndHasHeader : Type 0
TableAlignsColumnsAndHasHeader =
    let out =
      render_table (text "PATH" ∷ text "KIND" ∷ [])
        ((text "/a" ∷ text "dir" ∷ []) ∷ (text "/longer/path" ∷ text "file" ∷ []) ∷ []) in
    take 3 (lines out)
    ≡ text "PATH          KIND" ∷ text "/a            dir" ∷ text "/longer/path  file" ∷ []

table_aligns_columns_and_has_header : TableAlignsColumnsAndHasHeader
unfolding render_table
table_aligns_columns_and_has_header = refl
