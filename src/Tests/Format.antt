-- ===== src/Tests/Format.antt =====
-- The tests of filewallctl/src/format.rs.
use filewall.Ctl.{table, json, yaml, parse_format}
use filewall.Prelude.{[], ◌∷◌, text, text_eq, ◌≡◌, refl}

abbrev DefaultIsTable : Type 0
DefaultIsTable = parse_format (text "dump" ∷ []) ≡ (table, text "dump" ∷ [])

default_is_table : DefaultIsTable
unfolding parse_format text_eq
default_is_table = refl

abbrev JsonFlagAnywhereIsExtracted : Type 0
JsonFlagAnywhereIsExtracted =
    parse_format (text "list" ∷ text "--json" ∷ text "/path" ∷ [])
    ≡ (json, text "list" ∷ text "/path" ∷ [])

json_flag_anywhere_is_extracted : JsonFlagAnywhereIsExtracted
unfolding parse_format text_eq
json_flag_anywhere_is_extracted = refl

abbrev LastFlagWins : Type 0
LastFlagWins = (parse_format (text "--json" ∷ text "dump" ∷ text "--yaml" ∷ [])).0 ≡ yaml

last_flag_wins : LastFlagWins
unfolding parse_format text_eq
last_flag_wins = refl

abbrev YamlFlag : Type 0
YamlFlag = parse_format (text "status" ∷ text "--yaml" ∷ []) ≡ (yaml, text "status" ∷ [])

yaml_flag : YamlFlag
unfolding parse_format text_eq
yaml_flag = refl
