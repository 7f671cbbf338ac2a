-- ===== src/Tests/Rules.antt =====
-- The tests of filewall-rules/src/lib.rs. The file that they write is a file of the model, in the
-- form that Examples/Samples has for a single rule.
use filewall.Examples.Samples.{one_rule_toml, no_files}
use filewall.Prelude.{
  ℕ, true, false, none, some, List, [], ◌∷◌, map, take, length, Text, text, text_eq, option_text_eq,
  ok, ◌≡◌, refl,
}
use filewall.FilePath.{starts_with, path_eq}
use filewall.Rules.{
  allow, deny, LearnedRule, tree, file, Rules, default, matches, push, evaluate, backfill_ids,
  assign_ids, alloc_id,
}
use filewall.Rules.Disk.{
  Toml, Stamp, no_faults, save_atomic, load, write_file, rename_file, tmp_path, parent_dir_of,
}

abbrev tree_allow : Text → Text → LearnedRule
tree_allow exe root = record {
  id = 0;
  created_unix = 0;
  action = allow;
  exe = exe;
  object = root;
  object_kind = tree;
  cwd = none;
}

abbrev two_pushed : Rules
two_pushed =
    push (push default (tree_allow (text "/usr/bin/a") (text "/x")))
      (tree_allow (text "/usr/bin/b") (text "/y"))

abbrev ids : Rules → List ℕ
ids rs = map (λ r. r.id) rs.rules

abbrev stamp : Stamp
stamp = record { pid = 1; secs = 2; nanos = 3 }

abbrev rules_file : Text
rules_file = text "/tmp/rules.toml"

abbrev TreeRuleMatchesSubpathSameExe : Type 0
TreeRuleMatchesSubpathSameExe =
    (matches (tree_allow (text "/usr/bin/git") (text "/home/u/.ssh"))
        (text "/home/u/.ssh/id_ed25519") (text "/usr/bin/git") none
      ≡ true)
    × (matches (tree_allow (text "/usr/bin/git") (text "/home/u/.ssh")) (text "/home/u/.aws/creds")
          (text "/usr/bin/git") none
        ≡ false)
    × (matches (tree_allow (text "/usr/bin/git") (text "/home/u/.ssh"))
          (text "/home/u/.ssh/id_ed25519") (text "/usr/bin/node") none
        ≡ false)

tree_rule_matches_subpath_same_exe : TreeRuleMatchesSubpathSameExe
unfolding matches push alloc_id evaluate backfill_ids assign_ids save_atomic load text_eq
    option_text_eq starts_with path_eq write_file rename_file tmp_path parent_dir_of
tree_rule_matches_subpath_same_exe = (refl, refl, refl)

abbrev FileRuleRequiresExactPath : Type 0
FileRuleRequiresExactPath =
    let r : LearnedRule = record (tree_allow (text "/usr/bin/git") (text "/home/u/.ssh")) {
      object = text "/home/u/.ssh/id_ed25519";
      object_kind = file;
    } in
    (matches r (text "/home/u/.ssh/id_ed25519") (text "/usr/bin/git") none ≡ true)
    × (matches r (text "/home/u/.ssh/other") (text "/usr/bin/git") none ≡ false)

file_rule_requires_exact_path : FileRuleRequiresExactPath
unfolding matches push alloc_id evaluate backfill_ids assign_ids save_atomic load text_eq
    option_text_eq starts_with path_eq write_file rename_file tmp_path parent_dir_of
file_rule_requires_exact_path = (refl, refl)

abbrev CwdConstraintMustMatchWhenPresent : Type 0
CwdConstraintMustMatchWhenPresent =
    let r : LearnedRule = record (tree_allow (text "/usr/bin/node") (text "/home/u/.ssh")) {
      cwd = some (text "/home/u/projects/foo");
    } in
    (matches r (text "/home/u/.ssh/k") (text "/usr/bin/node") (some (text "/home/u/projects/foo"))
      ≡ true)
    × (matches r (text "/home/u/.ssh/k") (text "/usr/bin/node") (some (text "/elsewhere")) ≡ false)
    × (matches r (text "/home/u/.ssh/k") (text "/usr/bin/node") none ≡ false)

cwd_constraint_must_match_when_present : CwdConstraintMustMatchWhenPresent
unfolding matches push alloc_id evaluate backfill_ids assign_ids save_atomic load text_eq
    option_text_eq starts_with path_eq write_file rename_file tmp_path parent_dir_of
cwd_constraint_must_match_when_present = (refl, refl, refl)

abbrev EvaluateIsDenyWins : Type 0
EvaluateIsDenyWins =
    let r : LearnedRule = tree_allow (text "/usr/bin/node") (text "/home/u/.ssh") in
    evaluate (push (push default r) (record r { action = deny })) (text "/home/u/.ssh/k")
      (text "/usr/bin/node") none
    ≡ some deny

evaluate_is_deny_wins : EvaluateIsDenyWins
unfolding matches push alloc_id evaluate backfill_ids assign_ids save_atomic load text_eq
    option_text_eq starts_with path_eq write_file rename_file tmp_path parent_dir_of
evaluate_is_deny_wins = refl

abbrev EvaluateReturnsNoneWhenNothingMatches : Type 0
EvaluateReturnsNoneWhenNothingMatches =
    evaluate default (text "/x") (text "/usr/bin/node") none ≡ none

evaluate_returns_none_when_nothing_matches : EvaluateReturnsNoneWhenNothingMatches
unfolding matches push alloc_id evaluate backfill_ids assign_ids save_atomic load text_eq
    option_text_eq starts_with path_eq write_file rename_file tmp_path parent_dir_of
evaluate_returns_none_when_nothing_matches = refl

abbrev SaveThenLoadRoundtrips : Type 0
SaveThenLoadRoundtrips =
    let (saved, files) =
      save_atomic one_rule_toml
        (push default (tree_allow (text "/usr/bin/git") (text "/home/u/.ssh"))) stamp no_faults
        no_files rules_file in
    let back = load one_rule_toml files rules_file in
    (saved ≡ ok tt)
    × (length back.rules ≡ 1)
    × (map (λ r. r.exe) back.rules ≡ text "/usr/bin/git" ∷ [])

save_then_load_roundtrips : SaveThenLoadRoundtrips
unfolding matches push alloc_id evaluate backfill_ids assign_ids save_atomic load text_eq
    option_text_eq starts_with path_eq write_file rename_file tmp_path parent_dir_of
save_then_load_roundtrips = (refl, refl, refl)

abbrev LoadMissingFileIsEmpty : Type 0
LoadMissingFileIsEmpty =
    (load one_rule_toml no_files (text "/nonexistent/filewall/rules.toml")).rules ≡ []

load_missing_file_is_empty : LoadMissingFileIsEmpty
unfolding matches push alloc_id evaluate backfill_ids assign_ids save_atomic load text_eq
    option_text_eq starts_with path_eq write_file rename_file tmp_path parent_dir_of
load_missing_file_is_empty = refl

abbrev BackfillAssignsSequentialIdsInOrder : Type 0
BackfillAssignsSequentialIdsInOrder =
    let rs = backfill_ids (record {
      next_id = default.next_id;
      rules =
          tree_allow (text "/usr/bin/a") (text "/x")
          ∷ tree_allow (text "/usr/bin/b") (text "/y")
          ∷ [];
    }) in
    (ids rs ≡ 1 ∷ 2 ∷ []) × (rs.next_id ≡ 3)

backfill_assigns_sequential_ids_in_order : BackfillAssignsSequentialIdsInOrder
unfolding matches push alloc_id evaluate backfill_ids assign_ids save_atomic load text_eq
    option_text_eq starts_with path_eq write_file rename_file tmp_path parent_dir_of
backfill_assigns_sequential_ids_in_order = (refl, refl)

abbrev BackfillPreservesExistingIdsAndAdvancesNextId : Type 0
BackfillPreservesExistingIdsAndAdvancesNextId =
    let rs = backfill_ids (record {
      next_id = default.next_id;
      rules =
          record (tree_allow (text "/usr/bin/a") (text "/x")) { id = 5 }
          ∷ tree_allow (text "/usr/bin/b") (text "/y")
          ∷ [];
    }) in
    (ids rs ≡ 5 ∷ 6 ∷ []) × (rs.next_id ≡ 7)

backfill_preserves_existing_ids_and_advances_next_id : BackfillPreservesExistingIdsAndAdvancesNextId
unfolding matches push alloc_id evaluate backfill_ids assign_ids save_atomic load text_eq
    option_text_eq starts_with path_eq write_file rename_file tmp_path parent_dir_of
backfill_preserves_existing_ids_and_advances_next_id = (refl, refl)

abbrev PushAllocatesAndBumpsNextId : Type 0
PushAllocatesAndBumpsNextId = (ids two_pushed ≡ 1 ∷ 2 ∷ []) × (two_pushed.next_id ≡ 3)

push_allocates_and_bumps_next_id : PushAllocatesAndBumpsNextId
unfolding matches push alloc_id evaluate backfill_ids assign_ids save_atomic load text_eq
    option_text_eq starts_with path_eq write_file rename_file tmp_path parent_dir_of
push_allocates_and_bumps_next_id = (refl, refl)

abbrev NoIdReuseAfterRemove : Type 0
NoIdReuseAfterRemove =
    ids (
      push (record two_pushed { rules = take 1 two_pushed.rules })
        (tree_allow (text "/usr/bin/c") (text "/z")))
    ≡ 1 ∷ 3 ∷ []

no_id_reuse_after_remove : NoIdReuseAfterRemove
unfolding matches push alloc_id evaluate backfill_ids assign_ids save_atomic load text_eq
    option_text_eq starts_with path_eq write_file rename_file tmp_path parent_dir_of
no_id_reuse_after_remove = refl

abbrev SaveLoadPreservesIdsAndNextId : Type 0
SaveLoadPreservesIdsAndNextId =
    let (saved, files) =
      save_atomic one_rule_toml
        (push default (tree_allow (text "/usr/bin/git") (text "/home/u/.ssh"))) stamp no_faults
        no_files rules_file in
    let back = load one_rule_toml files rules_file in
    (saved ≡ ok tt) × (ids back ≡ 1 ∷ []) × (back.next_id ≡ 2)

save_load_preserves_ids_and_next_id : SaveLoadPreservesIdsAndNextId
unfolding matches push alloc_id evaluate backfill_ids assign_ids save_atomic load text_eq
    option_text_eq starts_with path_eq write_file rename_file tmp_path parent_dir_of
save_load_preserves_ids_and_next_id = (refl, refl, refl)

-- A TOML crate that refuses the text.
abbrev refusing : Toml
refusing = record one_rule_toml { from_str = λ t. none }

abbrev LoadCorruptFileIsEmpty : Type 0
LoadCorruptFileIsEmpty =
    (load refusing (write_file no_files rules_file (text "this is not valid toml {{{"))
      rules_file).rules
    ≡ []

load_corrupt_file_is_empty : LoadCorruptFileIsEmpty
unfolding load write_file text_eq
load_corrupt_file_is_empty = refl
