-- ===== src/Policy/Learn.antt =====
-- The rule that an "Always" answer stores, `learned_rule` of filewalld/src/policy.rs, and the
-- accesses that it decides from then on.
use filewall.FilePath.{path_eq, starts_with}
use filewall.FilePath.Laws.{path_eq_refl}
use filewall.Prelude.{
  ℕ, Bool, true, false, Option, some, ◌≡◌, ◌↔◌, refl, arith, Text, text_eq_iff, option_text_eq_iff,
}
use filewall.Rules.{RuleAction, ObjectKind, file, tree, matches}
use filewall.Policy.{WatchPolicy, learned_rule, covers}

-- Is `path` within the object that the watch learns from an access of `seen`?
abbrev pub in_scope : ObjectKind → Text → Text → Text → Bool
in_scope tree root seen path = starts_with path root
in_scope file root seen path = path_eq path seen

abbrev pub FromCwd : Bool → Text → Option Text → Type 0
FromCwd true cwd c = c ≡ some cwd
FromCwd false cwd c = Unit

module _ (now : ℕ) (w : WatchPolicy) (a : RuleAction) (exe seen cwd : Text) where
  -- The learned rule applies exactly to accesses by the same executable, to the same file or, where
  -- the watch learns trees, to a file under its root, and from the same directory where the watch
  -- pins that.
  pub learned_rule-matches :
      (path e : Text) (c : Option Text)
      → (matches (learned_rule now w a exe seen (some cwd)) path e c ≡ true) ↔ (
          (e ≡ exe) × (in_scope w.learn_object w.root seen path ≡ true) × FromCwd w.learn_cwd cwd c)
  unfolding learned_rule matches
  learned_rule-matches path e c = ground (arith, text_eq_iff exe e, option_text_eq_iff c (some cwd))

  -- It applies to the access that it was learned from.
  pub learned_rule_fits_its_access :
      covers w seen ≡ true
      → matches (learned_rule now w a exe seen (some cwd)) seen exe (some cwd) ≡ true
  unfolding covers
  learned_rule_fits_its_access h =
      (learned_rule-matches seen exe (some cwd)).1
        (refl, ground (arith, path_eq_refl seen), ground arith)
