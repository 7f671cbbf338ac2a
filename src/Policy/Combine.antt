-- ===== src/Policy/Combine.antt =====
-- `combine` and `Policy::evaluate` of filewalld/src/policy.rs against what they mean.
use filewall.Prelude.{
  Bool, true, false, Option, none, some, List, [], ◌∷◌, ◌++◌, ◌≡◌, ◌≢◌, ◌↔◌, ◌⊎◌, refl, arith, Text,
  All, find, if◌then◌else◌,
}
use filewall.Rules.{RuleAction}
use filewall.Policy.{Outcome, WatchPolicy, Policy, combine, from_action, covers, evaluate}

-- An access is denied exactly when one of the two verdicts is a deny, allowed exactly when one is
-- an allow and none a deny, and the user is asked exactly when neither decides.
pub combine_deny_wins :
    (cfg : Outcome) (learned : Option RuleAction)
    → ((combine cfg learned ≡ Outcome.deny)
        ↔ ((cfg ≡ Outcome.deny) ⊎ (learned ≡ some RuleAction.deny)))
      × ((combine cfg learned ≡ Outcome.allow) ↔ (
          ((cfg ≡ Outcome.allow) ⊎ (learned ≡ some RuleAction.allow))
          × (cfg ≢ Outcome.deny)
          × (learned ≢ some RuleAction.deny)))
      × ((combine cfg learned ≡ Outcome.prompt) ↔ ((cfg ≡ Outcome.prompt) × (learned ≡ none)))
unfolding combine
combine_deny_wins cfg learned = ground arith

find-skip :
    {A : Type 0} (p : A → Bool) (xs : List A) (x : A) (ys : List A)
    → All (λ y. p y ≡ false) xs
    → p x ≡ true
    → find p (xs ++ x ∷ ys) ≡ some x
find-skip p [] x ys h e = rw e refl
find-skip p (y ∷ xs) x ys h e = rw h.0 (find-skip p xs x ys h.1 e)

find-none : {A : Type 0} (p : A → Bool) (xs : List A) → All (λ y. p y ≡ false) xs → find p xs ≡ none
find-none p [] h = refl
find-none p (y ∷ xs) h = rw h.0 (find-none p xs h.1)

-- The first watch that covers the path decides, whatever later ones say: its allowlist first, then
-- its default action.
pub evaluate_first_covering :
    (before after : List WatchPolicy) (w : WatchPolicy) (path exe : Text)
    → All (λ v. covers v path ≡ false) before
    → covers w path ≡ true
    → evaluate (record { watches = before ++ w ∷ after }) path exe
      ≡ (if w.allow.is_match exe then Outcome.allow else from_action w.default_action)
unfolding evaluate
evaluate_first_covering before after w path exe h e =
    rw (find-skip (λ v. covers v path) before w after h e) refl

-- A path that no watch covers is allowed.
pub evaluate_uncovered :
    (p : Policy) (path exe : Text)
    → All (λ v. covers v path ≡ false) p.watches
    → evaluate p path exe ≡ Outcome.allow
unfolding evaluate
evaluate_uncovered p path exe h = rw (find-none (λ v. covers v path) p.watches h) refl
