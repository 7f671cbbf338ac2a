-- ===== src/Rules/Evaluate.antt =====
-- `evaluate` against what it means: a deny wins, whatever the order of the rules.
use mathlib.Core.Logic.{∥∥₁_elim}
use mathlib.Core.Path.{ap₂}
use mathlib.Core.List.{Perm, Permᴰ}
use filewall.Prelude.{
  ℕ, Bool, true, false, ◌||◌, Option, none, some, List, [], ◌∷◌, ◌≡◌, ◌↔◌, ◌∙◌, refl, arith, Text,
  Memᴰ, Bool-cases, inl, inr, ◌&&◌, any, any-true, any_witness, any-snoc, if◌then◌else◌, sym,
}
use filewall.Rules.{
  RuleAction, allow, deny, LearnedRule, Rules, matches, evaluate_from, evaluate, push,
}

abbrev is_deny : RuleAction → Bool
is_deny deny = true
is_deny allow = false

module _ (path exe : Text) (cwd : Option Text) where
  abbrev denies_here : LearnedRule → Bool
  denies_here r = matches r path exe cwd && is_deny r.action

  -- Some rule matches the access and denies it.
  abbrev denies : List LearnedRule → Bool
  denies = any denies_here

  -- Some rule matches the access.
  abbrev some_matches : List LearnedRule → Bool
  some_matches = any (λ r. matches r path exe cwd)

-- The verdict, said without a loop.
abbrev verdict : Bool → Bool → Option RuleAction
verdict true m = some deny
verdict false true = some allow
verdict false false = none

evaluate_from_lem :
    (a : Bool) (rs : List LearnedRule) (path exe : Text) (cwd : Option Text)
    → evaluate_from a rs path exe cwd
      ≡ verdict (denies path exe cwd rs) (a || some_matches path exe cwd rs)
unfolding evaluate_from
evaluate_from_lem a [] path exe cwd = ground arith
evaluate_from_lem a (r ∷ rs) path exe cwd =
    ground (arith, evaluate_from_lem a rs path exe cwd, evaluate_from_lem true rs path exe cwd)

evaluate-verdict :
    (rs : Rules) (path exe : Text) (cwd : Option Text)
    → evaluate rs path exe cwd
      ≡ verdict (denies path exe cwd rs.rules) (some_matches path exe cwd rs.rules)
unfolding evaluate
evaluate-verdict rs path exe cwd = evaluate_from_lem false rs.rules path exe cwd

-- A rule of the list with the action `a` applies to the access.
pub record Applies (a : RuleAction) (rs : List LearnedRule) (path exe : Text) (cwd : Option Text)
    : Type 0 where
  pub rule : LearnedRule
  pub stands : Memᴰ rule rs
  pub fits : matches rule path exe cwd ≡ true
  pub acts : rule.action ≡ a

module _ (rs : Rules) (path exe : Text) (cwd : Option Text) where
  some_deny : denies path exe cwd rs.rules ≡ true → Applies deny rs.rules path exe cwd
  some_deny h =
      let (r, m, e) = any_witness (denies_here path exe cwd) rs.rules h in
      record { rule = r; stands = m; fits = ground arith; acts = ground arith }

  no_deny : denies path exe cwd rs.rules ≡ false → ¬ Applies deny rs.rules path exe cwd
  no_deny h a =
      ground (arith, any-true (denies_here path exe cwd) a.stands (ground (arith, a.fits, a.acts)))

  not_denied :
      {r : LearnedRule}
      → denies path exe cwd rs.rules ≡ false
      → Memᴰ r rs.rules
      → matches r path exe cwd ≡ true
      → r.action ≡ allow
  not_denied {r} h m e =
      ground (arith, Bool-cases (denies_here path exe cwd r), any-true (denies_here path exe cwd) m)

  some_allow :
      denies path exe cwd rs.rules ≡ false
      → some_matches path exe cwd rs.rules ≡ true
      → Applies allow rs.rules path exe cwd
  some_allow h k =
      let (r, m, e) = any_witness (λ r. matches r path exe cwd) rs.rules k in
      record { rule = r; stands = m; fits = e; acts = not_denied h m e }

  no_match :
      {a : RuleAction}
      → some_matches path exe cwd rs.rules ≡ false
      → ¬ Applies a rs.rules path exe cwd
  no_match h a = ground (arith, any-true (λ r. matches r path exe cwd) a.stands a.fits)

  -- `evaluate` gives deny exactly when a rule that applies denies; allow exactly when one that
  -- applies allows and none denies; and nothing exactly when no rule applies.
  pub evaluate_deny_wins :
      ((evaluate rs path exe cwd ≡ some deny) ↔ Applies deny rs.rules path exe cwd)
      × ((evaluate rs path exe cwd ≡ some allow)
          ↔ (Applies allow rs.rules path exe cwd × (¬ Applies deny rs.rules path exe cwd)))
      × ((evaluate rs path exe cwd ≡ none)
          ↔ ((¬ Applies allow rs.rules path exe cwd) × (¬ Applies deny rs.rules path exe cwd)))
  evaluate_deny_wins = elim (Bool-cases (denies path exe cwd rs.rules)) [
    | inl d ↦
        rw (evaluate-verdict, d)
          (
            (λ _. some_deny d, λ _. refl),
            (λ e. cc, λ (_, n). absurd (n (some_deny d))),
            (λ e. cc, λ (_, n). absurd (n (some_deny d))),
          )
    | inr d ↦ elim (Bool-cases (some_matches path exe cwd rs.rules)) [
      | inl m ↦
          rw (evaluate-verdict, d, m)
            (
              (λ e. cc, λ a. absurd (no_deny d a)),
              (λ e. (some_allow d m, no_deny d), λ _. refl),
              (λ e. cc, λ (n, _). absurd (n (some_allow d m))),
            )
      | inr m ↦
          rw (evaluate-verdict, d, m)
            (
              (λ e. cc, λ a. absurd (no_deny d a)),
              (λ e. cc, λ (a, _). absurd (no_match m a)),
              (λ e. (no_match m, no_match m), λ _. refl),
            )
    ]
  ]

any-Permᴰ : (p : LearnedRule → Bool) {xs ys : List LearnedRule} → Permᴰ xs ys → any p xs ≡ any p ys
any-Permᴰ p Permᴰ.nil = refl
any-Permᴰ p (Permᴰ.cons e h) = rw (e, any-Permᴰ p h)
any-Permᴰ p (Permᴰ.swap {a} {b} e f) =
    rw (← e, ← f) (ground (arith, Bool-cases (p a), Bool-cases (p b)))
any-Permᴰ p (Permᴰ.trans h k) = any-Permᴰ p h ∙ any-Permᴰ p k

pub verdict-set : IsSet (Option RuleAction)
verdict-set = hlevel

-- Two rule sets with the same rules, in whatever order and with whatever counters, give every
-- access the same verdict.
pub evaluate-perm :
    (rs ts : Rules) (path exe : Text) (cwd : Option Text)
    → Perm rs.rules ts.rules
    → evaluate rs path exe cwd ≡ evaluate ts path exe cwd
evaluate-perm rs ts path exe cwd h = ∥∥₁_elim h (verdict-set _ _) λ d.
    evaluate-verdict rs path exe cwd
    ∙ ap₂ verdict (any-Permᴰ (denies_here path exe cwd) d)
        (any-Permᴰ (λ r. matches r path exe cwd) d)
    ∙ sym (evaluate-verdict ts path exe cwd)

-- The verdict of a rule joined to that of the others.
abbrev pub join : RuleAction → Option RuleAction → Option RuleAction
join deny others = some deny
join allow (some deny) = some deny
join allow others = some allow

-- Pushing a rule changes the verdict of the accesses that it applies to, by a deny or, where no
-- deny stands, by an allow, and of no other access.
pub evaluate-push :
    (rs : Rules) (r : LearnedRule) (path exe : Text) (cwd : Option Text)
    → evaluate (push rs r) path exe cwd ≡ (
        if matches r path exe cwd
        then join r.action (evaluate rs path exe cwd)
        else evaluate rs path exe cwd)
unfolding push matches
evaluate-push rs r path exe cwd =
    rw (evaluate-verdict, evaluate-verdict, any-snoc, any-snoc) (ground arith)

-- A rule in front bears on the verdict as one behind does.
pub evaluate-cons :
    (next : ℕ) (r : LearnedRule) (rs : List LearnedRule) (path exe : Text) (cwd : Option Text)
    → evaluate (record { next_id = next; rules = r ∷ rs }) path exe cwd ≡ (
        if matches r path exe cwd
        then join r.action (evaluate (record { next_id = next; rules = rs }) path exe cwd)
        else evaluate (record { next_id = next; rules = rs }) path exe cwd)
unfolding matches
evaluate-cons next r rs path exe cwd = rw (evaluate-verdict, evaluate-verdict) (ground arith)
