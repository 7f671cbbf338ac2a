-- ===== src/Rules/Unordered.antt =====
-- What the learned rules of filewall-rules/src/lib.rs promise, with no order among them: a counter
-- and a collection to which rules are added, from which they are taken, and which decides accesses.
use mathlib.Core.List.{Permᴰ, append-nil}
use mathlib.Core.List.Permᴰ
use mathlib.Core.Quot
use mathlib.Core.Quot.{Quot, Quot-set}
use filewall.Prelude.{
  Bool, true, false, Option, List, [], ◌∷◌, ◌++◌, ◌≡◌, ◌⊎◌, refl, subst, Text, Bool-cases, inl, inr,
  keep_if, if◌then◌else◌,
}
use filewall.Rules.{RuleAction, LearnedRule, Rules, matches, evaluate}
use filewall.Rules.Evaluate.{evaluate-perm, evaluate-cons, verdict-set, join}

-- Rules with no order among them; one may be there twice.
abbrev pub RuleBag : Type 0
RuleBag = Quot (Permᴰ {A = LearnedRule})

abbrev pub bag_of : List LearnedRule → RuleBag
bag_of = Quot.mk

unfoldable pub add : LearnedRule → RuleBag → RuleBag
add r = Quot.lift Quot-set (λ xs. bag_of (r ∷ xs)) (λ xs ys p. Quot.sound (Permᴰ.cons refl p))

swapped :
    (p : LearnedRule → Bool) (a b : LearnedRule) (l : List LearnedRule)
    → (p a ≡ true) ⊎ (p a ≡ false)
    → (p b ≡ true) ⊎ (p b ≡ false)
    → Permᴰ (keep_if p (a ∷ b ∷ l)) (keep_if p (b ∷ a ∷ l))
swapped p a b l (inl h) (inl k) = rw (h, k) (Permᴰ.swap refl refl)
swapped p a b l (inl h) (inr k) = rw (h, k) (Permᴰ.refl _)
swapped p a b l (inr h) (inl k) = rw (h, k) (Permᴰ.refl _)
swapped p a b l (inr h) (inr k) = rw (h, k) (Permᴰ.refl _)

pub keep_if-Permᴰ :
    (p : LearnedRule → Bool) {xs ys : List LearnedRule}
    → Permᴰ xs ys
    → Permᴰ (keep_if p xs) (keep_if p ys)
keep_if-Permᴰ p Permᴰ.nil = Permᴰ.nil
keep_if-Permᴰ p (Permᴰ.cons {a} {b} e h) = rw e (elim (Bool-cases (p b)) [
  | inl k ↦ rw k (Permᴰ.cons refl (keep_if-Permᴰ p h))
  | inr k ↦ rw k (keep_if-Permᴰ p h)
])
keep_if-Permᴰ p (Permᴰ.swap {a} {b} {l = l} e f) =
    rw (← e, ← f) (swapped p a b l (Bool-cases (p a)) (Bool-cases (p b)))
keep_if-Permᴰ p (Permᴰ.trans h k) = Permᴰ.trans (keep_if-Permᴰ p h) (keep_if-Permᴰ p k)

unfoldable pub keep : (LearnedRule → Bool) → RuleBag → RuleBag
keep p =
    Quot.lift Quot-set (λ xs. bag_of (keep_if p xs)) (λ xs ys h. Quot.sound (keep_if-Permᴰ p h))

abbrev listed : List LearnedRule → Rules
listed xs = record { next_id = 0; rules = xs }

-- The verdict on an access.
unfoldable pub decide : Text → Text → Option Text → RuleBag → Option RuleAction
decide path exe cwd =
    Quot.lift verdict-set (λ xs. evaluate (listed xs) path exe cwd)
      (λ xs ys h. evaluate-perm (listed xs) (listed ys) path exe cwd ∣ h ∣₁)

pub bag-snoc : (xs : List LearnedRule) (r : LearnedRule) → bag_of (xs ++ r ∷ []) ≡ add r (bag_of xs)
unfolding add
bag-snoc xs r =
    Quot.sound (subst (λ l. Permᴰ (xs ++ r ∷ []) (r ∷ l)) (append-nil xs) (Permᴰ.middle r xs []))

-- Rules may be added in any order.
pub add_comm : (a b : LearnedRule) (s : RuleBag) → add a (add b s) ≡ add b (add a s)
unfolding add
add_comm a b = Quot.ind (λ s. Quot-set _ _) (λ xs. Quot.sound (Permᴰ.swap refl refl))

-- An added rule bears on the accesses that it applies to and on no other.
pub decide-add :
    (r : LearnedRule) (s : RuleBag) (path exe : Text) (cwd : Option Text)
    → decide path exe cwd (add r s) ≡ (
        if matches r path exe cwd
        then join r.action (decide path exe cwd s)
        else decide path exe cwd s)
unfolding decide add
decide-add r s path exe cwd =
    Quot.ind
      (λ s. verdict-set (decide path exe cwd (add r s)) (
        if matches r path exe cwd
        then join r.action (decide path exe cwd s)
        else decide path exe cwd s))
      (λ xs. evaluate-cons 0 r xs path exe cwd) s

keep-add :
    (p : LearnedRule → Bool) (r : LearnedRule) (s : RuleBag)
    → keep p (add r s) ≡ (if p r then add r (keep p s) else keep p s)
unfolding keep add
keep-add p r s =
    Quot.ind (λ s. Quot-set (keep p (add r s)) (if p r then add r (keep p s) else keep p s))
      (λ xs. elim (Bool-cases (p r)) [ inl k ↦ rw k refl | inr k ↦ rw k refl ]) s

pub decide-bag_of :
    (rs : Rules) (path exe : Text) (cwd : Option Text)
    → decide path exe cwd (bag_of rs.rules) ≡ evaluate rs path exe cwd
unfolding decide evaluate
decide-bag_of rs path exe cwd = refl
