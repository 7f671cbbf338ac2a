-- ===== src/Ctl/Main/Requests.antt =====
-- What the arguments of filewallctl ask for, told without the code's own parsers: numbers, the name of
-- a command, and the process that the pidfile names.
use filewall.Ctl.{parse_pidfile, pid_in, signalled, ℤ, send_sighup}
use filewall.Ctl.Main.{Machine, parse_ids, u64_space}
use filewall.Prelude.Decimal.{parse_unsigned}
use filewall.Prelude.{
  arith, false, Option-cases, ◌∙◌, ℕ, true, none, some, List, [], ◌∷◌, Text, text_eq, text_eq_iff,
  Result, ok, err, ◌≡◌, ◌⊎◌, inl, inr, refl, sym, subst,
}
use filewall.Rules.Disk.{Files}

pub none-ne-some : {A : Type 0} {x : A} → ¬ (none ≡ some x)
none-ne-some h = cc

pub nil-ne-cons : {A : Type 0} {x : A} {xs : List A} → ¬ ([] ≡ x ∷ xs)
nil-ne-cons h = cc

same_head : {A : Type 0} {x y : A} {xs ys : List A} → x ∷ xs ≡ y ∷ ys → x ≡ y
same_head h = cc

pub same_tail : {A : Type 0} {x y : A} {xs ys : List A} → x ∷ xs ≡ y ∷ ys → xs ≡ ys
same_tail h = cc

false-ne-true : ¬ (false ≡ true)
false-ne-true h = cc

pub not_word :
    (c : Text) (words : List Text) (w : Text) (more : List Text)
    → text_eq c w ≡ false
    → ¬ (c ∷ words ≡ w ∷ more)
not_word c words w more e h = false-ne-true (sym e ∙ (text_eq_iff c w).1 (same_head h))

pub other_word : (c w v : Text) → text_eq c w ≡ true → text_eq w v ≡ false → text_eq c v ≡ false
other_word c w v e k = subst (λ x. text_eq x v ≡ false) (sym ((text_eq_iff c w).0 e)) k

-- The words are numbers that a `u64` holds, each of them, in this order.
pub data Numbers : List Text → List ℕ → Type 0 where
  none_left : Numbers [] []
  number :
      {w : Text} {ws : List Text} {id : ℕ} {ids : List ℕ}
      → parse_unsigned u64_space w ≡ some id
      → Numbers ws ids
      → Numbers (w ∷ ws) (id ∷ ids)

pub parse_ids-Numbers :
    (words : List Text) (ids : List ℕ) → parse_ids words ≡ some ids → Numbers words ids
unfolding parse_ids
parse_ids-Numbers [] ids h = let e : ids ≡ [] = cc in rw e none_left
parse_ids-Numbers (w ∷ ws) ids h = elim (Option-cases (parse_unsigned u64_space w)) [
  | inl n ↦ absurd (ground (arith, n, h))
  | inr (id, n) ↦ elim (Option-cases (parse_ids ws)) [
    | inl k ↦ absurd (ground (arith, n, k, h))
    | inr (rest, k) ↦
        let e : ids ≡ id ∷ rest = ground (arith, n, k, h) in
        rw e (number n (parse_ids-Numbers ws rest k))
  ]
]

pub Numbers-parse_ids :
    {words : List Text} {ids : List ℕ} → Numbers words ids → parse_ids words ≡ some ids
unfolding parse_ids
Numbers-parse_ids none_left = refl
Numbers-parse_ids (number n more) = ground (arith, n, Numbers-parse_ids more)

kill_cases : {E : Type 0} (r : Result E (Unit {0})) → (r ≡ ok tt) ⊎ ((e : E) × (r ≡ err e))
kill_cases (ok tt) = inl refl
kill_cases (err e) = inr (e, refl)

-- The pidfile holds a number, and the process of that number could be signalled.
pub record Signalled (m : Machine) (fs : Files) (pidfile : Text) (pid : ℤ) : Type 0 where
  pub content : Text
  pub written : fs pidfile ≡ some content
  pub its_pid : parse_pidfile content ≡ some pid
  pub reached : m.kill pid ≡ ok tt

pub send_sighup-Signalled :
    (m : Machine) (fs : Files) (pidfile : Text) (pid : ℤ)
    → send_sighup m.toml m.kill fs pidfile ≡ some pid
    → Signalled m fs pidfile pid
unfolding send_sighup pid_in signalled
send_sighup-Signalled m fs pidfile pid h = elim (Option-cases (fs pidfile)) [
  | inl n ↦ absurd (ground (arith, n, h))
  | inr (content, n) ↦ elim (Option-cases (parse_pidfile content)) [
    | inl k ↦ absurd (ground (arith, n, k, h))
    | inr (p, k) ↦ elim (kill_cases (m.kill p)) [
      | inl e ↦
          let same : p ≡ pid = ground (arith, n, k, e, h) in
          record {
            content = content;
            written = n;
            its_pid = rw (← same) k;
            reached = rw (← same) e;
          }
      | inr (x, e) ↦ absurd (ground (arith, n, k, e, h))
    ]
  ]
]

pub Signalled-send_sighup :
    (m : Machine) (fs : Files) (pidfile : Text) (pid : ℤ)
    → Signalled m fs pidfile pid
    → send_sighup m.toml m.kill fs pidfile ≡ some pid
unfolding send_sighup pid_in signalled
Signalled-send_sighup m fs pidfile pid s = ground (arith, s.written, s.its_pid, s.reached)
