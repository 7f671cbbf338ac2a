-- ===== src/Examples/RuleFile.antt =====
-- A form of rule files in numbers, for rules that are not limited to a directory, which reads back.
use filewall.Examples.Samples.{action_code, action_of, action_back, kind_code, kind_of, kind_back}
use filewall.Prelude.{
  ℕ, zero, suc, Option, none, some, List, [], ◌∷◌, ◌++◌, Text, take, drop, length, take-append,
  drop-append, ◌≡◌, refl,
}
use filewall.Rules.{LearnedRule, Rules}
use filewall.Rules.Disk.{Toml, ReadsBack}

abbrev put_rule : LearnedRule → Option Text → Option Text → Option Text
put_rule r none (some rest) = some (
    r.id
    ∷ r.created_unix
    ∷ action_code r.action
    ∷ kind_code r.object_kind
    ∷ length r.exe
    ∷ length r.object
    ∷ (r.exe ++ (r.object ++ rest)))
put_rule r _ _ = none

abbrev put_rules : List LearnedRule → Option Text
put_rules [] = some []
put_rules (r ∷ rs) = put_rule r r.cwd (put_rules rs)

abbrev headed : Rules → Option Text → Option Text
headed rs none = none
headed rs (some t) = some (rs.next_id ∷ length rs.rules ∷ t)

abbrev with_first : LearnedRule → Option (List LearnedRule) → Option (List LearnedRule)
with_first r none = none
with_first r (some rs) = some (r ∷ rs)

abbrev take_rules : ℕ → Text → Option (List LearnedRule)
take_rules zero t = some []
take_rules (suc n) (i ∷ c ∷ a ∷ k ∷ le ∷ lo ∷ t) =
    with_first
      (record {
        id = i;
        created_unix = c;
        action = action_of a;
        exe = take le t;
        object = take lo (drop le t);
        object_kind = kind_of k;
        cwd = none;
      })
      (take_rules n (drop lo (drop le t)))
take_rules (suc n) _ = none

abbrev with_counter : ℕ → Option (List LearnedRule) → Option Rules
with_counter next none = none
with_counter next (some rs) = some (record { next_id = next; rules = rs })

abbrev read_file : Text → Option Rules
read_file (next ∷ n ∷ t) = with_counter next (take_rules n t)
read_file _ = none

abbrev pub rules_toml : Toml
rules_toml = record { to_string = λ rs. headed rs (put_rules rs.rules); from_str = read_file }

put_rule-some :
    (r : LearnedRule) (cwd rest : Option Text) (t : Text)
    → put_rule r cwd rest ≡ some t
    → (u : Text) × (cwd ≡ none)
      × (rest ≡ some u)
      × (t
          ≡ r.id
            ∷ r.created_unix
            ∷ action_code r.action
            ∷ kind_code r.object_kind
            ∷ length r.exe
            ∷ length r.object
            ∷ (r.exe ++ (r.object ++ u)))
put_rule-some r none (some u) t h = (u, refl, refl, cc)
put_rule-some r none none t h = cc
put_rule-some r (some cwd) rest t h = cc

take-put_rules :
    (rs : List LearnedRule) (t : Text) → put_rules rs ≡ some t → take_rules (length rs) t ≡ some rs
take-put_rules [] t h = refl
take-put_rules (r ∷ rs) t h =
    let (u, free, rest, layout) = put_rule-some r r.cwd (put_rules rs) t h in
    rw
      (
        layout,
        take-append r.exe (r.object ++ u),
        drop-append r.exe (r.object ++ u),
        take-append r.object u,
        drop-append r.object u,
        action_back r.action,
        kind_back r.object_kind,
        take-put_rules rs u rest,
        ← free,
      )
      refl

headed-read :
    (rs : Rules) (o : Option Text) (t : Text)
    → put_rules rs.rules ≡ o
    → headed rs o ≡ some t
    → read_file t ≡ some rs
headed-read rs none t e h = cc
headed-read rs (some u) t e h =
    let same : t ≡ rs.next_id ∷ length rs.rules ∷ u = cc in
    rw (same, take-put_rules rs.rules u e) refl

pub rules_toml-ReadsBack : ReadsBack rules_toml
rules_toml-ReadsBack rs t h = headed-read rs (put_rules rs.rules) t refl h
