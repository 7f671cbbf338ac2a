-- ===== src/Rules/Ids.antt =====
-- Stable ids: what `push` and `backfill_ids` promise of them.
use filewall.Prelude.{ℕ, ◌+◌, ◌≤◌, ◌<◌, max, List, [], ◌∷◌, ◌++◌, ◌≡◌, ◌≢◌, ◌⊎◌, arith, All}
use filewall.Rules.{LearnedRule, Rules, alloc_id, push, max_id}

-- The number of ids that a `u64` counter has.
abbrev pub id_space : ℕ
id_space = 18446744073709551616

-- No rule of the list has the id `x`.
abbrev pub Fresh : ℕ → List LearnedRule → Type 0
Fresh x = All (λ r. r.id ≢ x)

-- All ids lie below the counter.
abbrev pub Below : ℕ → List LearnedRule → Type 0
Below n = All (λ r. r.id < n)

-- No two rules share an id, but for the id 0, which means that there is none yet.
abbrev pub LoadedIds : List LearnedRule → Type 0
LoadedIds [] = Unit
LoadedIds (r ∷ rs) = ((r.id ≡ 0) ⊎ Fresh r.id rs) × LoadedIds rs

-- Every rule has an id from 1 on, and no two share one.
abbrev pub DistinctIds : List LearnedRule → Type 0
DistinctIds [] = Unit
DistinctIds (r ∷ rs) = (r.id ≢ 0) × Fresh r.id rs × DistinctIds rs

pub record IdsValid (rs : Rules) : Type 0 where
  pub below : Below rs.next_id rs.rules
  pub distinct : DistinctIds rs.rules

pub Below-mono : (n m : ℕ) (rs : List LearnedRule) → n ≤ m → Below n rs → Below m rs
Below-mono n m [] h b = tt
Below-mono n m (r ∷ rs) h b = (omega arith, Below-mono n m rs h b.1)

pub Below-Fresh : (n : ℕ) (rs : List LearnedRule) → Below n rs → Fresh n rs
Below-Fresh n [] b = tt
Below-Fresh n (r ∷ rs) b = (omega arith, Below-Fresh n rs b.1)

pub Below-max_id : (n : ℕ) (rs : List LearnedRule) → max_id rs < n → Below n rs
Below-max_id n [] h = tt
Below-max_id n (r ∷ rs) h = (omega arith, Below-max_id n rs (omega arith))

pub max_id-Below : (n : ℕ) (rs : List LearnedRule) → 0 < n → Below n rs → max_id rs < n
max_id-Below n [] h b = h
max_id-Below n (r ∷ rs) h b = omega (arith, max_id-Below n rs h b.1)

Below-snoc :
    (n : ℕ) (rs : List LearnedRule) (r : LearnedRule)
    → Below n rs
    → r.id < n
    → Below n (rs ++ r ∷ [])
Below-snoc n [] r b h = (h, tt)
Below-snoc n (s ∷ rs) r b h = (b.0, Below-snoc n rs r b.1 h)

Fresh-snoc :
    (x : ℕ) (rs : List LearnedRule) (r : LearnedRule)
    → Fresh x rs
    → r.id ≢ x
    → Fresh x (rs ++ r ∷ [])
Fresh-snoc x [] r b h = (h, tt)
Fresh-snoc x (s ∷ rs) r b h = (b.0, Fresh-snoc x rs r b.1 h)

DistinctIds-snoc :
    (rs : List LearnedRule) (r : LearnedRule)
    → DistinctIds rs
    → Below r.id rs
    → r.id ≢ 0
    → DistinctIds (rs ++ r ∷ [])
DistinctIds-snoc [] r d b h = (h, tt, tt)
DistinctIds-snoc (s ∷ rs) r d b h =
    (d.0, Fresh-snoc s.id rs r d.1 (omega arith), DistinctIds-snoc rs r d.2 b.1 h)

-- A rule that is pushed gets an id that no rule has, at or above the counter, and the ids stay
-- valid, while the counter has not run through all of `u64`.
pub push-IdsValid :
    (rs : Rules) (rule : LearnedRule)
    → IdsValid rs
    → rs.next_id + 2 < id_space
    → IdsValid (push rs rule)
      × (Fresh (alloc_id rs.next_id).0 rs.rules)
      × (rs.next_id ≤ (alloc_id rs.next_id).0)
      × ((alloc_id rs.next_id).0 < (push rs rule).next_id)
unfolding push
push-IdsValid rs rule v h = (
  record {
    below =
        Below-snoc _ rs.rules _ (Below-mono rs.next_id _ rs.rules (omega arith) v.below)
          (omega arith);
    distinct =
        DistinctIds-snoc rs.rules (record rule { id = max rs.next_id 1 }) v.distinct
          (Below-mono rs.next_id (max rs.next_id 1) rs.rules (omega arith) v.below) (omega arith);
  },
  Below-Fresh (max rs.next_id 1) rs.rules
      (Below-mono rs.next_id (max rs.next_id 1) rs.rules (omega arith) v.below),
  omega arith,
  omega arith,
)
