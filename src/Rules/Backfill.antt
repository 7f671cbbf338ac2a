-- ===== src/Rules/Backfill.antt =====
-- `backfill_ids` gives an id to each rule that has none, and touches nothing else.
use filewall.Prelude.{
  ℕ, ◌+◌, ◌≤◌, ◌<◌, max, List, [], ◌∷◌, ◌≡◌, ◌≢◌, inl, inr, refl, arith, ◌==◌, Bool-cases, length,
}
use filewall.Rules.{LearnedRule, Rules, assign_ids, backfill_ids, max_id, u64}
use filewall.Rules.Ids.{
  id_space, Fresh, Below, LoadedIds, DistinctIds, IdsValid, Below-mono, Below-Fresh, Below-max_id,
  max_id-Below,
}

-- The lists hold the same rules in the same order; a rule that had an id has it still.
abbrev pub SameRules : List LearnedRule → List LearnedRule → Type 0
SameRules [] [] = Unit
SameRules (r ∷ rs) (s ∷ ss) =
    (s ≡ record r { id = s.id }) × (r.id ≢ 0 → s.id ≡ r.id) × SameRules rs ss
SameRules _ _ = ⊥

abbrev Fits : ℕ → List LearnedRule → Type 0
Fits next rs = next + length rs < id_space

assign_ids-Fresh :
    (x next : ℕ) (rs : List LearnedRule)
    → Fits next rs
    → x < next
    → Fresh x rs
    → Fresh x (assign_ids next rs).rules
unfolding assign_ids
assign_ids-Fresh x next [] f h d = tt
assign_ids-Fresh x next (r ∷ rs) f h d =
    ground (arith, assign_ids-Fresh x next rs, assign_ids-Fresh x (next + 1) rs)

assign_ids-grows :
    (next : ℕ) (rs : List LearnedRule)
    → Fits next rs
    → (next ≤ (assign_ids next rs).next_id) × ((assign_ids next rs).next_id ≤ next + length rs)
unfolding assign_ids
assign_ids-grows next [] f = omega arith
assign_ids-grows next (r ∷ rs) f =
    ground (arith, assign_ids-grows next rs, assign_ids-grows (next + 1) rs)

assign_ids-Below :
    (next : ℕ) (rs : List LearnedRule)
    → Fits next rs
    → Below next rs
    → Below (assign_ids next rs).next_id (assign_ids next rs).rules
unfolding assign_ids
assign_ids-Below next [] f b = tt
assign_ids-Below next (r ∷ rs) f b = ground (
  arith,
  assign_ids-grows next rs,
  assign_ids-grows (next + 1) rs,
  assign_ids-Below next rs,
  assign_ids-Below (next + 1) rs,
  Below-mono next (next + 1) rs,
)

assign_ids-DistinctIds :
    (next : ℕ) (rs : List LearnedRule)
    → Fits next rs
    → 0 < next
    → Below next rs
    → LoadedIds rs
    → DistinctIds (assign_ids next rs).rules
unfolding assign_ids
assign_ids-DistinctIds next [] f p b d = tt
assign_ids-DistinctIds next (r ∷ rs) f p b d = ground (
  arith,
  assign_ids-DistinctIds next rs,
  assign_ids-DistinctIds (next + 1) rs,
  Below-mono next (next + 1) rs,
  Below-Fresh next rs,
  assign_ids-Fresh next (next + 1) rs,
  assign_ids-Fresh r.id next rs,
)

assign_ids-SameRules : (next : ℕ) (rs : List LearnedRule) → SameRules rs (assign_ids next rs).rules
unfolding assign_ids
assign_ids-SameRules next [] = tt
assign_ids-SameRules next (r ∷ rs) = elim (Bool-cases (r.id == 0)) [
  | inl e ↦ rw e (refl, λ n. absurd (ground arith), assign_ids-SameRules (u64 (next + 1)) rs)
  | inr e ↦ rw e (refl, λ n. refl, assign_ids-SameRules next rs)
]

-- The counter that `backfill_ids` starts from.
abbrev start : Rules → ℕ
start rs = max rs.next_id (u64 (max_id rs.rules + 1))

-- There are ids left for every rule of the file.
pub record HasRoom (rs : Rules) : Type 0 where
  pub ids : max_id rs.rules + 1 + length rs.rules < id_space
  pub counter : rs.next_id + length rs.rules < id_space

start_bounds : (rs : Rules) → HasRoom rs → Fits (start rs) rs.rules × (max_id rs.rules < start rs)
start_bounds rs h = (omega arith, omega arith)

-- On a file whose ids are distinct but for rules that have none, and with ids left, the result has
-- valid ids, holds the same rules in the same order, keeps the ids that were there, and the counter
-- never goes down.
pub backfill_ids-IdsValid :
    (rs : Rules)
    → HasRoom rs
    → LoadedIds rs.rules
    → IdsValid (backfill_ids rs)
      × SameRules rs.rules (backfill_ids rs).rules
      × (rs.next_id ≤ (backfill_ids rs).next_id)
unfolding backfill_ids
backfill_ids-IdsValid rs h d =
    let (f, m) = start_bounds rs h in
    let b = Below-max_id (start rs) rs.rules m in
    (
      record {
        below = assign_ids-Below (start rs) rs.rules f b;
        distinct = assign_ids-DistinctIds (start rs) rs.rules f (omega arith) b d;
      },
      assign_ids-SameRules (start rs) rs.rules,
      omega (arith, assign_ids-grows (start rs) rs.rules f),
    )

assign_ids_unchanged :
    (next : ℕ) (rs : List LearnedRule)
    → DistinctIds rs
    → assign_ids next rs ≡ record { next_id = next; rules = rs }
unfolding assign_ids
assign_ids_unchanged next [] d = refl
assign_ids_unchanged next (r ∷ rs) d = ground (arith, assign_ids_unchanged next rs)

-- Where all ids are valid, with a counter that is in use and in range, nothing changes.
pub backfill_ids_unchanged :
    (rs : Rules) → IdsValid rs → 0 < rs.next_id → rs.next_id < id_space → backfill_ids rs ≡ rs
unfolding backfill_ids
backfill_ids_unchanged rs v p h =
    let same : start rs ≡ rs.next_id = omega (arith, max_id-Below rs.next_id rs.rules p v.below) in
    rw same (assign_ids_unchanged rs.next_id rs.rules v.distinct)

backfill_ids-counter :
    (rs : Rules)
    → HasRoom rs
    → (0 < (backfill_ids rs).next_id) × ((backfill_ids rs).next_id < id_space)
unfolding backfill_ids
backfill_ids-counter rs h =
    omega (arith, assign_ids-grows (start rs) rs.rules (start_bounds rs h).0)

-- A second pass changes nothing: whoever loads the file, once or again, sees the same ids.
pub backfill_ids_idempotent :
    (rs : Rules)
    → HasRoom rs
    → LoadedIds rs.rules
    → backfill_ids (backfill_ids rs) ≡ backfill_ids rs
backfill_ids_idempotent rs h d =
    backfill_ids_unchanged (backfill_ids rs) (backfill_ids-IdsValid rs h d).0
      (backfill_ids-counter rs h).0 (backfill_ids-counter rs h).1
