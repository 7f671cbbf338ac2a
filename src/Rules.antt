-- ===== src/Rules.antt =====
-- filewall-rules/src/lib.rs: the learned rules, their ids and their evaluation. A method that
-- takes `&mut self` returns the new record. A `u64` is a number below 2 ^ 64, and its `+` wraps, as
-- in a release build. The file on disk is in Rules/Disk.
pub mod Evaluate
pub mod Ids
pub mod Backfill
pub mod Disk
pub mod Unordered
use filewall.FilePath.{path_eq, starts_with}
use filewall.Prelude.{
  ℕ, ◌+◌, ◌%◌, max, Bool, true, false, Option, none, some, List, [], ◌∷◌, ◌++◌, Text, text_eq,
  option_text_eq, ◌==◌, if◌then◌else◌,
}

pub data RuleAction : Type 0 where
  allow deny : RuleAction

pub data ObjectKind : Type 0 where
  file tree : ObjectKind

pub record LearnedRule : Type 0 where
  pub id : ℕ
  pub created_unix : ℕ
  pub action : RuleAction
  pub exe : Text
  pub object : Text
  pub object_kind : ObjectKind
  pub cwd : Option Text

object_ok : ObjectKind → Text → Text → Bool
object_ok file path object = path_eq path object
object_ok tree path object = starts_with path object

cwd_ok : Option Text → Option Text → Bool
cwd_ok none cwd = true
cwd_ok (some rule_cwd) cwd = option_text_eq cwd (some rule_cwd)

-- Does the rule apply to an access of `path` by `exe` from `cwd`?
unfoldable pub matches : LearnedRule → Text → Text → Option Text → Bool
unfolding object_ok cwd_ok
matches r path exe cwd =
    if text_eq r.exe exe
    then (if object_ok r.object_kind path r.object then cwd_ok r.cwd cwd else false)
    else false

pub record Rules : Type 0 where
  pub next_id : ℕ
  pub rules : List LearnedRule

-- `Rules::default`.
abbrev pub default : Rules
default = record { next_id = 0; rules = [] }

-- Addition of `u64`s.
abbrev pub u64 : ℕ → ℕ
u64 n = n % 18446744073709551616

-- The next id, and the counter behind it.
unfoldable pub alloc_id : ℕ → ℕ × ℕ
alloc_id next_id = let id = max next_id 1 in (id, u64 (id + 1))

abbrev pub max_id : List LearnedRule → ℕ
max_id [] = 0
max_id (r ∷ rs) = max r.id (max_id rs)

-- The loop of `backfill_ids`, from the counter `next`.
unfoldable pub assign_ids : ℕ → List LearnedRule → Rules
assign_ids next [] = record { next_id = next; rules = [] }
assign_ids next (r ∷ rs) =
    let rest = assign_ids (if r.id == 0 then u64 (next + 1) else next) rs in
    record rest { rules = (if r.id == 0 then record r { id = next } else r) ∷ rest.rules }

unfoldable pub backfill_ids : Rules → Rules
unfolding assign_ids
backfill_ids rs = assign_ids (max rs.next_id (u64 (max_id rs.rules + 1))) rs.rules

unfoldable pub push : Rules → LearnedRule → Rules
unfolding alloc_id
push rs rule =
    let (id, next) = alloc_id rs.next_id in
    record { next_id = next; rules = rs.rules ++ record rule { id = id } ∷ [] }

-- What a matching rule does to the loop of `evaluate`: `deny` returns at once.
abbrev step : RuleAction → Option RuleAction → Option RuleAction
step deny rest = some deny
step allow rest = rest

-- The loop of `evaluate`, with its variable `allow`.
unfoldable pub evaluate_from :
    Bool → List LearnedRule → Text → Text → Option Text → Option RuleAction
evaluate_from allowed [] path exe cwd = if allowed then some allow else none
evaluate_from allowed (r ∷ rs) path exe cwd =
    let next = evaluate_from true rs path exe cwd in
    let same = evaluate_from allowed rs path exe cwd in
    if matches r path exe cwd then step r.action next else same

unfoldable pub evaluate : Rules → Text → Text → Option Text → Option RuleAction
unfolding evaluate_from
evaluate rs path exe cwd = evaluate_from false rs.rules path exe cwd
