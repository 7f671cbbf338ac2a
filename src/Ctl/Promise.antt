-- ===== src/Ctl/Promise.antt =====
-- What the rules of filewall-rules/src/lib.rs promise to the daemon, which learns, and to
-- filewallctl/src/main.rs, which removes.
use filewall.Ctl.{contains, remove_ids}
use filewall.Prelude.{ℕ, not, Option, List, [], ◌∷◌, Text, ◌≡◌, ◌∙◌, refl, sym, ap}
use filewall.Rules.{LearnedRule, Rules, evaluate, push, alloc_id}
use filewall.Rules.Unordered.{RuleBag, bag_of, add, keep, decide, bag-snoc, decide-bag_of}

pub data Change : Type 0 where
  learns : LearnedRule → Change
  removes : List ℕ → Change

-- One change after another, as the code makes them.
unfoldable pub changed : List Change → Rules → Rules
unfolding push remove_ids
changed [] rs = rs
changed (learns r ∷ rest) rs = changed rest (push rs r)
changed (removes ids ∷ rest) rs = changed rest (remove_ids rs ids).rules

-- The rules with no order among them, and the counter of their ids.
pub record Promised : Type 0 where
  pub counter : ℕ
  pub held : RuleBag

abbrev pub promised : Rules → Promised
promised rs = record { counter = rs.next_id; held = bag_of rs.rules }

-- The changes as they are promised: a rule gets the next id and is added; the rules that have one of
-- the ids are taken out.
unfoldable pub as_promised : List Change → Promised → Promised
unfolding alloc_id
as_promised [] s = s
as_promised (learns r ∷ rest) s =
    let (id, next) = alloc_id s.counter in
    as_promised rest (record { counter = next; held = add (record r { id = id }) s.held })
as_promised (removes ids ∷ rest) s =
    as_promised rest (record s { held = keep (λ r. not (contains ids r.id)) s.held })

changed-promised :
    (changes : List Change) (rs : Rules)
    → promised (changed changes rs) ≡ as_promised changes (promised rs)
unfolding changed as_promised push alloc_id keep
changed-promised [] rs = refl
changed-promised (learns r ∷ rest) rs =
    changed-promised rest (push rs r)
    ∙ ap (λ b. as_promised rest (record { counter = (push rs r).next_id; held = b }))
        (bag-snoc rs.rules _)
changed-promised (removes ids ∷ rest) rs = changed-promised rest (remove_ids rs ids).rules

-- Through any course of learning and removing, the rules decide every access as the collection with
-- no order does to which the same rules were added, with the same ids, and from which the same ids
-- were taken.
pub changed-decide :
    (changes : List Change) (rs : Rules) (path exe : Text) (cwd : Option Text)
    → let s = as_promised changes (promised rs) in
      ((changed changes rs).next_id ≡ s.counter)
      × (bag_of (changed changes rs).rules ≡ s.held)
      × (evaluate (changed changes rs) path exe cwd ≡ decide path exe cwd s.held)
changed-decide changes rs path exe cwd =
    let same = changed-promised changes rs in
    (
      ap (λ s. s.counter) same,
      ap (λ s. s.held) same,
      sym (decide-bag_of (changed changes rs) path exe cwd)
          ∙ ap (λ s. decide path exe cwd s.held) same,
    )
