-- ===== src/Ctl/Lifecycle.antt =====
-- The rules over the life of an installation: the daemon learns and restarts, and `filewallctl remove`
-- is run between, each as a whole. The state is what the daemon holds and what the files hold.
use filewall.Ctl.{remove_ids}
use filewall.Ctl.Remove.{remove_ids-IdsValid}
use filewall.Prelude.{
  ℕ, ◌+◌, ◌≤◌, ◌<◌, Option, none, some, List, [], ◌∷◌, Text, length, ok, ◌≡◌, ◌∙◌, refl, sym, subst,
  ap, arith,
}
use filewall.Rules.{LearnedRule, Rules, push, alloc_id}
use filewall.Rules.Disk.{Toml, ReadsBack, Files, Faults, Stamp, save_atomic, load, load-save_atomic}
use filewall.Rules.Ids.{IdsValid, id_space, push-IdsValid}

abbrev pub State : Type 0
State = Rules × Files

module _ (toml : Toml) (path : Text) where
  -- What `remove` saves.
  abbrev pub pruned : Files → List ℕ → Rules
  pruned fs ids = (remove_ids (load toml fs path) ids).rules

  -- A rule is learned and saved, and gets the id that is shown; or rules are removed from the file,
  -- and the signal makes the daemon load it; or the daemon starts again.
  pub data Step (st : State) (given : Option ℕ) (st' : State) : Type 0 where
    learn :
        (rule : LearnedRule) (s : Stamp) (f : Faults)
        → given ≡ some (alloc_id st.0.next_id).0
        → (save_atomic toml (push st.0 rule) s f st.1 path).0 ≡ ok tt
        → st' ≡ (push st.0 rule, (save_atomic toml (push st.0 rule) s f st.1 path).1)
        → Step st given st'
    remove :
        (ids : List ℕ) (s : Stamp) (f : Faults)
        → given ≡ none
        → (save_atomic toml (pruned st.1 ids) s f st.1 path).0 ≡ ok tt
        → st'.1 ≡ (save_atomic toml (pruned st.1 ids) s f st.1 path).1
        → st'.0 ≡ load toml st'.1 path
        → Step st given st'
    restart : given ≡ none → st'.1 ≡ st.1 → st'.0 ≡ load toml st.1 path → Step st given st'

  -- Steps in a row, with the ids that were given.
  pub data Trace : State → List ℕ → State → Type 0 where
    done : (st : State) → Trace st [] st
    gives :
        (st mid end : State) (id : ℕ) (ids : List ℕ)
        → Step st (some id) mid
        → Trace mid ids end
        → Trace st (id ∷ ids) end
    quiet :
        (st mid end : State) (ids : List ℕ)
        → Step st none mid
        → Trace mid ids end
        → Trace st ids end

  -- The daemon holds what the file holds, with valid ids and a counter within `u64`.
  pub record InSync (st : State) : Type 0 where
    pub loaded : load toml st.1 path ≡ st.0
    pub valid : IdsValid st.0
    pub counted : 0 < st.0.next_id
    pub in_space : st.0.next_id < id_space

-- Each number is at least the bound, and the next one is larger.
abbrev pub Rising : ℕ → List ℕ → Type 0
Rising n [] = Unit
Rising n (id ∷ ids) = (n ≤ id) × Rising (id + 1) ids

alloc_id-next : (n : ℕ) → 0 < n → (alloc_id n).0 ≡ n
unfolding alloc_id
alloc_id-next n h = omega arith

push-next :
    (rs : Rules) (rule : LearnedRule)
    → 0 < rs.next_id
    → rs.next_id + 1 < id_space
    → (push rs rule).next_id ≡ rs.next_id + 1
unfolding push alloc_id
push-next rs rule h k = omega arith

remove_ids-next : (rs : Rules) (ids : List ℕ) → (remove_ids rs ids).rules.next_id ≡ rs.next_id
unfolding remove_ids
remove_ids-next rs ids = refl

module _ (toml : Toml) (path : Text) (back : ReadsBack toml) where
  -- A step that gives no id leaves the counter.
  quiet-InSync :
      (st st' : State)
      → InSync toml path st
      → Step toml path st none st'
      → InSync toml path st' × (st'.0.next_id ≡ st.0.next_id)
  quiet-InSync st st' y (Step.learn rule s f g ok' e) = cc
  quiet-InSync st st' y (Step.restart g e k) =
      let same : st'.0 ≡ st.0 = k ∙ y.loaded in
      (
        record {
          loaded = ap (λ fs. load toml fs path) e ∙ sym k;
          valid = subst IdsValid (sym same) y.valid;
          counted = rw same y.counted;
          in_space = rw same y.in_space;
        },
        ap (λ r. r.next_id) same,
      )
  quiet-InSync st st' y (Step.remove ids s f g saved e k) =
      let left = (remove_ids st.0 ids).rules in
      let from : pruned toml path st.1 ids ≡ left = ap (λ r. (remove_ids r ids).rules) y.loaded in
      let saved' = subst (λ r. (save_atomic toml r s f st.1 path).0 ≡ ok tt) from saved in
      let next = remove_ids-next st.0 ids in
      let holds =
        load-save_atomic toml left s f st.1 path back (remove_ids-IdsValid st.0 ids y.valid).0
          (omega (arith, next)) (omega (arith, next)) saved' in
      let same : st'.0 ≡ left =
        k
        ∙ ap (λ fs. load toml fs path) e
        ∙ ap (λ r. load toml (save_atomic toml r s f st.1 path).1 path) from
        ∙ holds in
      (
        record {
          loaded = sym k;
          valid = subst IdsValid (sym same) (remove_ids-IdsValid st.0 ids y.valid).0;
          counted = rw same (rw next y.counted);
          in_space = rw same (rw next y.in_space);
        },
        ap (λ r. r.next_id) same ∙ next,
      )

  -- A step that gives an id gives the counter, and raises it by one.
  gives-InSync :
      (st st' : State) (id : ℕ)
      → InSync toml path st
      → st.0.next_id + 2 < id_space
      → Step toml path st (some id) st'
      → InSync toml path st' × (id ≡ st.0.next_id) × (st'.0.next_id ≡ st.0.next_id + 1)
  gives-InSync st st' id y room (Step.restart g e k) = cc
  gives-InSync st st' id y room (Step.remove ids s f g saved e k) = cc
  gives-InSync st st' id y room (Step.learn rule s f g saved e) =
      let next = push-next st.0 rule y.counted (omega arith) in
      let v = (push-IdsValid st.0 rule y.valid room).0 in
      let holds =
        load-save_atomic toml (push st.0 rule) s f st.1 path back v (omega (arith, next))
          (omega (arith, next)) saved in
      (
        subst (InSync toml path) (sym e) (record {
          loaded = holds;
          valid = v;
          counted = rw next (omega arith);
          in_space = rw next (omega arith);
        }),
        cc g ∙ alloc_id-next st.0.next_id y.counted,
        ap (λ t. t.0.next_id) e ∙ next,
      )

  -- From a daemon that holds what its file holds, over any course of learning, removing and restarting
  -- in which every save goes through and no two of them overlap: the ids that are given rise, from above
  -- all the ids that there were, so none is ever given twice, not even one of a rule that was removed;
  -- and in the end the daemon again holds what its file holds, with valid ids. The ids that are left in
  -- `u64` must be enough, and the TOML form must read back.
  pub ids_are_never_reused :
      (st st' : State) (given : List ℕ)
      → InSync toml path st
      → st.0.next_id + length given + 2 < id_space
      → Trace toml path st given st'
      → Rising st.0.next_id given × InSync toml path st'
  ids_are_never_reused st st' [] y room (Trace.done t) = (tt, y)
  ids_are_never_reused st st' given y room (Trace.quiet t mid u ids step rest) =
      let (y', same) = quiet-InSync st mid y step in
      let (rising, end) = ids_are_never_reused mid st' given y' (omega (arith, same)) rest in
      (subst (λ n. Rising n given) same rising, end)
  ids_are_never_reused st st' (id ∷ ids) y room (Trace.gives t mid u id' ids' step rest) =
      let (y', e, next) = gives-InSync st mid id y (omega arith) step in
      let (rising, end) = ids_are_never_reused mid st' ids y' (omega (arith, next)) rest in
      let above : mid.0.next_id ≡ id + 1 = omega (arith, e, next) in
      ((omega (arith, e), subst (λ n. Rising n ids) above rising), end)
