-- ===== src/Ctl/Remove.antt =====
-- `remove_ids` and `cmd_remove` of filewallctl/src/main.rs.
use mathlib.Core.List.Memᴰ.{cases_cons}
use filewall.Ctl.{
  Format, ℤ, Errno, contains, remove_ids, remove_loaded, finished, saved, cmd_remove, sent_to,
}
use filewall.Prelude.{
  ℕ, ◌<◌, Bool, true, not, List, [], ◌∷◌, any, any-true, any_witness, keep_if, All, Memᴰ, Text,
  ◌==◌, ==_iff, ◌≡◌, ◌↔◌, ◌⊎◌, refl, sym, subst, arith, Bool-cases, inl, inr, Result, ok, err,
}
use filewall.Proto.Frame.{ErrorKind}
use filewall.Rules.{LearnedRule, Rules, alloc_id}
use filewall.Rules.Disk.{Toml, Files, Faults, Stamp, save_atomic, load}
use filewall.Rules.Ids.{IdsValid, DistinctIds}

keep_if-Memᴰ :
    {A : Type 0} (p : A → Bool) (x : A) (xs : List A)
    → Memᴰ x (keep_if p xs)
    → Memᴰ x xs × (p x ≡ true)
keep_if-Memᴰ p x [] = λ m. elim m [ ]
keep_if-Memᴰ p x (y ∷ ys) = elim (Bool-cases (p y)) [
  | inl e ↦
      rw (keep_if, e)
        λ m. elim (cases_cons m) [
          | inl k ↦ (Memᴰ.head k, subst (λ z. p z ≡ true) (sym k) e)
          | inr k ↦ let (a, b) = keep_if-Memᴰ p x ys k in (Memᴰ.tail a, b)
        ]
  | inr e ↦ rw (keep_if, e) λ m. let (a, b) = keep_if-Memᴰ p x ys m in (Memᴰ.tail a, b)
]

Memᴰ-keep_if :
    {A : Type 0} (p : A → Bool) (x : A) (xs : List A)
    → Memᴰ x xs
    → p x ≡ true
    → Memᴰ x (keep_if p xs)
Memᴰ-keep_if p x [] m e = elim m [ ]
Memᴰ-keep_if p x (y ∷ ys) m e = elim (cases_cons m) [
  | inl k ↦ rw (keep_if, subst (λ z. p z ≡ true) k e) (Memᴰ.head k)
  | inr k ↦ elim (Bool-cases (p y)) [
    | inl h ↦ rw (keep_if, h) (Memᴰ.tail (Memᴰ-keep_if p x ys k e))
    | inr h ↦ rw (keep_if, h) (Memᴰ-keep_if p x ys k e)
  ]
]

keep_if_iff :
    {A : Type 0} (p : A → Bool) (x : A) (xs : List A)
    → Memᴰ x (keep_if p xs) ↔ (Memᴰ x xs × (p x ≡ true))
keep_if_iff p x xs = (keep_if-Memᴰ p x xs, λ (m, e). Memᴰ-keep_if p x xs m e)

contains_lem : (ids : List ℕ) (x : ℕ) → (contains ids x ≡ true) ↔ Memᴰ x ids
contains_lem ids x = (
  λ h.
      let (y, m, e) = any_witness (λ i. i == x) ids h in
      subst (λ z. Memᴰ z ids) ((==_iff y x).0 e) m,
  λ m. any-true (λ i. i == x) m ((==_iff x x).1 refl),
)

not-true : (b : Bool) → (not b ≡ true) ↔ (¬ (b ≡ true))
not-true b = ground arith

-- The ids of the rules.
pub HasId : List LearnedRule → ℕ → Type 0
HasId rs id = (r : LearnedRule) × Memᴰ r rs × (r.id ≡ id)

removed_iff :
    (rs : List LearnedRule) (ids : List ℕ) (r : LearnedRule)
    → Memᴰ r (keep_if (λ x. contains ids x.id) rs) ↔ (Memᴰ r rs × Memᴰ r.id ids)
removed_iff rs ids r =
    let (f, g) = keep_if_iff (λ x. contains ids x.id) r rs in
    let (a, b) = contains_lem ids r.id in (λ m. ((f m).0, a (f m).1), λ (m, k). g (m, b k))

kept_iff :
    (rs : List LearnedRule) (ids : List ℕ) (r : LearnedRule)
    → Memᴰ r (keep_if (λ x. not (contains ids x.id)) rs) ↔ (Memᴰ r rs × (¬ Memᴰ r.id ids))
kept_iff rs ids r =
    let (f, g) = keep_if_iff (λ x. not (contains ids x.id)) r rs in
    let (a, b) = contains_lem ids r.id in
    (
      λ m. ((f m).0, λ k. (not-true _).0 (f m).1 (b k)),
      λ (m, n). g (m, (not-true _).1 (λ t. n (a t))),
    )

-- An id that was asked for is among those of the rules that go just when some rule has it.
found_iff :
    (rs : List LearnedRule) (ids : List ℕ) (id : ℕ)
    → Memᴰ id ids
    → (any (λ r. r.id == id) (keep_if (λ r. contains ids r.id) rs) ≡ true) ↔ HasId rs id
unfolding HasId
found_iff rs ids id m = (
  λ t.
      let (r, k, e) = any_witness (λ x. x.id == id) (keep_if (λ x. contains ids x.id) rs) t in
      (r, ((removed_iff rs ids r).0 k).0, (==_iff r.id id).0 e),
  λ (r, k, e).
      any-true (λ x. x.id == id) ((removed_iff rs ids r).1 (k, subst (λ z. Memᴰ z ids) (sym e) m))
        ((==_iff r.id id).1 e),
)

missing_iff :
    (rs : List LearnedRule) (ids : List ℕ) (id : ℕ)
    → Memᴰ id (keep_if (λ i. not (any (λ r. r.id == i) (keep_if (λ r. contains ids r.id) rs))) ids)
      ↔ (Memᴰ id ids × (¬ HasId rs id))
missing_iff rs ids id =
    let (f, g) =
      keep_if_iff (λ i. not (any (λ r. r.id == i) (keep_if (λ r. contains ids r.id) rs))) id ids in
    (
      λ m. ((f m).0, λ k. (not-true _).0 (f m).1 ((found_iff rs ids id (f m).0).1 k)),
      λ (m, n). g (m, (not-true _).1 (λ t. n ((found_iff rs ids id m).0 t))),
    )

-- The rules that stay are those whose id was not asked for, those that go are the others, and an id
-- is reported as missing just when it was asked for and no rule had it.
pub remove_ids_lem :
    (rs : Rules) (ids : List ℕ)
    → let out = remove_ids rs ids in
      ((r : LearnedRule) → Memᴰ r out.rules.rules ↔ (Memᴰ r rs.rules × (¬ Memᴰ r.id ids)))
      × ((r : LearnedRule) → Memᴰ r out.removed ↔ (Memᴰ r rs.rules × Memᴰ r.id ids))
      × ((id : ℕ) → Memᴰ id out.missing ↔ (Memᴰ id ids × (¬ HasId rs.rules id)))
unfolding remove_ids
remove_ids_lem rs ids = (kept_iff rs.rules ids, removed_iff rs.rules ids, missing_iff rs.rules ids)

keep_if-All :
    {A : Type 0} (P : A → Type 0) (p : A → Bool) (xs : List A) → All P xs → All P (keep_if p xs)
keep_if-All P p [] h = tt
keep_if-All P p (x ∷ xs) (h, k) = elim (Bool-cases (p x)) [
  | inl e ↦ rw (keep_if, e) (h, keep_if-All P p xs k)
  | inr e ↦ rw (keep_if, e) (keep_if-All P p xs k)
]

keep_if-DistinctIds :
    (p : LearnedRule → Bool) (rs : List LearnedRule) → DistinctIds rs → DistinctIds (keep_if p rs)
keep_if-DistinctIds p [] h = tt
keep_if-DistinctIds p (r ∷ rs) (h, f, k) = elim (Bool-cases (p r)) [
  | inl e ↦ rw (keep_if, e) (h, keep_if-All _ p rs f, keep_if-DistinctIds p rs k)
  | inr e ↦ rw (keep_if, e) (keep_if-DistinctIds p rs k)
]

Memᴰ-All : {A : Type 0} (P : A → Type 0) {x : A} {xs : List A} → Memᴰ x xs → All P xs → P x
Memᴰ-All P (Memᴰ.head e) (h, k) = subst P (sym e) h
Memᴰ-All P (Memᴰ.tail m) (h, k) = Memᴰ-All P m k

-- Removing rules keeps the ids valid and does not turn the counter back: the next rule that is
-- pushed gets an id above that of every rule that was removed.
pub remove_ids-IdsValid :
    (rs : Rules) (ids : List ℕ)
    → IdsValid rs
    → let out = remove_ids rs ids in
      IdsValid out.rules
      × ((r : LearnedRule) → Memᴰ r out.removed → r.id < (alloc_id out.rules.next_id).0)
unfolding remove_ids alloc_id
remove_ids-IdsValid rs ids v = (
  record {
    below = keep_if-All _ _ rs.rules v.below;
    distinct = keep_if-DistinctIds _ rs.rules v.distinct;
  },
  λ r m.
      let b : r.id < rs.next_id =
        Memᴰ-All _ (keep_if-Memᴰ (λ x. contains ids x.id) r rs.rules m).0 v.below in
      omega arith,
)

-- `remove` succeeds just when every id was found and the save, if there was one, went through;
-- where it removes nothing it writes nothing and signals nobody, and where the save fails it
-- signals nobody.
pub cmd_remove_outcomes :
    (toml : Toml) (kill : ℤ → Result Errno (Unit {0})) (ids : List ℕ) (path pidfile : Text)
    (format : Format) (s : Stamp) (f : Faults) (fs : Files)
    → let r = remove_ids (load toml fs path) ids in
      let save = (save_atomic toml r.rules s f fs path).0 in
      let out = cmd_remove toml kill ids path pidfile format s f fs in
      (out.success ≡ true ↔ ((r.missing ≡ []) × ((r.removed ≡ []) ⊎ (save ≡ ok tt))))
      × (r.removed ≡ [] → (out.files ≡ fs) × (out.signals ≡ []))
      × ((e : ErrorKind) → save ≡ err e → out.signals ≡ [])
unfolding cmd_remove remove_loaded saved finished sent_to
cmd_remove_outcomes toml kill ids path pidfile format s f fs = ground arith
