-- ===== src/Walk/Reach.antt =====
-- `walk_dirs` of filewalld/src/main.rs returns only directories that it should.
use mathlib.Core.List.Memᴰ.{append_cases, eq_of_singleton}
use filewall.Prelude.{
  ℕ, zero, suc, Bool, true, false, List, [], ◌∷◌, ◌++◌, Text, ◌≡◌, refl, sym, subst, arith, Memᴰ,
  Bool-cases, inl, inr,
}
use filewall.Walk.{Disk, children, is_dir, taken, visit, walk, walk_dirs}

-- A directory is reached from `root` through entries that are directories and not excluded.
pub data Reach (fs : Disk) (excluded : Text → Bool) (root : Text) : Text → Type 0 where
  start : Reach fs excluded root root
  enter :
      {d p : Text}
      → Reach fs excluded root d
      → Memᴰ p (children fs d)
      → excluded p ≡ false
      → is_dir fs p ≡ true
      → Reach fs excluded root p

module _ (fs : Disk) (excluded : Text → Bool) (root : Text) where
  AllReach : List Text → Type 0
  AllReach ps = (p : Text) → Memᴰ p ps → Reach fs excluded root p

  AllReach-snoc :
      (out : List Text) (p : Text)
      → AllReach out
      → Reach fs excluded root p
      → AllReach (out ++ p ∷ [])
  unfolding AllReach
  AllReach-snoc out p h r q m = elim (append_cases out m) [
    | inl k ↦ h q k
    | inr k ↦ subst (λ x. Reach fs excluded root x) (sym (eq_of_singleton k)) r
  ]

  AllReach-cons :
      (stack : List Text) (p : Text)
      → AllReach stack
      → Reach fs excluded root p
      → AllReach (p ∷ stack)
  unfolding AllReach
  AllReach-cons stack p h r q (Memᴰ.head e) = subst (λ x. Reach fs excluded root x) (sym e) r
  AllReach-cons stack p h r q (Memᴰ.tail m) = h q m

  taken_not_excluded : (p : Text) → taken fs excluded p ≡ true → excluded p ≡ false
  unfolding taken
  taken_not_excluded p e = ground arith

  taken-is_dir : (p : Text) → taken fs excluded p ≡ true → is_dir fs p ≡ true
  unfolding taken
  taken-is_dir p e = ground arith

  AllReach-head : (p : Text) (ps : List Text) → AllReach (p ∷ ps) → Reach fs excluded root p
  unfolding AllReach
  AllReach-head p ps h = h p (Memᴰ.head refl)

  AllReach-tail : (p : Text) (ps : List Text) → AllReach (p ∷ ps) → AllReach ps
  unfolding AllReach
  AllReach-tail p ps h q m = h q (Memᴰ.tail m)

  visit-AllReach :
      (d : Text) (ps out stack : List Text)
      → Reach fs excluded root d
      → ((p : Text) → Memᴰ p ps → Memᴰ p (children fs d))
      → AllReach out
      → AllReach stack
      → AllReach (visit fs excluded ps out stack).0 × AllReach (visit fs excluded ps out stack).1
  unfolding visit
  visit-AllReach d [] out stack r in_dir h k = (h, k)
  visit-AllReach d (p ∷ ps) out stack r in_dir h k = elim (Bool-cases (taken fs excluded p)) [
    | inl e ↦
        let reached =
          enter r (in_dir p (Memᴰ.head refl)) (taken_not_excluded p e) (taken-is_dir p e) in
        rw (visit, e)
          (visit-AllReach d ps _ _ r (λ q m. in_dir q (Memᴰ.tail m)) (AllReach-snoc out p h reached)
            (AllReach-cons stack p k reached))
    | inr e ↦ rw (visit, e) (visit-AllReach d ps out stack r (λ q m. in_dir q (Memᴰ.tail m)) h k)
  ]

  walk-AllReach :
      (n : ℕ) (out stack : List Text)
      → AllReach out
      → AllReach stack
      → AllReach (walk fs excluded n out stack)
  unfolding walk
  walk-AllReach zero out stack h k = h
  walk-AllReach (suc n) out [] h k = h
  walk-AllReach (suc n) out (d ∷ stack) h k =
      let (h', k') =
        visit-AllReach d (children fs d) out stack (AllReach-head d stack k) (λ p m. m) h
          (AllReach-tail d stack k) in
      walk-AllReach n _ _ h' k'

  only_root : AllReach (root ∷ [])
  unfolding AllReach
  only_root p m = subst (λ x. Reach fs excluded root x) (sym (eq_of_singleton m)) start

  -- Every directory that is returned is the root, or is reached from it without passing through an
  -- excluded directory.
  pub walk_dirs-Reach : (p : Text) → Memᴰ p (walk_dirs fs root excluded) → Reach fs excluded root p
  unfolding walk_dirs AllReach
  walk_dirs-Reach p m = walk-AllReach _ _ _ only_root only_root p m
