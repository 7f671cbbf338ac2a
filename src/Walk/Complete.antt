-- ===== src/Walk/Complete.antt =====
-- `walk_dirs` of filewalld/src/main.rs comes to an end and leaves no directory out.
use mathlib.Core.List.Memᴰ.{append_left, append_right, append_cases, eq_of_singleton}
use filewall.Prelude.{
  ℕ, zero, suc, ◌+◌, ◌≤◌, Bool, true, List, [], ◌∷◌, ◌++◌, Text, ◌≡◌, refl, subst, arith, Memᴰ,
  Bool-cases, inl, inr, if◌then◌else◌, ◌⊎◌, ◌↔◌,
}
use filewall.Walk.{Disk, children, is_dir, taken, visit, walk, walk_dirs}
use filewall.Walk.Reach.{Reach, start, enter, walk_dirs-Reach}

-- The sizes of the directories of a list, and of those of a list of paths.
abbrev total : Disk → List Text → ℕ
total fs [] = 0
total fs (p ∷ ps) = fs.size p + total fs ps

abbrev total_dirs : Disk → List Text → ℕ
total_dirs fs [] = 0
total_dirs fs (p ∷ ps) = (if is_dir fs p then fs.size p else 0) + total_dirs fs ps

-- The tree below each directory is finite: its size counts it and what is below its directories.
abbrev pub Finite : Disk → Type 0
Finite fs = (d : Text) → suc (total_dirs fs (children fs d)) ≤ fs.size d

module _ (fs : Disk) (excluded : Text → Bool) where
  taken-total : (p : Text) (n : ℕ) → taken fs excluded p ≡ true → total_dirs fs (p ∷ []) ≡ fs.size p
  unfolding taken
  taken-total p n h = ground arith

  total-visit :
      (ps out stack : List Text)
      → total fs (visit fs excluded ps out stack).1 ≤ total_dirs fs ps + total fs stack
  unfolding visit
  total-visit [] out stack = omega arith
  total-visit (p ∷ ps) out stack = ground (
    arith,
    taken-total p 0,
    total-visit ps (if taken fs excluded p then out ++ p ∷ [] else out)
        (if taken fs excluded p then p ∷ stack else stack),
  )

  visit_keeps :
      (p : Text) (ps out stack : List Text)
      → (Memᴰ p out → Memᴰ p (visit fs excluded ps out stack).0)
        × (Memᴰ p stack → Memᴰ p (visit fs excluded ps out stack).1)
  unfolding visit
  visit_keeps p [] out stack = (λ m. m, λ m. m)
  visit_keeps p (q ∷ ps) out stack = elim (Bool-cases (taken fs excluded q)) [
    | inl e ↦
        let (f, g) = visit_keeps p ps (out ++ q ∷ []) (q ∷ stack) in
        rw (visit, e) (λ m. f (append_left _ m), λ m. g (Memᴰ.tail m))
    | inr e ↦ rw (visit, e) (visit_keeps p ps out stack)
  ]

  visit_takes :
      (p : Text) (ps out stack : List Text)
      → Memᴰ p ps
      → taken fs excluded p ≡ true
      → Memᴰ p (visit fs excluded ps out stack).0
  unfolding visit
  visit_takes p [] out stack m t = elim m [ ]
  visit_takes p (q ∷ ps) out stack (Memᴰ.head e) t =
      rw (visit, ← e, t)
        ((visit_keeps p ps (out ++ p ∷ []) (p ∷ stack)).0 (append_right out (Memᴰ.head refl)))
  visit_takes p (q ∷ ps) out stack (Memᴰ.tail m) t = visit_takes p ps _ _ m t

  visit_new :
      (p : Text) (ps out stack : List Text)
      → Memᴰ p (visit fs excluded ps out stack).0
      → Memᴰ p out ⊎ Memᴰ p (visit fs excluded ps out stack).1
  unfolding visit
  visit_new p [] out stack = λ m. inl m
  visit_new p (q ∷ ps) out stack = elim (Bool-cases (taken fs excluded q)) [
    | inl e ↦
        rw (visit, e)
          λ m. elim (visit_new p ps (out ++ q ∷ []) (q ∷ stack) m) [
            | inl k ↦ elim (append_cases out k) [
              | inl old ↦ inl old
              | inr new ↦ inr (
                  (visit_keeps p ps (out ++ q ∷ []) (q ∷ stack)).1
                    (Memᴰ.head (eq_of_singleton new)))
            ]
            | inr k ↦ inr k
          ]
    | inr e ↦ rw (visit, e) λ m. visit_new p ps out stack m
  ]

  -- All that is taken of `d` is in the list.
  Handled : List Text → Text → Type 0
  Handled out d = (q : Text) → Memᴰ q (children fs d) → taken fs excluded q ≡ true → Memᴰ q out

  Pending : List Text → List Text → Type 0
  Pending out stack = (p : Text) → Memᴰ p out → Memᴰ p stack ⊎ Handled out p

  Closed : List Text → Type 0
  Closed out = (p : Text) → Memᴰ p out → Handled out p

  visit-Pending :
      (d : Text) (out stack : List Text)
      → Pending out (d ∷ stack)
      → let (out', stack') = visit fs excluded (children fs d) out stack in Pending out' stack'
  unfolding Pending Handled
  visit-Pending d out stack h p m = elim (visit_new p (children fs d) out stack m) [
    | inr k ↦ inl k
    | inl k ↦ elim (h p k) [
      | inl (Memᴰ.head e) ↦
          inr λ q c t. visit_takes q _ out stack (subst (λ x. Memᴰ q (children fs x)) e c) t
      | inl (Memᴰ.tail k') ↦ inl ((visit_keeps p (children fs d) out stack).1 k')
      | inr done ↦ inr λ q c t. (visit_keeps q (children fs d) out stack).0 (done q c t)
    ]
  ]

  nothing-Pending : (out : List Text) → Pending out [] → Closed out
  unfolding Pending Closed
  nothing-Pending out h p m = elim (h p m) [ inl k ↦ elim k [ ] | inr k ↦ k ]

  walk-Closed :
      (n : ℕ) (out stack : List Text)
      → Finite fs
      → total fs stack ≤ n
      → Pending out stack
      → Closed (walk fs excluded n out stack)
        × ((p : Text) → Memᴰ p out → Memᴰ p (walk fs excluded n out stack))
  unfolding walk
  walk-Closed zero out [] fin le h = (nothing-Pending out h, λ p m. m)
  walk-Closed zero out (d ∷ stack) fin le h = absurd (omega (arith, fin d))
  walk-Closed (suc n) out [] fin le h = (nothing-Pending out h, λ p m. m)
  walk-Closed (suc n) out (d ∷ stack) fin le h =
      let (c, k) =
        walk-Closed n _ _ fin (omega (arith, fin d, total-visit (children fs d) out stack))
          (visit-Pending d out stack h) in
      (c, λ p m. k p ((visit_keeps p (children fs d) out stack).0 m))

  closed-Reach :
      (root p : Text) (out : List Text)
      → Closed out
      → Memᴰ root out
      → Reach fs excluded root p
      → Memᴰ p out
  unfolding Closed Handled taken
  closed-Reach root p out c m start = m
  closed-Reach root p out c m (enter {d} r k free dir) =
      c d (closed-Reach root d out c m r) p k (ground arith)

  -- In a finite tree the walk comes to an end, and it returns exactly the directories that are
  -- reached from the root without passing through an excluded one.
  pub walk_dirs_iff :
      (root p : Text) → Finite fs → Memᴰ p (walk_dirs fs root excluded) ↔ Reach fs excluded root p
  unfolding walk_dirs Pending
  walk_dirs_iff root p fin =
      let (c, k) =
        walk-Closed (fs.size root) (root ∷ []) (root ∷ []) fin (omega arith) (λ q m. inl m) in
      (walk_dirs-Reach fs excluded root p, closed-Reach root p _ c (k root (Memᴰ.head refl)))
