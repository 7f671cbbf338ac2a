-- ===== src/FilePath/Laws.antt =====
-- Paths under `==` and `starts_with`: an equivalence, and an order that respects it.
use mathlib.Core.List.{append-nil, append_assoc}
use filewall.Prelude.{
  true, some, List, [], ◌∷◌, ◌++◌, ◌≡◌, ◌↔◌, refl, arith, Text, text_eq_iff, sym, Option-cases, inl,
  inr,
}
use filewall.FilePath.{
  Component, normal, component_eq, components, components_eq, path_eq, after_prefix, starts_with,
}

pub component_eq_iff : (a b : Component) → (component_eq a b ≡ true) ↔ (a ≡ b)
unfolding component_eq
component_eq_iff (normal s) (normal t) = ground (arith, text_eq_iff s t)
component_eq_iff _ _ = ground arith

pub components_eq_iff : (cs ds : List Component) → (components_eq cs ds ≡ true) ↔ (cs ≡ ds)
unfolding components_eq
components_eq_iff (a ∷ as') (b ∷ bs) =
    ground (arith, component_eq_iff a b, components_eq_iff as' bs)
components_eq_iff _ _ = ground arith

pub path_eq_iff : (p q : Text) → (path_eq p q ≡ true) ↔ (components p ≡ components q)
unfolding path_eq
path_eq_iff p q = components_eq_iff (components p) (components q)

pub path_eq_refl : (p : Text) → path_eq p p ≡ true
path_eq_refl p = (path_eq_iff p p).1 refl

-- The second list is a beginning of the first, and the rest is what is left.
pub after_prefix_iff :
    (cs bs rest : List Component) → (after_prefix cs bs ≡ some rest) ↔ (cs ≡ bs ++ rest)
unfolding after_prefix
after_prefix_iff cs [] rest = ground arith
after_prefix_iff [] (b ∷ bs) rest = ground arith
after_prefix_iff (c ∷ cs) (b ∷ bs) rest =
    ground (arith, component_eq_iff c b, after_prefix_iff cs bs rest)

pub starts_with_iff :
    (p base : Text)
    → (starts_with p base ≡ true)
      ↔ ((rest : List Component) × (components p ≡ components base ++ rest))
unfolding starts_with
starts_with_iff p base = (
  λ h. elim (Option-cases (after_prefix (components p) (components base))) [
    | inl e ↦ cc
    | inr (rest, e) ↦ (rest, (after_prefix_iff (components p) (components base) rest).0 e)
  ],
  λ (rest, e). rw ((after_prefix_iff (components p) (components base) rest).1 e) refl,
)

pub starts_with_refl : (p : Text) → starts_with p p ≡ true
starts_with_refl p = (starts_with_iff p p).1 ([], sym (append-nil (components p)))

-- Being below is transitive.
pub starts_with_trans :
    (p q r : Text) → starts_with p q ≡ true → starts_with q r ≡ true → starts_with p r ≡ true
starts_with_trans p q r h k =
    let (s, e) = (starts_with_iff p q).0 h in
    let (t, f) = (starts_with_iff q r).0 k in
    (starts_with_iff p r).1 (t ++ s, rw (e, f) (append_assoc (components r) t s))
