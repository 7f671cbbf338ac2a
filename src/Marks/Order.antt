-- ===== src/Marks/Order.antt =====
-- The order of the marks: a strict order of paths that agrees with their equality.
use filewall.FilePath.{Component, normal, components, path_eq}
use filewall.FilePath.Laws.{path_eq_iff}
use filewall.Prelude.{ℕ, true, List, [], ◌∷◌, Text, ◌≡◌, ◌↔◌, arith, refl}
use filewall.Marks.{
  rank, name_of, Ordering, less, equal, greater, cmp_nat, cmp_text, cmp_component, cmp_components,
  cmp_path,
}

abbrev pub flip : Ordering → Ordering
flip less = greater
flip equal = equal
flip greater = less

cmp_nat_equal : (a b : ℕ) → (cmp_nat a b ≡ equal) ↔ (a ≡ b)
unfolding cmp_nat
cmp_nat_equal a b = ground arith

cmp_nat-flip : (a b : ℕ) → cmp_nat b a ≡ flip (cmp_nat a b)
unfolding cmp_nat
cmp_nat-flip a b = ground arith

cmp_nat_trans : (a b c : ℕ) → cmp_nat a b ≡ less → cmp_nat b c ≡ less → cmp_nat a c ≡ less
unfolding cmp_nat
cmp_nat_trans a b c = ground arith

cmp_text_equal : (s t : Text) → (cmp_text s t ≡ equal) ↔ (s ≡ t)
unfolding cmp_text
cmp_text_equal (a ∷ s) (b ∷ t) = ground (arith, cmp_nat_equal a b, cmp_text_equal s t)
cmp_text_equal _ _ = ground arith

cmp_text-flip : (s t : Text) → cmp_text t s ≡ flip (cmp_text s t)
unfolding cmp_text
cmp_text-flip (a ∷ s) (b ∷ t) = ground (arith, cmp_nat-flip a b, cmp_text-flip s t)
cmp_text-flip _ _ = ground arith

cmp_text_trans : (s t u : Text) → cmp_text s t ≡ less → cmp_text t u ≡ less → cmp_text s u ≡ less
unfolding cmp_text
cmp_text_trans (a ∷ s) (b ∷ t) (c ∷ u) h k = ground (
  arith,
  cmp_nat_trans a b c,
  cmp_nat_equal a b,
  cmp_nat_equal b c,
  cmp_text_trans s t u,
  cmp_nat_equal a c,
)
cmp_text_trans [] _ (c ∷ u) h k = refl
cmp_text_trans _ _ _ h k = ground arith

cmp_component_equal : (a b : Component) → (cmp_component a b ≡ equal) ↔ (a ≡ b)
unfolding cmp_component cmp_nat cmp_text
cmp_component_equal (normal s) (normal t) = ground (arith, cmp_text_equal s t)
cmp_component_equal a b = ground arith

cmp_component-flip : (a b : Component) → cmp_component b a ≡ flip (cmp_component a b)
unfolding cmp_component
cmp_component-flip a b =
    ground (arith, cmp_nat-flip (rank a) (rank b), cmp_text-flip (name_of a) (name_of b))

cmp_component_trans :
    (a b c : Component)
    → cmp_component a b ≡ less
    → cmp_component b c ≡ less
    → cmp_component a c ≡ less
unfolding cmp_component
cmp_component_trans a b c h k = ground (
  arith,
  cmp_nat_trans (rank a) (rank b) (rank c),
  cmp_nat_equal (rank a) (rank b),
  cmp_nat_equal (rank b) (rank c),
  cmp_nat_equal (rank a) (rank c),
  cmp_text_trans (name_of a) (name_of b) (name_of c),
)

cmp_components_equal : (cs ds : List Component) → (cmp_components cs ds ≡ equal) ↔ (cs ≡ ds)
unfolding cmp_components
cmp_components_equal (a ∷ cs) (b ∷ ds) =
    ground (arith, cmp_component_equal a b, cmp_components_equal cs ds)
cmp_components_equal _ _ = ground arith

cmp_components-flip : (cs ds : List Component) → cmp_components ds cs ≡ flip (cmp_components cs ds)
unfolding cmp_components
cmp_components-flip (a ∷ cs) (b ∷ ds) =
    ground (arith, cmp_component-flip a b, cmp_components-flip cs ds)
cmp_components-flip _ _ = ground arith

cmp_components_trans :
    (cs ds es : List Component)
    → cmp_components cs ds ≡ less
    → cmp_components ds es ≡ less
    → cmp_components cs es ≡ less
unfolding cmp_components
cmp_components_trans (a ∷ cs) (b ∷ ds) (c ∷ es) h k = ground (
  arith,
  cmp_component_trans a b c,
  cmp_component_equal a b,
  cmp_component_equal b c,
  cmp_component_equal a c,
  cmp_components_trans cs ds es,
)
cmp_components_trans [] _ (c ∷ es) h k = refl
cmp_components_trans _ _ _ h k = ground arith

-- The order is strict and total: two paths compare as equal just when `==` holds of them, as
-- opposite when they change places, and "less" is transitive.
pub cmp_path_total_order :
    (p q r : Text)
    → ((cmp_path p q ≡ equal) ↔ (path_eq p q ≡ true))
      × (cmp_path q p ≡ flip (cmp_path p q))
      × (cmp_path p q ≡ less → cmp_path q r ≡ less → cmp_path p r ≡ less)
unfolding cmp_path
cmp_path_total_order p q r = (
  ground (arith, path_eq_iff p q, cmp_components_equal (components p) (components q)),
  cmp_components-flip (components p) (components q),
  cmp_components_trans (components p) (components q) (components r),
)
