-- ===== src/Marks.antt =====
-- filewalld/src/markset.rs: the record of the marks that were placed. A `BTreeMap` is the list of
-- its entries in the order of the keys; paths are ordered by their components.
pub mod Order
pub mod Lookup
pub mod All
use filewall.FilePath.{Component, root_dir, cur_dir, parent_dir, normal, components}
use filewall.Prelude.{ℕ, Bool, Option, none, some, List, [], ◌∷◌, Text, ltb, ◌==◌, if◌then◌else◌}
use filewall.Proto.{ObjKind, file, dir, WatchedObject}

-- `std::cmp::Ordering`.
pub data Ordering : Type 0 where
  less equal greater : Ordering

abbrev pub then_cmp : Ordering → Ordering → Ordering
then_cmp less o = less
then_cmp equal o = o
then_cmp greater o = greater

unfoldable pub cmp_nat : ℕ → ℕ → Ordering
cmp_nat a b = if ltb a b then less else if a == b then equal else greater

unfoldable pub cmp_text : Text → Text → Ordering
unfolding cmp_nat
cmp_text [] [] = equal
cmp_text [] (b ∷ t) = less
cmp_text (a ∷ s) [] = greater
cmp_text (a ∷ s) (b ∷ t) = then_cmp (cmp_nat a b) (cmp_text s t)

-- The place of a component's constructor in its declaration.
abbrev rank : Component → ℕ
rank root_dir = 0
rank cur_dir = 1
rank parent_dir = 2
rank (normal s) = 3

abbrev name_of : Component → Text
name_of (normal s) = s
name_of _ = []

unfoldable pub cmp_component : Component → Component → Ordering
unfolding cmp_nat cmp_text
cmp_component a b = then_cmp (cmp_nat (rank a) (rank b)) (cmp_text (name_of a) (name_of b))

unfoldable pub cmp_components : List Component → List Component → Ordering
unfolding cmp_component
cmp_components [] [] = equal
cmp_components [] (b ∷ bs) = less
cmp_components (a ∷ cs) [] = greater
cmp_components (a ∷ cs) (b ∷ bs) = then_cmp (cmp_component a b) (cmp_components cs bs)

-- `Ord for Path`.
unfoldable pub cmp_path : Text → Text → Ordering
unfolding cmp_components
cmp_path p q = cmp_components (components p) (components q)

pub record MarkEntry : Type 0 where
  pub kind : ObjKind
  pub recursive : Bool
  pub watch_root : Text
  pub ok : Bool

pub record MarkSet : Type 0 where
  pub entries : List (Text × MarkEntry)

abbrev pub new : MarkSet
new = record { entries = [] }

unfoldable pub clear : MarkSet → MarkSet
clear marks = record marks { entries = [] }

abbrev pub placed :
    Ordering
    → Text × MarkEntry
    → Text × MarkEntry
    → List (Text × MarkEntry)
    → List (Text × MarkEntry)
    → List (Text × MarkEntry)
placed less added old rest inserted = added ∷ old ∷ rest
placed equal added old rest inserted = (old.0, added.1) ∷ rest
placed greater added old rest inserted = old ∷ inserted

-- `BTreeMap::insert`, which keeps the key that it has.
unfoldable pub insert : Text → MarkEntry → List (Text × MarkEntry) → List (Text × MarkEntry)
unfolding cmp_path
insert p e [] = (p, e) ∷ []
insert p e ((q, f) ∷ rest) =
    let inserted = insert p e rest in placed (cmp_path p q) (p, e) (q, f) rest inserted

unfoldable pub record_mark : MarkSet → Text → MarkEntry → MarkSet
unfolding insert
record_mark marks p e = record marks { entries = insert p e marks.entries }

live : (Text → Bool) → Text → ObjKind → Option Bool
live is_watching path dir = some (is_watching path)
live is_watching path file = none

dumped : (Text → Bool) → Text × MarkEntry → WatchedObject
unfolding live
dumped is_watching (path, e) = record {
  path = path;
  kind = e.kind;
  recursive = e.recursive;
  watch = e.watch_root;
  fanotify = e.ok;
  live_marked = live is_watching path e.kind;
}

dump_from : List (Text × MarkEntry) → (Text → Bool) → List WatchedObject
unfolding dumped
dump_from [] is_watching = []
dump_from (x ∷ rest) is_watching = dumped is_watching x ∷ dump_from rest is_watching

unfoldable pub build_dump : MarkSet → (Text → Bool) → List WatchedObject
unfolding dump_from
build_dump marks is_watching = dump_from marks.entries is_watching
