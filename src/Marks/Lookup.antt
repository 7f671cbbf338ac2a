-- ===== src/Marks/Lookup.antt =====
-- The marks as a map of paths, and the dump that is made of them.
use filewall.FilePath.{path_eq}
use filewall.FilePath.Laws.{path_eq_iff}
use filewall.Prelude.{
  Bool, true, Option, none, some, List, [], ◌∷◌, Text, if◌then◌else◌, ◌≡◌, arith, refl, Bool-cases,
  inl, inr,
}
use filewall.Proto.{WatchedObject, ObjKind, file, dir}
use filewall.Marks.{
  placed, live, dumped, dump_from, Ordering, less, equal, greater, cmp_path, MarkEntry, MarkSet,
  clear, insert, record_mark, build_dump,
}
use filewall.Marks.Order.{cmp_path_total_order}

-- `BTreeMap::get`.
lookup : Text → List (Text × MarkEntry) → Option MarkEntry
lookup q [] = none
lookup q ((p, e) ∷ rest) = if path_eq p q then some e else lookup q rest

pub mark_of : MarkSet → Text → Option MarkEntry
unfolding lookup
mark_of marks q = lookup q marks.entries

Ahead : Text → List (Text × MarkEntry) → Type 0
Ahead p [] = Unit
Ahead p ((q, e) ∷ rest) = cmp_path p q ≡ less

-- The keys stand in strictly rising order.
unfoldable pub Rising : List (Text × MarkEntry) → Type 0
unfolding Ahead
Rising [] = Unit
Rising ((p, e) ∷ rest) = Ahead p rest × Rising rest

path_eq-same : (p q r : Text) → path_eq p q ≡ true → path_eq p r ≡ path_eq q r
path_eq-same p q r h = ground (
  arith,
  Bool-cases (path_eq p r),
  Bool-cases (path_eq q r),
  path_eq_iff p q,
  path_eq_iff p r,
  path_eq_iff q r,
)

lookup-insert :
    (p q : Text) (e : MarkEntry) (xs : List (Text × MarkEntry))
    → lookup q (insert p e xs) ≡ (if path_eq p q then some e else lookup q xs)
unfolding lookup insert
lookup-insert p q e [] = refl
lookup-insert p q e ((r, f) ∷ rest) = ground (
  arith,
  lookup-insert p q e rest,
  cmp_path_total_order p r r,
  path_eq-same p r q,
  path_eq_iff p q,
  path_eq_iff r q,
  path_eq_iff p r,
)

Ahead-insert :
    (r p : Text) (e : MarkEntry) (xs : List (Text × MarkEntry))
    → Ahead r xs
    → cmp_path r p ≡ less
    → Ahead r (insert p e xs)
unfolding Ahead insert
Ahead-insert r p e [] h k = k
Ahead-insert r p e ((q, f) ∷ rest) h k = ground arith

Ahead-flip : (p q : Text) → cmp_path p q ≡ greater → cmp_path q p ≡ less
Ahead-flip p q h = ground (arith, cmp_path_total_order p q q)

placed-Rising :
    (o : Ordering) (p q : Text) (e f : MarkEntry) (rest : List (Text × MarkEntry))
    → cmp_path p q ≡ o
    → Ahead q rest
    → Rising rest
    → Rising (insert p e rest)
    → Rising (placed o (p, e) (q, f) rest (insert p e rest))
unfolding Rising Ahead
placed-Rising less p q e f rest h a r i = (h, (a, r))
placed-Rising equal p q e f rest h a r i = (a, r)
placed-Rising greater p q e f rest h a r i = (Ahead-insert q p e rest a (Ahead-flip p q h), i)

Rising-insert :
    (p : Text) (e : MarkEntry) (xs : List (Text × MarkEntry)) → Rising xs → Rising (insert p e xs)
unfolding Rising Ahead insert
Rising-insert p e [] h = (tt, tt)
Rising-insert p e ((q, f) ∷ rest) (a, r) =
    placed-Rising (cmp_path p q) p q e f rest refl a r (Rising-insert p e rest r)

pub mark_of-record_mark :
    (marks : MarkSet) (p q : Text) (e : MarkEntry)
    → mark_of (record_mark marks p e) q ≡ (if path_eq p q then some e else mark_of marks q)
unfolding record_mark mark_of
mark_of-record_mark marks p q e = lookup-insert p q e marks.entries

pub mark_of-clear : (marks : MarkSet) (q : Text) → mark_of (clear marks) q ≡ none
unfolding mark_of clear
mark_of-clear marks q = refl

-- On marks whose keys rise, `record` is the insertion of a map: the recorded path has the new
-- mark, by whatever text it is named, every other path keeps its own, and the keys stay in
-- strictly rising order.
pub record_mark_lem :
    (marks : MarkSet) (p : Text) (e : MarkEntry)
    → Rising marks.entries
    → ((q : Text)
        → mark_of (record_mark marks p e) q ≡ (if path_eq p q then some e else mark_of marks q))
      × Rising (record_mark marks p e).entries
unfolding record_mark mark_of
record_mark_lem marks p e h =
    (λ q. mark_of-record_mark marks p q e, Rising-insert p e marks.entries h)

-- The objects of a dump that are about a path.
abbrev pub object_at : List WatchedObject → Text → Option WatchedObject
object_at [] q = none
object_at (o ∷ os) q = if path_eq o.path q then some o else object_at os q

-- What a dump says of a mark.
pub record Reported (is_watching : Text → Bool) (e : MarkEntry) (o : WatchedObject) : Type 0 where
  pub kind_is : o.kind ≡ e.kind
  pub recursive_is : o.recursive ≡ e.recursive
  pub watch_is : o.watch ≡ e.watch_root
  pub fanotify_is : o.fanotify ≡ e.ok
  pub file_is : e.kind ≡ file → o.live_marked ≡ none
  pub dir_is : e.kind ≡ dir → o.live_marked ≡ some (is_watching o.path)

pub data Both (is_watching : Text → Bool) : Option MarkEntry → Option WatchedObject → Type 0 where
  absent : Both is_watching none none
  present :
      {e : MarkEntry} {o : WatchedObject}
      → Reported is_watching e o
      → Both is_watching (some e) (some o)

live_file : (w : Text → Bool) (p : Text) (k : ObjKind) → k ≡ file → live w p k ≡ none
unfolding live
live_file w p k h = rw h refl

live_dir : (w : Text → Bool) (p : Text) (k : ObjKind) → k ≡ dir → live w p k ≡ some (w p)
unfolding live
live_dir w p k h = rw h refl

dump_from-Both :
    (xs : List (Text × MarkEntry)) (w : Text → Bool) (q : Text)
    → Both w (lookup q xs) (object_at (dump_from xs w) q)
unfolding lookup dump_from dumped
dump_from-Both [] w q = absent
dump_from-Both ((p, e) ∷ rest) w q = elim (Bool-cases (path_eq p q)) [
  | inl h ↦
      rw (lookup, dump_from, h)
        (present (record {
          kind_is = refl;
          recursive_is = refl;
          watch_is = refl;
          fanotify_is = refl;
          file_is = live_file w p e.kind;
          dir_is = live_dir w p e.kind;
        }))
  | inr h ↦ rw h (dump_from-Both rest w q)
]

-- A dump reports a path just when it is marked, with its kind, its watch and whether the mark was
-- placed, and says of a directory whether new ones below it are noticed.
pub build_dump_reports :
    (marks : MarkSet) (w : Text → Bool) (q : Text)
    → Both w (mark_of marks q) (object_at (build_dump marks w) q)
unfolding mark_of build_dump
build_dump_reports marks w q = dump_from-Both marks.entries w q
