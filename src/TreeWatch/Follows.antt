-- ===== src/TreeWatch/Follows.antt =====
-- A directory that appears below a watch is followed: it and what is below it are recorded and
-- watched in their turn.
use mathlib.Core.List.Memᴰ.{cases_cons}
use filewall.FilePath.{path_eq, join}
use filewall.FilePath.Laws.{path_eq_refl}
use filewall.Marks.{MarkSet}
use filewall.Marks.All.{Fan, entry_of}
use filewall.Marks.All.Coverage.{Recorded, record_mark-Recorded}
use filewall.Policy.{WatchPolicy, Policy, covering_watch, is_excluded}
use filewall.Prelude.{
  ℕ, Bool, true, false, Option, some, List, [], ◌∷◌, Text, any, ◌==◌, if◌then◌else◌, ◌≡◌, refl,
  arith, Memᴰ, inl, inr, Option-cases, ==_iff,
}
use filewall.Proto.{ObjKind}
use filewall.TreeWatch.{
  TreeWatch, InotifyEvent, insert, get, is_watching, add, added, mark_new, named, under, on_event,
}
use filewall.Walk.{Disk, dirs_to_mark}
use filewall.Walk.Complete.{Finite, walk_dirs_iff}
use filewall.Walk.Reach.{Reach}

get-insert :
    (wd k : ℕ) (p : Text) (m : List (ℕ × Text))
    → get k (insert wd p m) ≡ (if wd == k then some p else get k m)
unfolding get insert
get-insert wd k p [] = refl
get-insert wd k p ((j, q) ∷ rest) = ground (arith, get-insert wd k p rest)

in_map :
    (wd : ℕ) (p : Text) (m : List (ℕ × Text))
    → get wd m ≡ some p
    → any (λ x. path_eq x.1 p) m ≡ true
unfolding get
in_map wd p [] h = cc
in_map wd p ((k, q) ∷ rest) h = ground (arith, in_map wd p rest, path_eq_refl p)

get-is_watching :
    (wd : ℕ) (p : Text) (t : TreeWatch) → get wd t.wd_map ≡ some p → is_watching t p ≡ true
unfolding is_watching
get-is_watching wd p t h = in_map wd p t.wd_map h

module _ (add_watch : Text → Option ℕ) where
  -- No two of these paths have one descriptor, as where they name different directories.
  abbrev pub Distinct : (Text → Type 0) → Type 0
  Distinct In =
      (p q : Text) (wd : ℕ) → In p → In q → add_watch p ≡ some wd → add_watch q ≡ some wd → p ≡ q

  Follows : TreeWatch → Text → Type 0
  Follows t p = (wd : ℕ) → add_watch p ≡ some wd → get wd t.wd_map ≡ some p

  add-inotify : (d : Text) (t : TreeWatch) → t.inotify ≡ true → (add add_watch d t).inotify ≡ true
  unfolding add added
  add-inotify d t h = ground arith

  add-Follows : (d : Text) (t : TreeWatch) → t.inotify ≡ true → Follows (add add_watch d t) d
  unfolding Follows add added
  add-Follows d t h wd e = rw (h, e, get-insert, (==_iff wd wd).1 refl) refl

  add-keeps :
      (In : Text → Type 0) (d p : Text) (t : TreeWatch)
      → Distinct In
      → In d
      → In p
      → t.inotify ≡ true
      → Follows t p
      → Follows (add add_watch d t) p
  unfolding Follows add added
  add-keeps In d p t distinct in_d in_p h f wd e = elim (Option-cases (add_watch d)) [
    | inl n ↦ rw (h, n) (f wd e)
    | inr (k, n) ↦
        ground (arith, get-insert k wd d t.wd_map, f wd e, distinct p d wd in_p in_d e, h, n)
  ]

  Follows-get :
      (t : TreeWatch) (p : Text) (wd : ℕ)
      → Follows t p
      → add_watch p ≡ some wd
      → get wd t.wd_map ≡ some p
  unfolding Follows
  Follows-get t p wd f e = f wd e

  module _ (fs : Disk) (fan : Fan) (policy : Policy) where
    mark_new-keeps :
        (In : Text → Type 0) (w : WatchPolicy) (ds : List Text) (t : TreeWatch) (marks : MarkSet)
        (p : Text)
        → Distinct In
        → ((q : Text) → Memᴰ q ds → In q)
        → In p
        → t.inotify ≡ true
        → Recorded marks p
        → Follows t p
        → let (t', marks') = mark_new add_watch fs fan policy w ds (t, marks) in
          Recorded marks' p × Follows t' p
    unfolding mark_new
    mark_new-keeps In w [] t marks p distinct all in_p i r f = (r, f)
    mark_new-keeps In w (d ∷ ds) t marks p distinct all in_p i r f =
        mark_new-keeps In w ds _ _ p distinct (λ q m. all q (Memᴰ.tail m)) in_p (add-inotify d t i)
          ((record_mark-Recorded marks d p (entry_of w ObjKind.dir (fan.mark_dir d))).0 r)
          (add-keeps In d p t distinct (all d (Memᴰ.head refl)) in_p i f)

    mark_new-Follows :
        (In : Text → Type 0) (w : WatchPolicy) (ds : List Text) (t : TreeWatch) (marks : MarkSet)
        (p : Text)
        → Distinct In
        → ((q : Text) → Memᴰ q ds → In q)
        → t.inotify ≡ true
        → Memᴰ p ds
        → let (t', marks') = mark_new add_watch fs fan policy w ds (t, marks) in
          Recorded marks' p × Follows t' p
    unfolding mark_new
    mark_new-Follows In w [] t marks p distinct all i m = elim m [ ]
    mark_new-Follows In w (d ∷ ds) t marks p distinct all i m = elim (cases_cons m) [
      | inl e ↦ rw e (
          mark_new-keeps In w ds _ _ d distinct (λ q k. all q (Memᴰ.tail k))
            (all d (Memᴰ.head refl)) (add-inotify d t i)
            (record_mark-Recorded marks d d (entry_of w ObjKind.dir (fan.mark_dir d))).1
            (add-Follows d t i))
      | inr k ↦
          mark_new-Follows In w ds _ _ p distinct (λ q l. all q (Memᴰ.tail l)) (add-inotify d t i) k
    ]

    -- When the kernel reports a new directory below a watched one, under a recursive watch of the
    -- policy that does not exclude it, then every directory that is reached from it without passing
    -- through an excluded one, itself included, has its mark recorded, and is watched from then on if
    -- `add_watch` accepts it. Inotify must be up, the tree finite, and no two of the directories so reached may
    -- have one descriptor.
    pub new_directory_is_followed :
        (ev : InotifyEvent) (t : TreeWatch) (marks : MarkSet) (reload : Bool) (w : WatchPolicy)
        (name parent p : Text)
        → Distinct (Reach fs (λ q. is_excluded w q) (join parent name))
        → Finite fs
        → t.inotify ≡ true
        → ev.overflow ≡ false
        → ev.is_dir ≡ true
        → ev.name ≡ some name
        → get ev.wd t.wd_map ≡ some parent
        → covering_watch policy (join parent name) ≡ some w
        → w.recursive ≡ true
        → is_excluded w (join parent name) ≡ false
        → Reach fs (λ q. is_excluded w q) (join parent name) p
        → let (t', marks') = (on_event add_watch fs fan policy ev ((t, marks), reload)).0 in
          Recorded marks' p × ((wd : ℕ) → add_watch p ≡ some wd → is_watching t' p ≡ true)
    unfolding on_event named under dirs_to_mark
    new_directory_is_followed ev t marks reload w name parent p distinct fin i o d n g c v x r =
        let iff = walk_dirs_iff fs (λ q. is_excluded w q) (join parent name) in
        let (rec, f) =
          mark_new-Follows (Reach fs (λ q. is_excluded w q) (join parent name)) w _ t marks p
            distinct (λ q m. (iff q fin).0 m) i ((iff p fin).1 r) in
        rw (o, d, n, g, c, x) (rec, λ wd e. get-is_watching wd p _ (Follows-get _ p wd f e))
