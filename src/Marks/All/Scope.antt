-- ===== src/Marks/All/Scope.antt =====
-- What `mark_all` of filewalld/src/main.rs marks, told from the watches and the file system alone.
use mathlib.Core.List.Memᴰ.{eq_of_singleton}
use filewall.FilePath.{path_eq}
use filewall.Marks.{MarkEntry, MarkSet}
use filewall.Marks.All.{Fan, entry_of, mark_all}
use filewall.Marks.All.Coverage.{Asks, Recorded, mark_all_covers}
use filewall.Marks.Lookup.{mark_of}
use filewall.Policy.{WatchPolicy, Policy, is_excluded}
use filewall.Prelude.{
  List, [], ◌∷◌, Bool, true, false, Option, none, some, ◌≡◌, sym, subst, refl, Text, Memᴰ,
  Bool-cases, inl, inr,
}
use filewall.Proto.{ObjKind}
use filewall.Walk.{
  Disk, FileType, regular, directory, other, WatchScan, scanned, scan_watch, walk_dirs,
}
use filewall.Walk.Complete.{Finite, walk_dirs_iff}
use filewall.Walk.Reach.{Reach}

-- What is to be marked for a watch: its root if that is a file; else every directory below it that is
-- reached without passing through an excluded one, or the root alone where the watch goes no deeper.
pub data InScope (fs : Disk) (w : WatchPolicy) : Text → ObjKind → Type 0 where
  the_file : fs.file_type w.root ≡ some regular → InScope fs w w.root ObjKind.file
  below :
      {p : Text}
      → fs.file_type w.root ≡ some directory
      → w.recursive ≡ true
      → Reach fs (λ q. is_excluded w q) w.root p
      → InScope fs w p ObjKind.dir
  the_root :
      fs.file_type w.root ≡ some directory → w.recursive ≡ false → InScope fs w w.root ObjKind.dir

module _ (fs : Disk) (fan : Fan) (fin : Finite fs) where
  InScope-Asks :
      (w : WatchPolicy) (q : Text) (kind : ObjKind)
      → InScope fs w q kind
      → (ok : Bool) × Asks fan (scan_watch fs w) q kind ok
  unfolding scan_watch scanned
  InScope-Asks w _ _ (the_file e) = (fan.mark_file w.root, rw e Asks.one_file)
  InScope-Asks w _ _ (below {p} e r h) =
      (fan.mark_dir p, rw (e, r) (Asks.one_dir ((walk_dirs_iff fs _ w.root p fin).1 h)))
  InScope-Asks w _ _ (the_root e r) =
      (fan.mark_dir w.root, rw (e, r) (Asks.one_dir (Memᴰ.head refl)))

  of_file :
      (w : WatchPolicy) (o : Option FileType) (p : Text)
      → scanned fs w o ≡ WatchScan.file p
      → (o ≡ some regular) × (p ≡ w.root)
  unfolding scanned
  of_file w none p h = cc
  of_file w (some regular) p h = (refl, cc)
  of_file w (some other) p h = cc
  of_file w (some directory) p h = elim (Bool-cases w.recursive) [
    | inl r ↦ cc (rw r at h)
    | inr r ↦ cc (rw r at h)
  ]

  of_dir :
      (w : WatchPolicy) (o : Option FileType) (ps : List Text)
      → fs.file_type w.root ≡ o
      → scanned fs w o ≡ WatchScan.dir ps
      → (q : Text) → Memᴰ q ps
      → InScope fs w q ObjKind.dir
  unfolding scanned
  of_dir w none ps e h q m = cc
  of_dir w (some regular) ps e h q m = cc
  of_dir w (some other) ps e h q m = cc
  of_dir w (some directory) ps e h q m = elim (Bool-cases w.recursive) [
    | inl r ↦
        let same : ps ≡ walk_dirs fs w.root (λ q. is_excluded w q) = cc (rw r at h) in
        below e r
          ((walk_dirs_iff fs (λ q. is_excluded w q) w.root q fin).0 (subst (λ l. Memᴰ q l) same m))
    | inr r ↦
        let same : ps ≡ w.root ∷ [] = cc (rw r at h) in
        subst (λ x. InScope fs w x ObjKind.dir)
          (sym (eq_of_singleton (subst (λ l. Memᴰ q l) same m))) (the_root e r)
  ]

  Asks-InScope :
      (w : WatchPolicy) (s : WatchScan) (q : Text) (kind : ObjKind) (ok : Bool)
      → Asks fan s q kind ok
      → scan_watch fs w ≡ s
      → InScope fs w q kind
  unfolding scan_watch
  Asks-InScope w _ q _ _ Asks.one_file h =
      let (e, same) = of_file w (fs.file_type w.root) q h in
      subst (λ x. InScope fs w x ObjKind.file) (sym same) (the_file e)
  Asks-InScope w _ q _ _ (Asks.one_dir {ps} m) h = of_dir w (fs.file_type w.root) ps refl h q m

  -- Over a finite tree, what `mark_all` leaves recorded is exactly what the watches of the policy
  -- have in their scope, each path with the watch and the kind of a mark that is asked for it.
  pub marks_are_the_scope :
      (policy : Policy) (marks : MarkSet)
      → ((w : WatchPolicy) (q : Text) (kind : ObjKind)
          → Memᴰ w policy.watches
          → InScope fs w q kind
          → Recorded (mark_all fs fan policy marks).1 q)
        × ((q : Text) (e : MarkEntry)
            → mark_of (mark_all fs fan policy marks).1 q ≡ some e
            → (w : WatchPolicy) × (p : Text) × (kind : ObjKind) × (ok : Bool) × Memᴰ w
                policy.watches
              × InScope fs w p kind
              × (path_eq p q ≡ true)
              × (e ≡ entry_of w kind ok))
  marks_are_the_scope policy marks =
      let (covers, only) = mark_all_covers fs fan policy marks in
      (
        λ w q kind m i. let (ok, a) = InScope-Asks w q kind i in covers w q kind ok m a,
        λ q e h.
            let a = only q e h in
            (
              a.watch,
              a.path,
              a.kind,
              a.ok,
              a.stands,
              Asks-InScope a.watch _ a.path a.kind a.ok a.asks refl,
              a.same,
              a.entry,
            ),
      )
