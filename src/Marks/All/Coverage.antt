-- ===== src/Marks/All/Coverage.antt =====
-- What `mark_all` of filewalld/src/main.rs leaves recorded.
use mathlib.Core.List.Memᴰ.{cases_cons}
use filewall.FilePath.{path_eq}
use filewall.FilePath.Laws.{path_eq_refl}
use filewall.Marks.{MarkEntry, MarkSet, clear, record_mark}
use filewall.Marks.Lookup.{mark_of-clear, mark_of-record_mark, mark_of}
use filewall.Marks.All.{Fan, entry_of, mark_dirs, mark_scan, mark_watches, mark_all}
use filewall.Policy.{WatchPolicy, Policy}
use filewall.Prelude.{
  ℕ, ◌+◌, Bool, true, some, List, [], ◌∷◌, Text, if◌then◌else◌, ◌≡◌, sym, subst, refl, Memᴰ,
  Bool-cases, inl, inr,
}
use filewall.Proto.{ObjKind}
use filewall.Walk.{Disk, WatchScan, unresolved, scan_watch}

-- The marks that a scan asks for: the path, its kind, and whether the call succeeds.
pub data Asks (fan : Fan) : WatchScan → Text → ObjKind → Bool → Type 0 where
  one_file : {p : Text} → Asks fan (WatchScan.file p) p ObjKind.file (fan.mark_file p)
  one_dir :
      {p : Text} {ps : List Text}
      → Memᴰ p ps
      → Asks fan (WatchScan.dir ps) p ObjKind.dir (fan.mark_dir p)

-- The mark of `q` is one that a watch of the list asked for.
pub record Asked (fs : Disk) (fan : Fan) (ws : List WatchPolicy) (q : Text) (e : MarkEntry)
    : Type 0 where
  pub watch : WatchPolicy
  pub stands : Memᴰ watch ws
  pub path : Text
  pub kind : ObjKind
  pub ok : Bool
  pub asks : Asks fan (scan_watch fs watch) path kind ok
  pub same : path_eq path q ≡ true
  pub entry : e ≡ entry_of watch kind ok

-- Some mark of the path is recorded.
abbrev pub Recorded : MarkSet → Text → Type 0
Recorded marks q = (e : MarkEntry) × (mark_of marks q ≡ some e)

pub record_mark-Recorded :
    (marks : MarkSet) (p q : Text) (e : MarkEntry)
    → (Recorded marks q → Recorded (record_mark marks p e) q) × Recorded (record_mark marks p e) p
record_mark-Recorded marks p q e = (
  λ (f, h). elim (Bool-cases (path_eq p q)) [
    | inl k ↦ (e, rw (mark_of-record_mark, k) refl)
    | inr k ↦ (f, rw (mark_of-record_mark, k) h)
  ],
  (e, rw (mark_of-record_mark, path_eq_refl) refl),
)

mark_dirs-Recorded :
    (fan : Fan) (w : WatchPolicy) (ds : List Text) (n : ℕ) (marks : MarkSet) (q : Text)
    → (Recorded marks q → Recorded (mark_dirs fan w ds (n, marks)).1 q)
      × (Memᴰ q ds → Recorded (mark_dirs fan w ds (n, marks)).1 q)
unfolding mark_dirs
mark_dirs-Recorded fan w [] n marks q = (λ r. r, λ m. elim m [ ])
mark_dirs-Recorded fan w (d ∷ ds) n marks q =
    let e = entry_of w ObjKind.dir (fan.mark_dir d) in
    let (kept, at) = record_mark-Recorded marks d q e in
    let (later, here) =
      mark_dirs-Recorded fan w ds (if fan.mark_dir d then n + 1 else n) (record_mark marks d e) q in
    (
      λ r. later (kept r),
      λ m. elim (cases_cons m) [
        | inl k ↦ later (subst (λ x. Recorded (record_mark marks d e) x) (sym k) at)
        | inr k ↦ here k
      ],
    )

mark_scan-keeps :
    (fan : Fan) (w : WatchPolicy) (s : WatchScan) (n : ℕ) (marks : MarkSet) (q : Text)
    → Recorded marks q
    → Recorded (mark_scan fan w s (n, marks)).1 q
unfolding mark_scan
mark_scan-keeps fan w unresolved n marks q r = r
mark_scan-keeps fan w (WatchScan.file p) n marks q r =
    (record_mark-Recorded marks p q (entry_of w ObjKind.file (fan.mark_file p))).0 r
mark_scan-keeps fan w (WatchScan.dir ds) n marks q r = (mark_dirs-Recorded fan w ds 0 marks q).0 r

mark_scan-Recorded :
    (fan : Fan) (w : WatchPolicy) (s : WatchScan) (n : ℕ) (marks : MarkSet) (q : Text)
    (kind : ObjKind) (ok : Bool)
    → Asks fan s q kind ok
    → Recorded (mark_scan fan w s (n, marks)).1 q
unfolding mark_scan
mark_scan-Recorded fan w _ n marks q _ _ one_file =
    (record_mark-Recorded marks q q (entry_of w ObjKind.file (fan.mark_file q))).1
mark_scan-Recorded fan w _ n marks q _ _ (one_dir {ps} m) =
    (mark_dirs-Recorded fan w ps 0 marks q).1 m

module _ (fs : Disk) (fan : Fan) where
  mark_watches-keeps :
      (ws : List WatchPolicy) (n : ℕ) (marks : MarkSet) (q : Text)
      → Recorded marks q
      → Recorded (mark_watches fs fan ws (n, marks)).1 q
  unfolding mark_watches
  mark_watches-keeps [] n marks q r = r
  mark_watches-keeps (w ∷ ws) n marks q r =
      mark_watches-keeps ws _ _ q (mark_scan-keeps fan w (scan_watch fs w) n marks q r)

  mark_watches-Recorded :
      (ws : List WatchPolicy) (w : WatchPolicy) (n : ℕ) (marks : MarkSet) (q : Text)
      (kind : ObjKind) (ok : Bool)
      → Memᴰ w ws
      → Asks fan (scan_watch fs w) q kind ok
      → Recorded (mark_watches fs fan ws (n, marks)).1 q
  unfolding mark_watches
  mark_watches-Recorded [] w n marks q kind ok m a = elim m [ ]
  mark_watches-Recorded (v ∷ ws) w n marks q kind ok m a = elim (cases_cons m) [
    | inl e ↦ mark_watches-keeps ws _ _ q (
        mark_scan-Recorded fan v (scan_watch fs v) n marks q kind ok
          (subst (λ x. Asks fan (scan_watch fs x) q kind ok) e a))
    | inr k ↦ mark_watches-Recorded ws w _ _ q kind ok k a
  ]

  module _ (all : List WatchPolicy) where
    -- Every recorded mark was asked for by a watch of `all`.
    FromScans : MarkSet → Type 0
    FromScans marks = (q : Text) (e : MarkEntry) → mark_of marks q ≡ some e → Asked fs fan all q e

    record_mark-FromScans :
        (marks : MarkSet) (w : WatchPolicy) (p : Text) (kind : ObjKind) (ok : Bool)
        → FromScans marks
        → Memᴰ w all
        → Asks fan (scan_watch fs w) p kind ok
        → FromScans (record_mark marks p (entry_of w kind ok))
    unfolding FromScans
    record_mark-FromScans marks w p kind ok h m a q e = elim (Bool-cases (path_eq p q)) [
      | inl k ↦
          rw (mark_of-record_mark, k)
            λ x. record {
              watch = w;
              stands = m;
              path = p;
              kind = kind;
              ok = ok;
              asks = a;
              same = k;
              entry = cc;
            }
      | inr k ↦ rw (mark_of-record_mark, k) (h q e)
    ]

    mark_dirs-FromScans :
        (w : WatchPolicy) (ds : List Text) (n : ℕ) (marks : MarkSet)
        → FromScans marks
        → Memᴰ w all
        → ((d : Text) → Memᴰ d ds → Asks fan (scan_watch fs w) d ObjKind.dir (fan.mark_dir d))
        → FromScans (mark_dirs fan w ds (n, marks)).1
    unfolding mark_dirs
    mark_dirs-FromScans w [] n marks h m a = h
    mark_dirs-FromScans w (d ∷ ds) n marks h m a =
        mark_dirs-FromScans w ds _ _
          (record_mark-FromScans marks w d ObjKind.dir (fan.mark_dir d) h m (a d (Memᴰ.head refl)))
          m (λ x k. a x (Memᴰ.tail k))

    mark_scan-FromScans :
        (w : WatchPolicy) (s : WatchScan) (n : ℕ) (marks : MarkSet)
        → scan_watch fs w ≡ s
        → FromScans marks
        → Memᴰ w all
        → FromScans (mark_scan fan w s (n, marks)).1
    unfolding mark_scan
    mark_scan-FromScans w unresolved n marks e h m = h
    mark_scan-FromScans w (WatchScan.file p) n marks e h m =
        record_mark-FromScans marks w p ObjKind.file (fan.mark_file p) h m (rw e one_file)
    mark_scan-FromScans w (WatchScan.dir ds) n marks e h m =
        mark_dirs-FromScans w ds 0 marks h m (λ d k. rw e (one_dir k))

    mark_watches-FromScans :
        (ws : List WatchPolicy) (n : ℕ) (marks : MarkSet)
        → FromScans marks
        → ((w : WatchPolicy) → Memᴰ w ws → Memᴰ w all)
        → FromScans (mark_watches fs fan ws (n, marks)).1
    unfolding mark_watches
    mark_watches-FromScans [] n marks h m = h
    mark_watches-FromScans (w ∷ ws) n marks h m =
        mark_watches-FromScans ws _ _
          (mark_scan-FromScans w (scan_watch fs w) n marks refl h (m w (Memᴰ.head refl)))
          (λ v k. m v (Memᴰ.tail k))

clear-FromScans :
    (fs : Disk) (fan : Fan) (ws : List WatchPolicy) (marks : MarkSet)
    → FromScans fs fan ws (clear marks)
unfolding FromScans
clear-FromScans fs fan ws marks q e = rw mark_of-clear λ h. cc

-- After `mark_all` every path that a watch's scan asked to mark is recorded, also where the mark
-- itself failed; and every record, with its kind, its watch and its outcome, is one that a watch of
-- the policy asked for, so nothing of an earlier policy is left.
pub mark_all_covers :
    (fs : Disk) (fan : Fan) (policy : Policy) (marks : MarkSet)
    → ((w : WatchPolicy) (q : Text) (kind : ObjKind) (ok : Bool)
        → Memᴰ w policy.watches
        → Asks fan (scan_watch fs w) q kind ok
        → Recorded (mark_all fs fan policy marks).1 q)
      × ((q : Text) (e : MarkEntry)
          → mark_of (mark_all fs fan policy marks).1 q ≡ some e
          → Asked fs fan policy.watches q e)
unfolding mark_all FromScans
mark_all_covers fs fan policy marks = (
  λ w q kind ok m a. mark_watches-Recorded fs fan policy.watches w 0 (clear marks) q kind ok m a,
  mark_watches-FromScans fs fan policy.watches policy.watches 0 (clear marks)
      (clear-FromScans fs fan policy.watches marks) (λ w m. m),
)
