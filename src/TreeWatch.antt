-- ===== src/TreeWatch.antt =====
-- filewalld/src/treewatch.rs: the inotify watches by which new directories are noticed and marked.
-- `add_watch` answers a descriptor, or `none` for an error.
pub mod Follows
use filewall.FilePath.{path_eq, join}
use filewall.Marks.{MarkSet, record_mark}
use filewall.Marks.All.{Fan, entry_of}
use filewall.Policy.{WatchPolicy, Policy, covering_watch, is_excluded}
use filewall.Prelude.{
  ℕ, Bool, true, Option, none, some, List, [], ◌∷◌, Text, any, ◌==◌, if◌then◌else◌,
}
use filewall.Proto.{ObjKind}
use filewall.Walk.{Disk, WatchScan, scan_watch, dirs_to_mark}

-- `inotify` is false where it could not be set up; `wd_map` is the hash map of the descriptors.
pub record TreeWatch : Type 0 where
  pub inotify : Bool
  pub wd_map : List (ℕ × Text)

-- What is read of an event: `IN_Q_OVERFLOW` and `IN_ISDIR` of its mask, and the name.
pub record InotifyEvent : Type 0 where
  pub wd : ℕ
  pub overflow : Bool
  pub is_dir : Bool
  pub name : Option Text

-- `HashMap::insert` and `get`.
unfoldable pub insert : ℕ → Text → List (ℕ × Text) → List (ℕ × Text)
insert wd p [] = (wd, p) ∷ []
insert wd p ((k, q) ∷ rest) =
    let inserted = insert wd p rest in if k == wd then (wd, p) ∷ rest else (k, q) ∷ inserted

unfoldable pub get : ℕ → List (ℕ × Text) → Option Text
get wd [] = none
get wd ((k, q) ∷ rest) = if k == wd then some q else get wd rest

unfoldable pub is_watching : TreeWatch → Text → Bool
is_watching t dir = any (λ x. path_eq x.1 dir) t.wd_map

module _ (add_watch : Text → Option ℕ) where
  added : Option ℕ → Text → TreeWatch → TreeWatch
  unfolding insert
  added none dir t = t
  added (some wd) dir t = record t { wd_map = insert wd dir t.wd_map }

  unfoldable pub add : Text → TreeWatch → TreeWatch
  unfolding added
  add dir t = if t.inotify then added (add_watch dir) dir t else t

  unfoldable pub add_all : List Text → TreeWatch → TreeWatch
  unfolding add
  add_all [] t = t
  add_all (d ∷ ds) t = add_all ds (add d t)

  add_scan : WatchScan → TreeWatch → TreeWatch
  unfolding add_all
  add_scan (WatchScan.dir dirs) t = add_all dirs t
  add_scan _ t = t

  add_watches : Disk → List WatchPolicy → TreeWatch → TreeWatch
  unfolding add_scan
  add_watches fs [] t = t
  add_watches fs (w ∷ ws) t =
      add_watches fs ws (if w.recursive then add_scan (scan_watch fs w) t else t)

  -- `TreeWatch::build`; `inotify` says whether `Inotify::init` succeeds.
  unfoldable pub build : Disk → Bool → Policy → TreeWatch
  unfolding add_watches
  build fs inotify policy =
      let empty : TreeWatch = record { inotify = inotify; wd_map = [] } in
      if inotify then add_watches fs policy.watches empty else empty

  module _ (fs : Disk) (fan : Fan) (policy : Policy) where
    -- Each directory that appeared is marked, recorded and watched.
    unfoldable pub mark_new : WatchPolicy → List Text → TreeWatch × MarkSet → TreeWatch × MarkSet
    unfolding add
    mark_new w [] s = s
    mark_new w (d ∷ ds) (t, marks) =
        mark_new w ds (add d t, record_mark marks d (entry_of w ObjKind.dir (fan.mark_dir d)))

    under : Option WatchPolicy → Text → TreeWatch × MarkSet → TreeWatch × MarkSet
    unfolding mark_new
    under none new_dir s = s
    under (some w) new_dir s = mark_new w (dirs_to_mark fs new_dir (λ p. is_excluded w p)) s

    named : Option Text → Option Text → TreeWatch × MarkSet → TreeWatch × MarkSet
    unfolding under
    named (some name) (some parent) s =
        let new_dir = join parent name in under (covering_watch policy new_dir) new_dir s
    named _ _ s = s

    -- One turn of the loop of `on_ready`: the watches, the marks and `RELOAD`.
    unfoldable pub on_event :
        InotifyEvent → (TreeWatch × MarkSet) × Bool → (TreeWatch × MarkSet) × Bool
    unfolding named get
    on_event ev (s, reload) =
        if ev.overflow
        then (s, true)
        else if ev.is_dir
        then (named ev.name (get ev.wd s.0.wd_map) s, reload)
        else (s, reload)

    on_events : List InotifyEvent → (TreeWatch × MarkSet) × Bool → (TreeWatch × MarkSet) × Bool
    unfolding on_event
    on_events [] s = s
    on_events (ev ∷ evs) s = on_events evs (on_event ev s)

    drained :
        Option (List InotifyEvent) → (TreeWatch × MarkSet) × Bool → (TreeWatch × MarkSet) × Bool
    unfolding on_events
    drained none s = s
    drained (some evs) s = on_events evs s

    -- `TreeWatch::on_ready`, from what `read_events` answers: `none` for an error.
    unfoldable pub on_ready :
        Option (List InotifyEvent) → (TreeWatch × MarkSet) × Bool → (TreeWatch × MarkSet) × Bool
    unfolding drained
    on_ready events s = if s.0.0.inotify then drained events s else s
