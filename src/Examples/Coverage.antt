-- ===== src/Examples/Coverage.antt =====
-- Configurations, marks and the directories that are followed.
use filewall.Config.{WatchConfig, Config, Machine, root_of, build_policy}
use filewall.Config.Watches.{configured, entry_says, build_policy-evaluate}
use filewall.Examples.Samples.{literal_globs, literal_globs-SetsMatch, ssh_watch}
use filewall.FilePath.{join, starts_with}
use filewall.Marks.{MarkEntry, MarkSet, record_mark, build_dump}
use filewall.Marks.All.{Fan}
use filewall.Marks.All.Coverage.{Recorded}
use filewall.Marks.Lookup.{mark_of, Both, object_at, build_dump_reports}
use filewall.Policy.{
  covers, Glob, Action, Policy, WatchPolicy, new_watch, evaluate, is_excluded, covering_watch,
}
use filewall.Prelude.{
  ℕ, true, false, Option, none, some, List, [], ◌∷◌, Memᴰ, Text, text, ◌≡◌, ◌↔◌, inl, inr, refl,
  arith, ok, any, if◌then◌else◌, text_eq, text_eq_iff, Bool-cases,
}
use filewall.Proto.{ObjKind}
use filewall.Rules.{ObjectKind}
use filewall.TreeWatch.{TreeWatch, InotifyEvent, get, is_watching, on_event}
use filewall.TreeWatch.Follows.{Distinct, new_directory_is_followed}
use filewall.Walk.{Disk, directory, children, is_dir, walk_dirs}
use filewall.Walk.Complete.{Finite, walk_dirs_iff}
use filewall.Walk.Reach.{Reach, start}

abbrev pub machine : Machine
machine = record { home = some (text "/home/u"); canonicalize = λ p. none }

abbrev watch_config : WatchConfig
watch_config = record {
  path = text "~/.ssh";
  allow = text "/usr/bin/ssh" ∷ [];
  exclude = [];
  learn_object = ObjectKind.file;
  learn_match = [];
  patterns = [];
}

abbrev config : Config
config = record {
  default_action = Action.deny;
  prompt_timeout_seconds = 30;
  socket_path = [];
  control_socket_path = [];
  rules_path = [];
  watch = watch_config ∷ [];
}

abbrev built : Policy
built = record {
  watches =
      (record {
        root = text "/home/u/.ssh";
        allow = record {
          is_match = λ p.
              any {A = Glob} (λ g. g.is_match p)
                ((record { is_match = λ q. text_eq q (text "/usr/bin/ssh") }) ∷ []);
          is_empty = false;
        };
        default_action = Action.deny;
        learn_object = ObjectKind.file;
        learn_cwd = false;
        exclude = record { is_match = λ p. false; is_empty = true };
        include = record { is_match = λ p. false; is_empty = true };
        recursive = true;
      })
      ∷ [];
}

builds : build_policy literal_globs machine config ≡ ok built
unfolding build_policy new_watch text_eq root_of
builds = refl

build_policy-evaluate_example :
    evaluate built (text "/home/u/.ssh/id") (text "/b")
    ≡ entry_says literal_globs machine Action.deny
        (configured literal_globs machine (watch_config ∷ []) (text "/home/u/.ssh/id"))
        (text "/b")
build_policy-evaluate_example =
    build_policy-evaluate literal_globs machine config built (text "/home/u/.ssh/id") (text "/b")
      literal_globs-SetsMatch builds

abbrev sub : List (Option Text)
sub = some (text "sub") ∷ none ∷ []

-- Two directories, one in the other.
abbrev pub disk : Disk
disk = record {
  read_dir = λ p. if text_eq p (text "/s") then some sub else none;
  file_type = λ p. some directory;
  size = λ p. if text_eq p (text "/s") then 2 else 1;
}

pub disk-Finite : Finite disk
unfolding children is_dir join text_eq
disk-Finite d = elim (Bool-cases (text_eq d (text "/s"))) [
  | inl e ↦ rw ((text_eq_iff d (text "/s")).0 e) (omega arith)
  | inr e ↦ rw e (omega arith)
]

walk_dirs_iff_example :
    Memᴰ (text "/s") (walk_dirs disk (text "/s") (λ p. false))
    ↔ Reach disk (λ p. false) (text "/s") (text "/s")
walk_dirs_iff_example = walk_dirs_iff disk (λ p. false) (text "/s") (text "/s") disk-Finite

abbrev entry : MarkEntry
entry = record { kind = ObjKind.dir; recursive = true; watch_root = text "/s"; ok = true }

abbrev pub marks : MarkSet
marks = record { entries = [] }

build_dump_reports_example :
    Both
      (λ p. true)
      (mark_of (record_mark marks (text "/s") entry) (text "/s/"))
      (object_at (build_dump (record_mark marks (text "/s") entry) (λ p. true)) (text "/s/"))
build_dump_reports_example =
    build_dump_reports (record_mark marks (text "/s") entry) (λ p. true) (text "/s/")

abbrev pub fan : Fan
fan = record { mark_file = λ p. true; mark_dir = λ p. text_eq p (text "/s") }

abbrev tree_watch : WatchPolicy
tree_watch = record ssh_watch { root = text "/s" }

abbrev tree_policy : Policy
tree_policy = record { watches = tree_watch ∷ [] }

-- A descriptor for `/s/sub` alone.
abbrev pub add_watch : Text → Option ℕ
add_watch p = if text_eq p (text "/s/sub") then some 5 else none

add_watch-Distinct :
    Distinct add_watch (Reach disk (λ q. is_excluded tree_watch q) (join (text "/s") (text "sub")))
add_watch-Distinct p q wd reached_p reached_q h k =
    ground (arith, text_eq_iff p (text "/s/sub"), text_eq_iff q (text "/s/sub"))

abbrev pub treewatch : TreeWatch
treewatch = record { inotify = true; wd_map = (1, text "/s") ∷ [] }

abbrev appeared : InotifyEvent
appeared = record { wd = 1; overflow = false; is_dir = true; name = some (text "sub") }

in_tree : covering_watch tree_policy (join (text "/s") (text "sub")) ≡ some tree_watch
unfolding covering_watch covers starts_with join
in_tree = refl

not_excluded : is_excluded tree_watch (join (text "/s") (text "sub")) ≡ false
unfolding is_excluded
not_excluded = refl

known : get 1 treewatch.wd_map ≡ some (text "/s")
unfolding get
known = refl

new_directory_is_followed_example :
    let (t', marks') =
      (on_event add_watch disk fan tree_policy appeared ((treewatch, marks), false)).0 in
    Recorded marks' (join (text "/s") (text "sub"))
    × ((wd : ℕ)
        → add_watch (join (text "/s") (text "sub")) ≡ some wd
        → is_watching t' (join (text "/s") (text "sub")) ≡ true)
new_directory_is_followed_example =
    new_directory_is_followed add_watch disk fan tree_policy appeared treewatch marks false
      tree_watch (text "sub") (text "/s") (join (text "/s") (text "sub")) add_watch-Distinct
      disk-Finite refl refl refl refl known in_tree refl not_excluded start
