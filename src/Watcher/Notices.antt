-- ===== src/Watcher/Notices.antt =====
-- Which changes the watcher's thread takes for a reason to reload.
use filewall.FilePath.{file_name, path_eq}
use filewall.FilePath.Laws.{path_eq_refl}
use filewall.Prelude.{
  Bool, true, false, Option, none, some, List, [], ◌∷◌, Text, any, any-true, any_witness, All, Memᴰ,
  option_text_eq, option_text_eq_iff, ◌≡◌, ◌↔◌, ◌⊎◌, inl, inr, refl, subst, arith, Bool-cases,
}
use filewall.Watcher.{
  dir_of, Watcher, watch_rules, watch_dirs, spawned, spawn_watcher, Read, events, interrupted,
  failed, names_file, watch,
}

-- An event with the name of one of the two files was read, and no read before it failed.
pub data Heard (w : Watcher) : List Read → Type 0 where
  now :
      (names : List (Option Text)) (rest : List Read) (n : Text)
      → Memᴰ (some n) names
      → (n ≡ w.config_name) ⊎ (n ≡ w.rules_name)
      → Heard w (events names ∷ rest)
  later :
      (names : List (Option Text)) (rest : List Read) → Heard w rest → Heard w (events names ∷ rest)
  again : (rest : List Read) → Heard w rest → Heard w (interrupted ∷ rest)

names_file-none : (w : Watcher) → names_file w none ≡ false
unfolding names_file option_text_eq
names_file-none w = refl

names_file-some :
    (w : Watcher) (o : Option Text)
    → names_file w o ≡ true
    → (n : Text) × (o ≡ some n) × ((n ≡ w.config_name) ⊎ (n ≡ w.rules_name))
unfolding names_file
names_file-some w none h = cc (names_file-none w, h)
names_file-some w (some n) h = elim (Bool-cases (option_text_eq (some n) (some w.config_name))) [
  | inl e ↦ (n, refl, inl (cc ((option_text_eq_iff (some n) (some w.config_name)).0 e)))
  | inr e ↦ (
    n,
    refl,
    inr (cc ((option_text_eq_iff (some n) (some w.rules_name)).0 (ground (arith, h, e)))),
  )
]

some-names_file :
    (w : Watcher) (n : Text)
    → (n ≡ w.config_name) ⊎ (n ≡ w.rules_name)
    → names_file w (some n) ≡ true
unfolding names_file
some-names_file w n (inl e) =
    rw e rw ((option_text_eq_iff (some w.config_name) (some w.config_name)).1 refl) refl
some-names_file w n (inr e) =
    ground (arith, (option_text_eq_iff (some n) (some w.rules_name)).1 (rw e refl))

-- Once it is set, `RELOAD` stays set.
watch_keeps : (w : Watcher) (reads : List Read) → watch w reads true ≡ true
unfolding watch
watch_keeps w [] = refl
watch_keeps w (events names ∷ rest) = watch_keeps w rest
watch_keeps w (interrupted ∷ rest) = watch_keeps w rest
watch_keeps w (failed ∷ rest) = refl

watch-Heard : (w : Watcher) (reads : List Read) → watch w reads false ≡ true → Heard w reads
unfolding watch
watch-Heard w [] h = cc
watch-Heard w (events names ∷ rest) h = elim (Bool-cases (any (names_file w) names)) [
  | inl e ↦
      let (o, m, k) = any_witness (names_file w) names e in
      let (n, same, which) = names_file-some w o k in
      Heard.now names rest n (subst (λ x. Memᴰ x names) same m) which
  | inr e ↦ Heard.later names rest (watch-Heard w rest (rw e at h))
]
watch-Heard w (interrupted ∷ rest) h = Heard.again rest (watch-Heard w rest h)
watch-Heard w (failed ∷ rest) h = cc

Heard-watch : (w : Watcher) {reads : List Read} → Heard w reads → watch w reads false ≡ true
unfolding watch
Heard-watch w (Heard.now names rest n m which) =
    rw (any-true (names_file w) m (some-names_file w n which)) (watch_keeps w rest)
Heard-watch w (Heard.later names rest h) = elim (Bool-cases (any (names_file w) names)) [
  | inl e ↦ rw e (watch_keeps w rest)
  | inr e ↦ rw e (Heard-watch w h)
]
Heard-watch w (Heard.again rest h) = Heard-watch w h

-- The two files by name, and the directories that hold them, which are watched.
pub record Watches (config_path rules_path : Text) (add_watch : Text → Bool) (w : Watcher)
    : Type 0 where
  pub config_dir : Text
  pub rules_dir : Text
  pub config_file : file_name config_path ≡ some w.config_name
  pub rules_file : file_name rules_path ≡ some w.rules_name
  pub config_in : dir_of config_path ≡ some config_dir
  pub rules_in : dir_of rules_path ≡ some rules_dir
  pub config_watched : Memᴰ config_dir w.dirs
  pub rules_watched : (d : Text) × Memᴰ d w.dirs × (path_eq rules_dir d ≡ true)
  pub placed : All (λ d. add_watch d ≡ true) w.dirs

none-ne-some : {w : Watcher} → ¬ (◌≡◌ {A = Option Watcher} none (some w))
none-ne-some h = cc

module _ (add_watch : Text → Bool) (cp rp cd cn rd rn : Text) where
  -- Watches on these directories, with the directory of the configuration first.
  placed-Watches :
      (dirs : List Text)
      → file_name cp ≡ some cn
      → file_name rp ≡ some rn
      → dir_of cp ≡ some cd
      → dir_of rp ≡ some rd
      → (d : Text) × Memᴰ d (cd ∷ dirs) × (path_eq rd d ≡ true)
      → All (λ d. add_watch d ≡ true) (cd ∷ dirs)
      → Watches cp rp add_watch (record { config_name = cn; rules_name = rn; dirs = cd ∷ dirs })
  placed-Watches dirs a b c d among placed = record {
    config_dir = cd;
    rules_dir = rd;
    config_file = a;
    rules_file = b;
    config_in = c;
    rules_in = d;
    config_watched = Memᴰ.head refl;
    rules_watched = among;
    placed = placed;
  }

watch_rules-Watches :
    (add_watch : Text → Bool) (cp rp cd cn rd rn : Text) (init : Bool) (w : Watcher)
    → file_name cp ≡ some cn
    → file_name rp ≡ some rn
    → dir_of cp ≡ some cd
    → dir_of rp ≡ some rd
    → add_watch cd ≡ true
    → watch_rules init add_watch cd cn rd rn ≡ some w
    → Watches cp rp add_watch w
unfolding watch_rules
watch_rules-Watches add_watch cp rp cd cn rd rn init w a b c d placed h =
    elim (Bool-cases (path_eq rd cd)) [
      | inl e ↦ subst (Watches cp rp add_watch) (cc (rw e at h)) (
          placed-Watches add_watch cp rp cd cn rd rn [] a b c d (cd, Memᴰ.head refl, e)
            (placed, tt))
      | inr e ↦ elim (Bool-cases (add_watch rd)) [
        | inl k ↦ subst (Watches cp rp add_watch) (ground (arith, h, e, k)) (
            placed-Watches add_watch cp rp cd cn rd rn (rd ∷ []) a b c d
              (rd, Memᴰ.tail (Memᴰ.head refl), path_eq_refl rd) (placed, (k, tt)))
        | inr k ↦ absurd (ground (arith, h, e, k))
      ]
    ]

watch_dirs-Watches :
    (init : Bool) (add_watch : Text → Bool) (cp rp cd cn rd rn : Text) (w : Watcher)
    → file_name cp ≡ some cn
    → file_name rp ≡ some rn
    → dir_of cp ≡ some cd
    → dir_of rp ≡ some rd
    → watch_dirs init add_watch cd cn rd rn ≡ some w
    → Watches cp rp add_watch w
unfolding watch_dirs
watch_dirs-Watches false add_watch cp rp cd cn rd rn w a b c d h = cc
watch_dirs-Watches true add_watch cp rp cd cn rd rn w a b c d h = elim (Bool-cases (add_watch cd)) [
  | inl e ↦ watch_rules-Watches add_watch cp rp cd cn rd rn true w a b c d e (rw e at h)
  | inr e ↦ absurd (none-ne-some (rw e at h))
]

spawned-Watches :
    (init : Bool) (add_watch : Text → Bool) (cp rp : Text) (cd cn rd rn : Option Text) (w : Watcher)
    → file_name cp ≡ cn
    → file_name rp ≡ rn
    → dir_of cp ≡ cd
    → dir_of rp ≡ rd
    → spawned init add_watch cd cn rd rn ≡ some w
    → Watches cp rp add_watch w
unfolding spawned
spawned-Watches init add_watch cp rp (some cd) (some cn) (some rd) (some rn) w a b c d h =
    watch_dirs-Watches init add_watch cp rp cd cn rd rn w a b c d h
spawned-Watches init add_watch cp rp none cn rd rn w a b c d h = cc
spawned-Watches init add_watch cp rp (some cd) none rd rn w a b c d h = cc
spawned-Watches init add_watch cp rp (some cd) (some cn) none rn w a b c d h = cc
spawned-Watches init add_watch cp rp (some cd) (some cn) (some rd) none w a b c d h = cc

-- Where the watcher's thread is started, the directories of the configuration and of the rules file are
-- watched, and `RELOAD`, where it was not set, is set just when an event with the name of one of the
-- two files was read and no read before it failed.
pub spawn_watcher-Heard :
    (inotify_init : Bool) (add_watch : Text → Bool) (config_path rules_path : Text) (w : Watcher)
    → spawn_watcher inotify_init add_watch config_path rules_path ≡ some w
    → Watches config_path rules_path add_watch w
      × ((reads : List Read) → (watch w reads false ≡ true) ↔ Heard w reads)
unfolding spawn_watcher
spawn_watcher-Heard init add_watch cp rp w h = (
  spawned-Watches init add_watch cp rp (dir_of cp) (file_name cp) (dir_of rp) (file_name rp) w refl
      refl refl refl h,
  λ reads. (watch-Heard w reads, Heard-watch w),
)
