-- ===== src/Config/Watches.antt =====
-- The policy that `build_policy` of filewalld/src/config.rs makes, against the configuration itself.
use filewall.FilePath.{starts_with}
use filewall.Policy.{
  Action, Outcome, from_action, GlobLib, SetsMatch, WatchPolicy, Policy, evaluate, evaluate_watch,
  covers, covering_watch,
}
use filewall.Policy.Build.{some_pattern, new_watch-root, new_watch_lem}
use filewall.Prelude.{
  Option, none, some, List, [], ◌∷◌, ◌++◌, Text, find, Result, ok, err, >>=-eq-ok, map_err, ◌≡◌,
  refl, Memᴰ, Bool-cases, inl, inr, if◌then◌else◌,
}
use filewall.Config.{
  WatchConfig, Config, ConfigError, glob, Machine, root_of, build_watch, build_watches,
  build_policy,
}

map_err-ok : {E F A : Type 0} (f : E → F) (r : Result E A) {a : A} → map_err f r ≡ ok a → r ≡ ok a
map_err-ok f (ok a) h = cc
map_err-ok f (err e) h = cc

module _ (lib : GlobLib) (m : Machine) where
  -- The first entry of the configuration that is over the path.
  abbrev pub configured : List WatchConfig → Text → Option WatchConfig
  configured ws path = find (λ w. starts_with path (root_of m w)) ws

  -- What an entry says of an executable.
  abbrev pub entry_says : Action → Option WatchConfig → Text → Outcome
  entry_says action none exe = Outcome.allow
  entry_says action (some w) exe =
      if some_pattern lib w.allow exe then Outcome.allow else from_action action

  build_watch_lem :
      (action : Action) (w : WatchConfig) (wp : WatchPolicy)
      → SetsMatch lib
      → build_watch lib m action w ≡ ok wp
      → (wp.root ≡ root_of m w)
        × ((exe : Text) → evaluate_watch wp exe ≡ entry_says action (some w) exe)
  unfolding build_watch
  build_watch_lem action w wp law h =
      let e = map_err-ok (glob w.path) _ h in
      (new_watch-root lib _ _ _ _ _ _ _ _ e, (new_watch_lem lib _ _ _ _ _ _ _ _ law e).0)

  build_watches_lem :
      (action : Action) (ws : List WatchConfig) (wps : List WatchPolicy) (path exe : Text)
      → SetsMatch lib
      → build_watches lib m action ws ≡ ok wps
      → evaluate (record { watches = wps }) path exe ≡ entry_says action (configured ws path) exe
  unfolding build_watches evaluate covering_watch covers
  build_watches_lem action [] wps path exe law h = let e : wps ≡ [] = cc in rw e refl
  build_watches_lem action (w ∷ ws) wps path exe law h =
      let (wp, e, h1) = >>=-eq-ok (build_watch lib m action w) _ h in
      let (rest, f, h2) = >>=-eq-ok (build_watches lib m action ws) _ h1 in
      let same : wps ≡ wp ∷ rest = cc h2 in
      let (r, k) = build_watch_lem action w wp law e in
      rw (same, r)
        (elim (Bool-cases (starts_with path (root_of m w))) [
          | inl c ↦ rw c (k exe)
          | inr c ↦ rw c (build_watches_lem action ws rest path exe law f)
        ])

  -- The policy that a configuration is built into allows what no entry is over. Otherwise the
  -- first entry that is over the path decides: what one of its `allow` patterns matches is
  -- allowed, the rest gets the default action. A glob set must match where one of its globs does.
  pub build_policy-evaluate :
      (cfg : Config) (p : Policy) (path exe : Text)
      → SetsMatch lib
      → build_policy lib m cfg ≡ ok p
      → evaluate p path exe ≡ entry_says cfg.default_action (configured cfg.watch path) exe
  unfolding build_policy
  build_policy-evaluate cfg p path exe law h =
      let (ws, e, f) = >>=-eq-ok (build_watches lib m cfg.default_action cfg.watch) _ h in
      let same : p ≡ record { watches = ws } = cc f in
      rw same (build_watches_lem cfg.default_action cfg.watch ws path exe law e)

  build_watches_first_bad :
      (action : Action) (before after : List WatchConfig) (w : WatchConfig) (e : ConfigError)
      → ((v : WatchConfig)
          → Memᴰ v before
          → (wp : WatchPolicy) × (build_watch lib m action v ≡ ok wp))
      → build_watch lib m action w ≡ err e
      → build_watches lib m action (before ++ w ∷ after) ≡ err e
  unfolding build_watches
  build_watches_first_bad action [] after w e good bad = rw bad refl
  build_watches_first_bad action (v ∷ vs) after w e good bad =
      let (wp, f) = good v (Memᴰ.head refl) in
      rw (f, build_watches_first_bad action vs after w e (λ u k. good u (Memᴰ.tail k)) bad) refl

  -- Where some entry cannot be built, such as by a pattern that does not compile, the whole
  -- configuration fails with the error of the first such entry.
  pub build_policy_first_bad :
      (cfg : Config) (before after : List WatchConfig) (w : WatchConfig) (e : ConfigError)
      → cfg.watch ≡ before ++ w ∷ after
      → ((v : WatchConfig)
          → Memᴰ v before
          → (wp : WatchPolicy) × (build_watch lib m cfg.default_action v ≡ ok wp))
      → build_watch lib m cfg.default_action w ≡ err e
      → build_policy lib m cfg ≡ err e
  unfolding build_policy
  build_policy_first_bad cfg before after w e split good bad =
      rw (split, build_watches_first_bad cfg.default_action before after w e good bad) refl
