-- ===== src/Policy/Build.antt =====
-- What `WatchPolicy::new` of filewalld/src/policy.rs compiles the patterns to.
use filewall.FilePath.{strip_prefix}
use filewall.Prelude.{
  Bool, true, false, ◌||◌, Option, none, some, List, [], ◌∷◌, ◌≡◌, refl, Text, Result, ok, err,
  ◌>>=◌, >>=-eq-ok, >>=-err, any, is_nil, Memᴰ, ◌⊎◌, inl, inr, if◌then◌else◌, ◌∙◌, ap,
}
use filewall.Rules.{ObjectKind}
use filewall.Policy.{
  Action, Outcome, from_action, Glob, GlobSet, GlobLib, SetsMatch, WatchPolicy, build_globs,
  new_watch, evaluate_watch, is_excluded, is_included, included_rel, pattern_is_deep,
}

module _ (lib : GlobLib) where
  abbrev matches_if_built : Result Text Glob → Text → Bool
  matches_if_built (ok g) p = g.is_match p
  matches_if_built (err e) p = false

  -- Some pattern of the list, compiled alone, matches the text.
  abbrev pub some_pattern : List Text → Text → Bool
  some_pattern pats p = any (λ pat. matches_if_built (lib.build pat) p) pats

  build_globs-any :
      (pats : List Text) (gs : List Glob) (p : Text)
      → build_globs lib pats ≡ ok gs
      → (any (λ g. g.is_match p) gs ≡ some_pattern pats p) × (is_nil gs ≡ is_nil pats)
  unfolding build_globs
  build_globs-any [] gs p h = let e : gs ≡ [] = cc in rw e (refl, refl)
  build_globs-any (pat ∷ pats) gs p h =
      let (g, e, h1) = >>=-eq-ok (lib.build pat) _ h in
      let (rest, f, h2) = >>=-eq-ok (build_globs lib pats) _ h1 in
      let same : gs ≡ g ∷ rest = cc h2 in
      rw (same, e) (rw (build_globs-any pats rest p f).0 refl, refl)

  -- A set that was built from the patterns.
  abbrev BuiltFrom : List Text → GlobSet → Type 0
  BuiltFrom pats s = (gs : List Glob) × (build_globs lib pats ≡ ok gs) × (lib.build_set gs ≡ ok s)

  BuiltFrom-match :
      (pats : List Text) (s : GlobSet) (p : Text)
      → SetsMatch lib
      → BuiltFrom pats s
      → (s.is_match p ≡ some_pattern pats p) × (s.is_empty ≡ is_nil pats)
  BuiltFrom-match pats s p law (gs, e, f) =
      let (m, n) = build_globs-any pats gs p e in
      (law.matches_some gs s f p ∙ m, law.empty_is_nil gs s f ∙ n)

  -- A relative path that some pattern matches; a path outside the root has none.
  abbrev pub rel_in : List Text → Option Text → Bool
  rel_in pats none = false
  rel_in pats (some rel) = some_pattern pats rel

  module _ (root : Text) (allow : List Text) (d : Action) (lo : ObjectKind) (lc : Bool)
      (exclude patterns : List Text) (w : WatchPolicy) where
    record Parts : Type 0 where
      allow_set : BuiltFrom allow w.allow
      exclude_set : BuiltFrom exclude w.exclude
      include_set : BuiltFrom patterns w.include
      root_is : w.root ≡ root
      default_is : w.default_action ≡ d
      recursive_is : w.recursive ≡ (is_nil patterns || any pattern_is_deep patterns)

    abbrev watch_of : GlobSet → GlobSet → GlobSet → WatchPolicy
    watch_of s1 s2 s3 = record {
      root = root;
      allow = s1;
      default_action = d;
      learn_object = lo;
      learn_cwd = lc;
      exclude = s2;
      include = s3;
      recursive = is_nil patterns || any pattern_is_deep patterns;
    }

    Goal : Result Text GlobSet → Result Text GlobSet → Result Text GlobSet → Type 0
    Goal r1 r2 r3 = (do s1 ← r1; s2 ← r2; s3 ← r3; ok (watch_of s1 s2 s3)) ≡ ok w

    with_sets :
        (g1 g2 g3 : List Glob) (r1 r2 r3 : Result Text GlobSet)
        → build_globs lib allow ≡ ok g1
        → build_globs lib exclude ≡ ok g2
        → build_globs lib patterns ≡ ok g3
        → lib.build_set g1 ≡ r1
        → lib.build_set g2 ≡ r2
        → lib.build_set g3 ≡ r3
        → Goal r1 r2 r3
        → Parts
    unfolding Goal
    with_sets g1 g2 g3 (ok s1) (ok s2) (ok s3) e1 e2 e3 f1 f2 f3 h = record {
      allow_set = (g1, e1, cc);
      exclude_set = (g2, e2, cc);
      include_set = (g3, e3, cc);
      root_is = cc;
      default_is = cc;
      recursive_is = cc;
    }
    with_sets g1 g2 g3 _ _ _ e1 e2 e3 f1 f2 f3 h = cc

    with_globs :
        (r1 r2 r3 : Result Text (List Glob))
        → build_globs lib allow ≡ r1
        → build_globs lib exclude ≡ r2
        → build_globs lib patterns ≡ r3
        → (do
          g1 ← r1
          g2 ← r2
          g3 ← r3
          s1 ← lib.build_set g1
          s2 ← lib.build_set g2
          s3 ← lib.build_set g3
          ok (watch_of s1 s2 s3))
          ≡ ok w
        → Parts
    unfolding Goal
    with_globs (ok g1) (ok g2) (ok g3) e1 e2 e3 h =
        with_sets g1 g2 g3 _ _ _ e1 e2 e3 refl refl refl h
    with_globs _ _ _ e1 e2 e3 h = cc

    new_watch-Parts : new_watch lib root allow d lo lc exclude patterns ≡ ok w → Parts
    unfolding new_watch
    new_watch-Parts h = with_globs _ _ _ refl refl refl h

    pub new_watch-root : new_watch lib root allow d lo lc exclude patterns ≡ ok w → w.root ≡ root
    new_watch-root h = (new_watch-Parts h).root_is

    included_rel-rel_in :
        (o : Option Text)
        → SetsMatch lib
        → BuiltFrom patterns w.include
        → included_rel w.include o ≡ rel_in patterns o
    unfolding included_rel
    included_rel-rel_in none law b = refl
    included_rel-rel_in (some rel) law b = (BuiltFrom-match patterns w.include rel law b).0

    -- A watch that compiled allows an executable that some `allow` pattern matches, and gives its
    -- default action to any other; it excludes the paths that some `exclude` pattern matches; with
    -- no `patterns` it includes every path, and else those whose part below the root some pattern
    -- matches; and it is recursive unless it has patterns and none of them is deep.
    pub new_watch_lem :
        SetsMatch lib
        → new_watch lib root allow d lo lc exclude patterns ≡ ok w
        → ((exe : Text)
            → evaluate_watch w exe
              ≡ (if some_pattern allow exe then Outcome.allow else from_action d))
          × ((p : Text) → is_excluded w p ≡ some_pattern exclude p)
          × ((p : Text)
              → is_included w p
                ≡ (if is_nil patterns then true else rel_in patterns (strip_prefix p root)))
          × (w.recursive ≡ (is_nil patterns || any pattern_is_deep patterns))
    unfolding evaluate_watch is_excluded is_included
    new_watch_lem law h =
        let parts = new_watch-Parts h in
        (
          λ exe.
              rw ((BuiltFrom-match allow w.allow exe law parts.allow_set).0, parts.default_is) refl,
          λ p. (BuiltFrom-match exclude w.exclude p law parts.exclude_set).0,
          λ p.
              rw ((BuiltFrom-match patterns w.include [] law parts.include_set).1, parts.root_is)
                (ap (λ b. if is_nil patterns then true else b)
                  (included_rel-rel_in (strip_prefix p root) law parts.include_set)),
          parts.recursive_is,
        )

  -- Where some pattern of a list does not compile, neither does the list.
  build_globs_bad :
      {pat : Text} {pats : List Text} {e : Text}
      → Memᴰ pat pats
      → lib.build pat ≡ err e
      → (e' : Text) × (build_globs lib pats ≡ err e')
  unfolding build_globs
  build_globs_bad {e = e} (Memᴰ.head m) h = (e, rw (← m) (rw h refl))
  build_globs_bad (Memᴰ.tail {x} m) h =
      let (e', f) = build_globs_bad m h in >>=-err (lib.build x) _ (λ g. (e', rw f refl))

  -- A pattern that does not compile, in whichever of the three lists it stands, is an error of the
  -- whole watch.
  pub new_watch_bad_pattern :
      (root : Text) (allow : List Text) (d : Action) (lo : ObjectKind) (lc : Bool)
      (exclude patterns : List Text) (pat e : Text)
      → Memᴰ pat allow ⊎ Memᴰ pat exclude ⊎ Memᴰ pat patterns
      → lib.build pat ≡ err e
      → (e' : Text) × (new_watch lib root allow d lo lc exclude patterns ≡ err e')
  unfolding new_watch
  new_watch_bad_pattern root allow d lo lc exclude patterns pat e (inl m) h =
      let (e', f) = build_globs_bad m h in (e', rw f refl)
  new_watch_bad_pattern root allow d lo lc exclude patterns pat e (inr (inl m)) h =
      let (e', f) = build_globs_bad m h in >>=-err (build_globs lib allow) _ (λ _. (e', rw f refl))
  new_watch_bad_pattern root allow d lo lc exclude patterns pat e (inr (inr m)) h =
      let (e', f) = build_globs_bad m h in
      >>=-err (build_globs lib allow) _
        λ _. >>=-err (build_globs lib exclude) _ λ _. (e', rw f refl)
