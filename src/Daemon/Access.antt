-- ===== src/Daemon/Access.antt =====
-- The answer that an access gets, and why.
use mathlib.Core.List.{append-nil, append_assoc}
use filewall.Policy.{WatchPolicy, Outcome, covering_watch, is_excluded, is_included}
use filewall.Prelude.{
  Bool, true, false, not, ◌||◌, ◌==◌, Option, none, some, List, [], ◌∷◌, ◌++◌, map, Result, ok, err,
  ◌≡◌, sym, ◌↔◌, inl, inr, refl, ap, arith, Bool-cases, if◌then◌else◌,
}
use filewall.Proto.{Decision, allows}
use filewall.Proto.Frame.{ErrorKind}
use filewall.Server.{Prompted, prompt_recovering}
use filewall.Daemon.{
  Event, Seen, Daemon, Setup, is_open_perm, respond, path_of, prompt_request, ask, skipped, outcome,
  handle, handle_all,
}

module _ (c : Setup) (ev : Event) (seen : Seen) (d : Daemon) where
  -- What the user, if one can be reached, says of the access.
  abbrev pub prompted : Prompted
  prompted =
      prompt_recovering c.json d.server d.ui
        (prompt_request c ev seen (covering_watch d.policy (path_of seen)))

  -- The reasons for which an access is allowed.
  pub data Grants : Type 0 where
    other_event : is_open_perm ev ≡ false → Grants
    own_access : ev.pid ≡ c.own_pid → Grants
    excluded :
        (w : WatchPolicy)
        → covering_watch d.policy (path_of seen) ≡ some w
        → is_excluded w (path_of seen) ≡ true
        → Grants
    out_of_patterns :
        (w : WatchPolicy)
        → covering_watch d.policy (path_of seen) ≡ some w
        → is_included w (path_of seen) ≡ false
        → Grants
    decided_allow : outcome seen d ≡ Outcome.allow → Grants
    user_allows :
        (decision : Decision)
        → outcome seen d ≡ Outcome.prompt
        → prompted.result ≡ ok decision
        → allows decision ≡ true
        → Grants

  -- The access gets one answer, behind those that were given before.
  abbrev pub Answers : Bool → Type 0
  Answers b = (handle c ev seen d).responses ≡ d.responses ++ record { fd = ev.fd; allow = b } ∷ []

  user_says : Result ErrorKind Decision → Bool
  user_says (ok decision) = allows decision
  user_says (err e) = false

  says : Outcome → Bool
  unfolding user_says
  says Outcome.allow = true
  says Outcome.deny = false
  says Outcome.prompt = user_says prompted.result

  answer : Bool
  unfolding says
  answer =
      if not (is_open_perm ev) || (ev.pid == c.own_pid)
      then true
      else if skipped (covering_watch d.policy (path_of seen)) (path_of seen)
      then true
      else says (outcome seen d)

  handle-answer : Answers answer
  unfolding handle answer ask respond
  handle-answer = ground arith

  first_grants : (not (is_open_perm ev) || (ev.pid == c.own_pid)) ≡ true → Grants
  first_grants h = elim (Bool-cases (is_open_perm ev)) [
    | inl e ↦ own_access (ground arith)
    | inr e ↦ other_event e
  ]

  skipped_grants :
      (m : Option WatchPolicy)
      → covering_watch d.policy (path_of seen) ≡ m
      → skipped m (path_of seen) ≡ true
      → Grants
  unfolding skipped
  skipped_grants none e h = cc
  skipped_grants (some w) e h = elim (Bool-cases (is_excluded w (path_of seen))) [
    | inl x ↦ excluded w e x
    | inr x ↦ out_of_patterns w e (ground arith)
  ]

  user_grants :
      (r : Result ErrorKind Decision)
      → outcome seen d ≡ Outcome.prompt
      → prompted.result ≡ r
      → user_says r ≡ true
      → Grants
  unfolding user_says
  user_grants (ok decision) e h k = user_allows decision e h k
  user_grants (err x) e h k = cc

  outcome_grants : (o : Outcome) → outcome seen d ≡ o → says o ≡ true → Grants
  unfolding says
  outcome_grants Outcome.allow e h = decided_allow e
  outcome_grants Outcome.deny e h = cc
  outcome_grants Outcome.prompt e h = user_grants prompted.result e refl h

  allowed_grants : answer ≡ true → Grants
  unfolding answer
  allowed_grants h = elim (Bool-cases (not (is_open_perm ev) || (ev.pid == c.own_pid))) [
    | inl x ↦ first_grants x
    | inr x ↦ elim (Bool-cases (skipped (covering_watch d.policy (path_of seen)) (path_of seen))) [
      | inl y ↦ skipped_grants (covering_watch d.policy (path_of seen)) refl y
      | inr y ↦ outcome_grants (outcome seen d) refl (ground arith)
    ]
  ]

  grants_allow : Grants → answer ≡ true
  unfolding answer says user_says skipped
  grants_allow (other_event e) = ground arith
  grants_allow (own_access e) = ground arith
  grants_allow (excluded w e x) = ground arith
  grants_allow (out_of_patterns w e x) = ground arith
  grants_allow (decided_allow e) = ground arith
  grants_allow (user_allows dec e x y) = ground arith

  -- An access gets exactly one answer, and it is an allow just when the event is none that asks, or
  -- the access is the daemon's own, or the first watch over the path excludes it or has patterns
  -- that leave it out, or the verdict is allow, or the verdict is to ask and the user allows.
  pub handle-Answers : (b : Bool) × Answers b × ((b ≡ true) ↔ Grants)
  handle-Answers = (answer, handle-answer, (allowed_grants, grants_allow))

map-append {ℓ κ} :
    {A : Type ℓ} {B : Type κ} (f : A → B) (xs ys : List A) → map f (xs ++ ys) ≡ map f xs ++ map f ys
map-append f [] ys = refl
map-append f (x ∷ xs) ys = ap (λ zs. f x ∷ zs) (map-append f xs ys)

-- Every event that is read gets one answer, by its own descriptor and in the order of the events.
pub each_event_answered_once :
    (c : Setup) (events : List (Event × Seen)) (d : Daemon)
    → map (λ r. r.fd) (handle_all c events d).responses
      ≡ map (λ r. r.fd) d.responses ++ map (λ x. x.0.fd) events
unfolding handle_all
each_event_answered_once c [] d = sym (append-nil _)
each_event_answered_once c ((ev, seen) ∷ rest) d =
    let (b, h, _) = handle-Answers c ev seen d in
    rw (each_event_answered_once c rest (handle c ev seen d), h, map-append, append_assoc) refl
