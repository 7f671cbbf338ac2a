-- ===== src/Daemon/Loop/Turn.antt =====
-- What one turn of the loop of filewalld/src/main.rs does: its answers, and a reload.
use filewall.Config.{ConfigError}
use filewall.Daemon.{Event, Seen, Setup, handle_all}
use filewall.Daemon.Access.{each_event_answered_once}
use filewall.Daemon.Loop.{
  World, Poll, interrupted, timed_out, failed, ready, Loop, polled, new_policy, maybe_reload,
  reloaded, turn, told, noticed, read,
}
use filewall.Marks.All.{mark_all}
use filewall.Policy.{Policy}
use filewall.Prelude.{
  Bool, true, false, ◌||◌, Option, none, some, List, ◌++◌, map, ok, err, >>=-eq-ok, ◌≡◌, refl, ap,
  ◌∙◌, arith,
}
use filewall.Rules.Disk.{load}
use filewall.TreeWatch
use filewall.TreeWatch.{InotifyEvent}

module _ (c : Setup) (x : World) where
  told-noticed-daemon :
      (asked : Bool) (evs : Option (Option (List InotifyEvent))) (l : Loop)
      → (told c x asked (noticed c x evs l)).daemon ≡ l.daemon
  unfolding told noticed
  told-noticed-daemon asked none l = ground arith
  told-noticed-daemon asked (some evs) l = ground arith

  polled-daemon :
      (poll : Poll) (l l1 : Loop) (events : List (Event × Seen))
      → polled c x poll l ≡ ok (events, l1)
      → l1.daemon ≡ l.daemon
  unfolding polled told noticed
  polled-daemon interrupted l l1 events h = cc
  polled-daemon timed_out l l1 events h = cc
  polled-daemon (failed e) l l1 events h = cc
  polled-daemon (ready r) l l1 events h =
      let (evs, _, k) = >>=-eq-ok (read c x r.events) _ h in
      let e : l1 ≡ told c x r.asked (noticed c x r.inotify l) = cc in
      rw e (told-noticed-daemon r.asked r.inotify l)

  reload-responses : (l : Loop) → (maybe_reload c x l).daemon.responses ≡ l.daemon.responses
  unfolding maybe_reload reloaded
  reload-responses l = ground arith

  -- A turn whose poll and reads succeed goes through, whatever becomes of a reload, and it has
  -- answered each event that was read in it once, in their order.
  pub turn_answers_each_event :
      (poll : Poll) (hup : Bool) (l l1 : Loop) (events : List (Event × Seen))
      → polled c x poll l ≡ ok (events, l1)
      → (l' : Loop) × (turn c x poll hup l ≡ ok l')
        × (map (λ r. r.fd) l'.daemon.responses
            ≡ map (λ r. r.fd) l.daemon.responses ++ map (λ e. e.0.fd) events)
  unfolding turn
  turn_answers_each_event poll hup l l1 events h =
      let l2 = maybe_reload c x (record l1 { reload = l1.reload || hup }) in
      (
        record l2 { daemon = handle_all c events l2.daemon },
        rw h refl,
        each_event_answered_once c events l2.daemon
            ∙ ap (λ rs. map (λ r. r.fd) rs ++ map (λ e. e.0.fd) events)
                (reload-responses (record l1 { reload = l1.reload || hup })
                  ∙ ap (λ d. d.responses) (polled-daemon poll l l1 events h)),
      )

  -- A reload that is due takes place before the events of its turn are handled. It replaces the
  -- policy, the rules, the marks and the watches on directories together; or, where the
  -- configuration cannot be read, parsed or compiled, it leaves all of them as they are.
  pub reload_is_all_or_nothing :
      (poll : Poll) (hup : Bool) (l l1 : Loop) (events : List (Event × Seen))
      → polled c x poll l ≡ ok (events, l1)
      → (l1.reload || hup) ≡ true
      → ((e : ConfigError)
          → new_policy c x ≡ err e
          → turn c x poll hup l
            ≡ ok (record l1 { reload = false; daemon = handle_all c events l1.daemon }))
        × ((p : Policy)
            → new_policy c x ≡ ok p
            → turn c x poll hup l
              ≡ ok (record l1 {
                reload = false;
                marks = (mark_all x.disk x.fan p l1.marks).1;
                treewatch = TreeWatch.build x.add_watch x.disk x.inotify_init p;
                daemon = handle_all c events (record l1.daemon {
                  policy = p;
                  rules = load c.toml l1.daemon.files c.rules_path;
                });
              }))
  unfolding turn maybe_reload reloaded
  reload_is_all_or_nothing poll hup l l1 events h k =
      (λ e n. rw (h, k, n) refl, λ p n. rw (h, k, n) refl)
