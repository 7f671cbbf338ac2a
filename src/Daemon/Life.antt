-- ===== src/Daemon/Life.antt =====
-- The daemon of filewalld/src/main.rs from its start on: `run`, and then turn after turn of
-- `event_loop`. Each turn has the machine as it is then, what poll reports, and whether `RELOAD` was
-- set by a signal or by the watcher meanwhile.
use mathlib.Core.List.{append-nil, append_assoc, map-append}
use filewall.Daemon.{Event, Seen, Setup}
use filewall.Daemon.Loop.{
  World, Poll, interrupted, timed_out, failed, ready, Loop, polled, read, turn,
}
use filewall.Daemon.Loop.Turn.{turn_answers_each_event}
use filewall.Daemon.Start.{Boot, Started, run, run_starts_iff, started}
use filewall.Prelude.{
  Option, none, some, Bool, List, [], ◌∷◌, ◌++◌, map, Result, ok, err, ◌>>=◌, >>=-eq-ok, ◌≡◌, ◌∙◌,
  refl, ap, sym,
}
use filewall.Proto.Frame.{ErrorKind}

abbrev pub Turns : Type 0
Turns = List (World × Poll × Bool)

-- `event_loop`, for so many turns; an error of poll or of a read ends it.
unfoldable pub event_loop : Setup → Turns → Loop → Result ErrorKind Loop
event_loop c [] l = ok l
event_loop c ((x, poll, hup) ∷ rest) l = do l' ← turn c x poll hup l; event_loop c rest l'

abbrev pub read_events :
    Option (Result ErrorKind (List (Event × Seen))) → Result ErrorKind (List (Event × Seen))
read_events none = ok []
read_events (some r) = r

-- What a poll gives to read.
abbrev pub events_of : Poll → Result ErrorKind (List (Event × Seen))
events_of interrupted = ok []
events_of timed_out = ok []
events_of (failed e) = err e
events_of (ready r) = read_events r.events

-- All events of the turns, where no poll and no read fails.
abbrev pub all_events : Turns → Result ErrorKind (List (Event × Seen))
all_events [] = ok []
all_events ((x, poll, hup) ∷ rest) = do
  now ← events_of poll
  later ← all_events rest
  ok (now ++ later)

read-events :
    (c : Setup) (x : World) (o : Option (Result ErrorKind (List (Event × Seen))))
    → read c x o ≡ read_events o
unfolding read
read-events c x none = refl
read-events c x (some r) = refl

polled-events :
    (c : Setup) (x : World) (poll : Poll) (l : Loop) (events : List (Event × Seen))
    → events_of poll ≡ ok events
    → (l1 : Loop) × (polled c x poll l ≡ ok (events, l1))
unfolding polled read
polled-events c x interrupted l events h = (l, ap (λ es. ok (es, l)) (cc h))
polled-events c x timed_out l events h = (l, ap (λ es. ok (es, l)) (cc h))
polled-events c x (failed e) l events h = cc
polled-events c x (ready r) l events h =
    let e : read c x r.events ≡ ok events = read-events c x r.events ∙ h in rw e (_, refl)

answers_of :
    (c : Setup) (turns : Turns) (l : Loop) (events : List (Event × Seen))
    → all_events turns ≡ ok events
    → (l' : Loop) × (event_loop c turns l ≡ ok l')
      × (map (λ r. r.fd) l'.daemon.responses
          ≡ map (λ r. r.fd) l.daemon.responses ++ map (λ e. e.0.fd) events)
unfolding event_loop
answers_of c [] l events h =
    let none_read : events ≡ [] = cc in
    (l, refl, rw none_read (sym (append-nil (map (λ r. r.fd) l.daemon.responses))))
answers_of c ((x, poll, hup) ∷ rest) l events h =
    let (now, e, h1) = >>=-eq-ok (events_of poll) _ h in
    let (later, f, h2) = >>=-eq-ok (all_events rest) _ h1 in
    let all : events ≡ now ++ later = cc h2 in
    let (l1, p) = polled-events c x poll l now e in
    let (l2, t, answered) = turn_answers_each_event c x poll hup l l1 now p in
    let (l', whole, answered') = answers_of c rest l2 later f in
    let fds = map (λ r. r.fd) l.daemon.responses in
    (
      l',
      rw t whole,
      answered'
          ∙ ap (λ fs. fs ++ map (λ e. e.0.fd) later) answered
          ∙ append_assoc fds (map (λ e. e.0.fd) now) (map (λ e. e.0.fd) later)
          ∙ ap (λ fs. fds ++ fs) (sym (map-append (λ e. e.0.fd) now later))
          ∙ ap (λ es. fds ++ map (λ e. e.0.fd) es) (sym all),
    )

-- From a start that succeeds, through any turns in which no poll and no read fails, whatever is
-- reloaded between them and whatever becomes of the windows: the daemon goes on, and every event that
-- was read in any turn has been answered once, in their order.
pub daemon_answers_every_event :
    (b : Boot) (s : Started) (turns : Turns) (events : List (Event × Seen))
    → run b ≡ ok s
    → all_events turns ≡ ok events
    → (l : Loop) × (event_loop s.setup turns s.loop ≡ ok l)
      × (map (λ r. r.fd) l.daemon.responses ≡ map (λ e. e.0.fd) events)
unfolding started
daemon_answers_every_event b s turns events up h =
    let (cfg, policy, _, _, _, _, same) = (run_starts_iff b s).0 up in
    let (l, goes, answered) = answers_of s.setup turns s.loop events h in
    (
      l,
      goes,
      answered ∙ ap (λ t. map (λ r. r.fd) t.loop.daemon.responses ++ map (λ e. e.0.fd) events) same,
    )
