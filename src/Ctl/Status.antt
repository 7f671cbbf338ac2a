-- ===== src/Ctl/Status.antt =====
-- `status_report` of filewallctl/src/main.rs, and what it means.
use filewall.Ctl.{ℤ, Errno, eperm, esrch, errno, parse_pidfile}
use filewall.Prelude.{
  Bool, true, false, Option, none, some, Text, Result, ok, err, ◌≡◌, ◌↔◌, ◌⊎◌, inl, inr, refl,
  subst, arith, Option-cases,
}
use filewall.Rules.Disk.{Files}

pub data Liveness : Type 0 where
  running stale : Liveness
  unknown : Errno → Liveness

unfoldable pub classify_liveness : Result Errno (Unit {0}) → Liveness
classify_liveness (ok u) = running
classify_liveness (err eperm) = running
classify_liveness (err esrch) = stale
classify_liveness (err (errno n)) = unknown (errno n)

pub data State : Type 0 where
  is_running is_stale is_unknown no_pidfile bad_pidfile : State

pub record StatusReport : Type 0 where
  pub running : Bool
  pub pid : Option ℤ
  pub state : State

module _ (kill : ℤ → Result Errno (Unit {0})) where
  of_liveness : ℤ → Liveness → StatusReport
  of_liveness pid running = record { running = true; pid = some pid; state = is_running }
  of_liveness pid stale = record { running = false; pid = some pid; state = is_stale }
  of_liveness pid (unknown e) = record { running = false; pid = some pid; state = is_unknown }

  of_pid : Option ℤ → StatusReport
  unfolding of_liveness classify_liveness
  of_pid none = record { running = false; pid = none; state = bad_pidfile }
  of_pid (some pid) = of_liveness pid (classify_liveness (kill pid))

  of_text : Option Text → StatusReport
  unfolding of_pid parse_pidfile
  of_text none = record { running = false; pid = none; state = no_pidfile }
  of_text (some t) = of_pid (parse_pidfile t)

  unfoldable pub status_report : Files → Text → StatusReport
  unfolding of_text
  status_report fs pidfile = of_text (fs pidfile)

-- The process is there: a signal can be sent, or may only not be sent by this user.
abbrev pub Alive : Result Errno (Unit {0}) → Type 0
Alive r = (r ≡ ok tt) ⊎ (r ≡ err eperm)

of_pid_running :
    (kill : ℤ → Result Errno (Unit {0})) (pid : ℤ)
    → ((of_pid kill (some pid)).running ≡ true) ↔ Alive (kill pid)
unfolding of_pid of_liveness classify_liveness
of_pid_running kill pid = ground arith

none_stopped : (kill : ℤ → Result Errno (Unit {0})) → ¬ ((of_pid kill none).running ≡ true)
unfolding of_pid
none_stopped kill h = cc

found :
    (kill : ℤ → Result Errno (Unit {0})) (fs : Files) (pidfile : Text) (m : Option Text)
    → fs pidfile ≡ m
    → (of_text kill m).running ≡ true
    → (t : Text) × (pid : ℤ) × (fs pidfile ≡ some t)
      × (parse_pidfile t ≡ some pid)
      × Alive (kill pid)
unfolding of_text
found kill fs pidfile none e h = cc
found kill fs pidfile (some t) e h = elim (Option-cases (parse_pidfile t)) [
  | inl g ↦ absurd (none_stopped kill (subst (λ o. (of_pid kill o).running ≡ true) g h))
  | inr (pid, g) ↦
      (t, pid, e, g, (of_pid_running kill pid).0 (subst (λ o. (of_pid kill o).running ≡ true) g h))
]

-- The daemon is reported as running just when the file holds a pid whose process is there; the
-- right to send it signals is not needed.
pub status_running_iff :
    (kill : ℤ → Result Errno (Unit {0})) (fs : Files) (pidfile : Text)
    → ((status_report kill fs pidfile).running ≡ true) ↔ (
        (t : Text) × (pid : ℤ) × (fs pidfile ≡ some t)
        × (parse_pidfile t ≡ some pid)
        × Alive (kill pid))
unfolding status_report of_text
status_running_iff kill fs pidfile = (
  λ h. found kill fs pidfile (fs pidfile) refl h,
  λ (t, pid, e, g, a). rw (e, g) ((of_pid_running kill pid).1 a),
)
