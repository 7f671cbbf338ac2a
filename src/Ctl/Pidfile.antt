-- ===== src/Ctl/Pidfile.antt =====
-- filewallctl reads the pidfile that filewalld writes.
use filewall.Ctl.{
  ℤ, pos, Errno, parse_pidfile, parse_i32, drop_spaces, drop_end, at_most, send_sighup, pid_in,
  signalled,
}
use filewall.Ctl.Status.{Alive, status_report, status_running_iff}
use filewall.Daemon.Pidfile.{write_pidfile, write_pidfile-ok}
use filewall.Prelude.Decimal.{decimal, digits, unsigned}
use filewall.Prelude.Decimal.RoundTrip.{IsDigit, decimal-IsDigit_all, decimal_some, digits-decimal}
use filewall.Prelude.{
  ℕ, is_whitespace, ◌≤◌, true, false, some, [], ◌∷◌, ◌++◌, All, Text, text, text_eq_refl, ◌==◌, leb,
  is_nil, Result, ok, ◌≡◌, ◌↔◌, refl, arith, ap, ◌∙◌, subst,
}
use filewall.Rules.Disk.{Toml, Files, Faults, write_file}

no_space : (c : ℕ) → IsDigit c → is_whitespace c ≡ false
unfolding is_whitespace
no_space c h = ground arith

-- The newline behind the digits is trimmed off.
drop_end_newline : (ds : Text) → All IsDigit ds → drop_end (ds ++ text "\n") ≡ ds
unfolding drop_end is_whitespace
drop_end_newline [] h = refl
drop_end_newline (d ∷ ds) h = rw (drop_end_newline ds h.1) (ground (arith, h.0))

parse_i32-digits :
    (d : ℕ) (ds : Text)
    → IsDigit d
    → parse_i32 (d ∷ ds) ≡ at_most 2147483647 pos (digits 0 (d ∷ ds))
unfolding parse_i32 unsigned
parse_i32-digits d ds h =
    let minus : (d == b'-') ≡ false = ground arith in
    let plus : (d == b'+') ≡ false = ground arith in rw (minus, plus) refl

parse_pidfile-digits :
    (ds : Text)
    → All IsDigit ds
    → is_nil ds ≡ false
    → parse_pidfile (ds ++ text "\n") ≡ at_most 2147483647 pos (digits 0 ds)
unfolding parse_pidfile drop_spaces
parse_pidfile-digits [] h k = cc
parse_pidfile-digits (d ∷ ds) h k =
    rw (no_space d h.0) rw (drop_end_newline (d ∷ ds) h) (parse_i32-digits d ds h.0)

read_back : (fs : Files) (path body : Text) → write_file fs path body path ≡ some body
unfolding write_file
read_back fs path body = rw (text_eq_refl path) refl

le→leb : (a b : ℕ) → a ≤ b → leb a b ≡ true
le→leb a b h = ground arith

parse_pidfile-decimal :
    (pid : ℕ) → pid ≤ 2147483647 → parse_pidfile (decimal pid ++ text "\n") ≡ some (pos pid)
unfolding at_most
parse_pidfile-decimal pid h =
    parse_pidfile-digits (decimal pid) (decimal-IsDigit_all pid) (decimal_some pid)
    ∙ rw (digits-decimal pid, le→leb pid 2147483647 h) refl

-- Where the daemon's pidfile was written without an error, and its pid fits an `i32`: `filewallctl`
-- reports it as running just when that process is there, and a `reload` signals just that process.
pub status-write_pidfile :
    (toml : Toml) (kill : ℤ → Result Errno (Unit {0})) (f : Faults) (fs fs' : Files) (path : Text)
    (pid : ℕ)
    → write_pidfile f fs path pid ≡ (ok tt, fs')
    → pid ≤ 2147483647
    → (((status_report kill fs' path).running ≡ true) ↔ Alive (kill (pos pid)))
      × (send_sighup toml kill fs' path ≡ signalled toml kill (some (pos pid)))
unfolding send_sighup pid_in
status-write_pidfile toml kill f fs fs' path pid h fits =
    let body = decimal pid ++ text "\n" in
    let holds : fs' path ≡ some body =
      rw (write_pidfile-ok f fs fs' path pid h) (read_back fs path body) in
    let parsed = parse_pidfile-decimal pid fits in
    (
      (
        λ up.
            let (t, p, e, g, alive) = (status_running_iff kill fs' path).0 up in
            let same_text : t ≡ body = cc (e, holds) in
            let same_pid : p ≡ pos pid = cc (g, ap parse_pidfile same_text, parsed) in
            subst (λ q. Alive (kill q)) same_pid alive,
        λ alive. (status_running_iff kill fs' path).1 (body, pos pid, holds, parsed, alive),
      ),
      rw (holds, parsed) refl,
    )
