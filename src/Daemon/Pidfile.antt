-- ===== src/Daemon/Pidfile.antt =====
-- `write_pidfile` of filewalld/src/main.rs.
use filewall.FilePath.{parent}
use filewall.Prelude.Decimal.{decimal}
use filewall.Prelude.{ℕ, Option, none, some, ◌++◌, Text, text, Result, ok, err, ◌≡◌, arith}
use filewall.Proto.Frame.{ErrorKind}
use filewall.Rules.Disk.{Files, Faults, write_file}

written : Faults → Files → Text → Text → Result ErrorKind (Unit {0}) × Files
written f fs path body = elim f.write [
  | none ↦ (ok tt, write_file fs path body)
  | some e ↦ (err e, write_file fs path f.partial)
]

made_dir : Faults → Text → Option ErrorKind
made_dir f path = elim (parent path) [ none ↦ none | some cs ↦ f.create_dir_all ]

after_dir : Option ErrorKind → Faults → Files → Text → Text → Result ErrorKind (Unit {0}) × Files
unfolding written
after_dir (some e) f fs path body = (err e, fs)
after_dir none f fs path body = written f fs path body

-- The directory is made, and the pid written on a line of its own.
unfoldable pub write_pidfile : Faults → Files → Text → ℕ → Result ErrorKind (Unit {0}) × Files
unfolding after_dir made_dir decimal
write_pidfile f fs path pid = after_dir (made_dir f path) f fs path (decimal pid ++ text "\n")

after_dir-ok :
    (o : Option ErrorKind) (f : Faults) (fs fs' : Files) (path body : Text)
    → after_dir o f fs path body ≡ (ok tt, fs')
    → fs' ≡ write_file fs path body
unfolding after_dir written
after_dir-ok none f fs fs' path body h = ground arith
after_dir-ok (some e) f fs fs' path body h = cc

-- A write that succeeds has written the pid and a newline.
pub write_pidfile-ok :
    (f : Faults) (fs fs' : Files) (path : Text) (pid : ℕ)
    → write_pidfile f fs path pid ≡ (ok tt, fs')
    → fs' ≡ write_file fs path (decimal pid ++ text "\n")
unfolding write_pidfile
write_pidfile-ok f fs fs' path pid h =
    after_dir-ok (made_dir f path) f fs fs' path (decimal pid ++ text "\n") h
