-- ===== src/Rules/Disk.antt =====
-- `Rules::load` and `Rules::save_atomic` of filewall-rules/src/lib.rs. The file system maps a path to
-- the text of a file; TOML is the parameter `Toml`; what the system calls of one save answer is a
-- value of `Faults`.
use filewall.FilePath.{join, parent, path_text}
use filewall.Prelude.Decimal.{decimal}
use filewall.Prelude.{
  ℕ, Option, none, some, [], ◌++◌, ◌≡◌, ◌≢◌, arith, Text, text, text_eq, text_eq_iff, text_eq_refl,
  Option-cases, inl, inr, ◌<◌, Result, ok, err, if◌then◌else◌,
}
use filewall.Proto.Frame.{ErrorKind, invalid_data}
use filewall.Rules.{Rules, default, backfill_ids}
use filewall.Rules.Ids.{IdsValid, id_space}
use filewall.Rules.Backfill.{backfill_ids_unchanged}

pub record Toml : Type 0 where
  pub to_string : Rules → Option Text
  pub from_str : Text → Option Rules

-- The round trip that the `toml` crate documents.
abbrev pub ReadsBack : Toml → Type 0
ReadsBack toml = (rs : Rules) (t : Text) → toml.to_string rs ≡ some t → toml.from_str t ≡ some rs

abbrev pub Files : Type 0
Files = Text → Option Text

unfoldable pub write_file : Files → Text → Text → Files
write_file fs path body p = if text_eq p path then some body else fs p

unfoldable pub remove_file : Files → Text → Files
remove_file fs path p = if text_eq p path then none else fs p

-- What each call answers: `some e` where it fails. A write that fails has left `partial`.
pub record Faults : Type 0 where
  pub create_dir_all : Option ErrorKind
  pub write : Option ErrorKind
  pub partial : Text
  pub rename : Option ErrorKind

abbrev pub no_faults : Faults
no_faults = record { create_dir_all = none; write = none; partial = []; rename = none }

-- The process id and the clock, which name the temporary file.
pub record Stamp : Type 0 where
  pub pid : ℕ
  pub secs : ℕ
  pub nanos : ℕ

-- `path.parent().unwrap_or_else(|| Path::new("."))`.
unfoldable pub parent_dir_of : Text → Text
parent_dir_of path = elim (parent path) [ none ↦ text "." | some cs ↦ path_text cs ]

unfoldable pub tmp_path : Stamp → Text → Text
unfolding parent_dir_of join decimal
tmp_path s path = join (parent_dir_of path) (
    text ".rules."
    ++ (decimal s.pid
        ++ (text "." ++ (decimal s.secs ++ (text "." ++ (decimal s.nanos ++ text ".tmp"))))))

-- The temporary file takes the place of the target.
unfoldable pub rename_file : Files → Text → Text → Text → Files
unfolding write_file remove_file
rename_file fs from to body = write_file (remove_file fs from) to body

module _ (toml : Toml) where
  renamed : Option ErrorKind → Files → Text → Text → Text → Result ErrorKind (Unit {0}) × Files
  renamed none fs tmp path body = (ok tt, rename_file fs tmp path body)
  renamed (some e) fs tmp path body = (err e, fs)

  written :
      Faults → Option ErrorKind → Files → Text → Text → Text → Result ErrorKind (Unit {0}) × Files
  unfolding renamed
  written f none fs tmp path body = renamed f.rename (write_file fs tmp body) tmp path body
  written f (some e) fs tmp path body = (err e, write_file fs tmp f.partial)

  created :
      Faults → Option ErrorKind → Files → Text → Text → Text → Result ErrorKind (Unit {0}) × Files
  unfolding written
  created f none fs tmp path body = written f f.write fs tmp path body
  created f (some e) fs tmp path body = (err e, fs)

  save_body : Option Text → Stamp → Faults → Files → Text → Result ErrorKind (Unit {0}) × Files
  unfolding created
  save_body none s f fs path = (err invalid_data, fs)
  save_body (some body) s f fs path = created f f.create_dir_all fs (tmp_path s path) path body

  unfoldable pub save_atomic :
      Rules → Stamp → Faults → Files → Text → Result ErrorKind (Unit {0}) × Files
  unfolding save_body
  save_atomic rs s f fs path = save_body (toml.to_string rs) s f fs path

  parsed_rules : Option Rules → Rules
  parsed_rules none = default
  parsed_rules (some rs) = backfill_ids rs

  loaded : Option Text → Rules
  unfolding parsed_rules
  loaded none = default
  loaded (some t) = parsed_rules (toml.from_str t)

  -- A file that is not there or cannot be parsed gives no rules.
  unfoldable pub load : Files → Text → Rules
  unfolding loaded
  load fs path = loaded (fs path)

  -- A save that fails, at whichever call, changes no file but the temporary one; a save that
  -- succeeds gives the rules file the whole new text and changes no other file but the temporary
  -- one.
  pub save_atomic_all_or_nothing :
      (rs : Rules) (s : Stamp) (f : Faults) (fs : Files) (path p : Text)
      → p ≢ tmp_path s path
      → let (r, fs') = save_atomic rs s f fs path in
        ((e : ErrorKind) → r ≡ err e → fs' p ≡ fs p)
        × (r ≡ ok tt → fs' p ≡ (if text_eq p path then toml.to_string rs else fs p))
  unfolding save_atomic rename_file
  save_atomic_all_or_nothing rs s f fs path p h = ground (arith, text_eq_iff p (tmp_path s path))

  saved_text :
      (rs : Rules) (s : Stamp) (f : Faults) (fs : Files) (path : Text)
      → (save_atomic rs s f fs path).0 ≡ ok tt
      → (t : Text) × (toml.to_string rs ≡ some t) × ((save_atomic rs s f fs path).1 path ≡ some t)
  unfolding save_atomic rename_file
  saved_text rs s f fs path h = elim (Option-cases (toml.to_string rs)) [
    | inl e ↦ absurd (ground arith)
    | inr (t, e) ↦ (t, e, ground (arith, text_eq_refl path))
  ]

  -- Rules with valid ids and a counter above zero and within `u64`, once saved without an error,
  -- are loaded as they were, given that the TOML form reads back.
  pub load-save_atomic :
      (rs : Rules) (s : Stamp) (f : Faults) (fs : Files) (path : Text)
      → ReadsBack toml
      → IdsValid rs
      → rs.next_id ≢ 0
      → rs.next_id < id_space
      → (save_atomic rs s f fs path).0 ≡ ok tt
      → load (save_atomic rs s f fs path).1 path ≡ rs
  unfolding load
  load-save_atomic rs s f fs path back v n in_space h =
      let (t, e, k) = saved_text rs s f fs path h in
      rw (k, back rs t e) (backfill_ids_unchanged rs v (omega arith) in_space)
