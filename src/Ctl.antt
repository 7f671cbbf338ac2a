-- ===== src/Ctl.antt =====
-- filewallctl/src/main.rs and format.rs: the commands that change or ask about the daemon. What a
-- command prints is a list of lines; `kill` is a parameter, and the signals that were sent are kept.
pub mod Remove
pub mod Promise
pub mod Race
pub mod Lifecycle
pub mod Status
pub mod Pidfile
pub mod Render
pub mod Tables
pub mod Main
use filewall.Prelude.Decimal.{unsigned}
use filewall.Prelude.{
  zero, suc, ℕ, leb, Bool, false, not, ◌&&◌, Option, none, some, List, [], ◌∷◌, ◌++◌, Text, text,
  text_eq, any, keep_if, is_nil, is_whitespace, Result, ok, err, ◌==◌, if◌then◌else◌, map,
}
use filewall.Proto.Frame.{ErrorKind}
use filewall.Rules.{LearnedRule, Rules}
use filewall.Rules.Disk.{Toml, Files, Faults, Stamp, load, save_atomic}

pub data Format : Type 0 where
  table json yaml : Format

format_of : Text → Option Format
unfolding text_eq
format_of a =
    if text_eq a (text "--json")
    then some json
    else if text_eq a (text "--yaml")
    then some yaml
    else if text_eq a (text "--table")
    then some table
    else none

take_arg : Option Format → Text → Format × List Text → Format × List Text
take_arg (some f) a (format, rest) = (f, rest)
take_arg none a (format, rest) = (format, rest ++ a ∷ [])

parse_from : List Text → Format × List Text → Format × List Text
unfolding format_of take_arg
parse_from [] s = s
parse_from (a ∷ as') s = parse_from as' (take_arg (format_of a) a s)

-- `parse_format`: the last format flag counts, and the other arguments stay in order.
unfoldable pub parse_format : List Text → Format × List Text
unfolding parse_from
parse_format args = parse_from args (table, [])

-- An `i32`.
pub data ℤ : Type 0 where
  pos : ℕ → ℤ
  negsuc : ℕ → ℤ

-- The number below zero by so much.
negative : ℕ → ℤ
negative zero = pos 0
negative (suc n) = negsuc n

pub data Errno : Type 0 where
  eperm esrch : Errno
  errno : ℕ → Errno

at_most : ℕ → (ℕ → ℤ) → Option ℕ → Option ℤ
at_most top sign none = none
at_most top sign (some n) = if leb n top then some (sign n) else none

-- `str::parse::<i32>`.
parse_i32 : Text → Option ℤ
unfolding at_most negative
parse_i32 [] = none
parse_i32 (c ∷ cs) =
    if c == b'-'
    then at_most 2147483648 negative (unsigned cs)
    else if c == b'+'
    then at_most 2147483647 pos (unsigned cs)
    else at_most 2147483647 pos (unsigned (c ∷ cs))

drop_spaces : Text → Text
unfolding is_whitespace
drop_spaces [] = []
drop_spaces (c ∷ cs) = let rest = drop_spaces cs in if is_whitespace c then rest else c ∷ cs

-- The text less the spaces at its end.
drop_end : Text → Text
unfolding is_whitespace
drop_end [] = []
drop_end (c ∷ cs) =
    let rest = drop_end cs in if is_whitespace c && is_nil rest then [] else c ∷ rest

unfoldable pub parse_pidfile : Text → Option ℤ
unfolding parse_i32 drop_spaces drop_end
parse_pidfile s = parse_i32 (drop_end (drop_spaces s))

-- `ids.contains(&r.id)`.
abbrev pub contains : List ℕ → ℕ → Bool
contains ids id = any (λ i. i == id) ids

-- `remove_ids`: the rules that stay, those that go, and the ids that no rule had.
pub record Removal : Type 0 where
  pub rules : Rules
  pub removed : List LearnedRule
  pub missing : List ℕ

unfoldable pub remove_ids : Rules → List ℕ → Removal
remove_ids rs ids =
    let removed = keep_if (λ r. contains ids r.id) rs.rules in
    record {
      rules = record rs { rules = keep_if (λ r. not (contains ids r.id)) rs.rules };
      removed = removed;
      missing = keep_if (λ id. not (any (λ r. r.id == id) removed)) ids;
    }

-- What a command prints, before it is rendered.
pub data Line : Type 0 where
  removed_rule : ℕ → Text → Text → Line
  no_rule_with_id : List ℕ → Line
  could_not_write : Text → ErrorKind → Line
  sent_sighup : ℤ → Line
  reload_failed render_failed usage_text needs_ids : Line
  printed error : Text → Line
  ack : Bool → Option ℤ → List ℕ → List ℕ → Line

-- The files, the `SIGHUP`s that were sent, what was printed, and whether the exit code is success.
pub record Ran : Type 0 where
  pub files : Files
  pub signals : List ℤ
  pub lines : List Line
  pub success : Bool

module _ (toml : Toml) (kill : ℤ → Result Errno (Unit {0})) where
  unfoldable pub signalled : Option ℤ → Option ℤ
  signalled none = none
  signalled (some pid) = elim (kill pid) [ ok u ↦ some pid | err e ↦ none ]

  pid_in : Option Text → Option ℤ
  unfolding parse_pidfile
  pid_in none = none
  pid_in (some t) = parse_pidfile t

  -- `send_sighup(..).ok()`: the pid that was signalled.
  unfoldable pub send_sighup : Files → Text → Option ℤ
  unfolding signalled pid_in
  send_sighup fs pidfile = signalled (pid_in (fs pidfile))

  sent_to : Option ℤ → List ℤ
  sent_to none = []
  sent_to (some pid) = pid ∷ []

  removed_lines : Format → Removal → Option ℤ → List Line
  removed_lines table r pid =
      map (λ x. removed_rule x.id x.exe x.object) r.removed
      ++ (if is_nil r.missing then [] else no_rule_with_id r.missing ∷ [])
  removed_lines _ r pid = ack (is_nil r.missing) pid (map (λ x. x.id) r.removed) r.missing ∷ []

  failed_lines : Format → Text → ErrorKind → List Line
  failed_lines table path e = could_not_write path e ∷ []
  failed_lines _ path e = ack false none [] [] ∷ []

  finished : Format → Removal → Option ℤ → Files → Ran
  unfolding removed_lines sent_to
  finished format r pid fs = record {
    files = fs;
    signals = sent_to pid;
    lines = removed_lines format r pid;
    success = is_nil r.missing;
  }

  saved : Format → Removal → Text → Text → Result ErrorKind (Unit {0}) × Files → Ran
  unfolding finished failed_lines send_sighup
  saved format r path pidfile (ok u, fs) = finished format r (send_sighup fs pidfile) fs
  saved format r path pidfile (err e, fs) = record {
    files = fs;
    signals = [];
    lines = failed_lines format path e;
    success = false;
  }

  -- `cmd_remove`, after `Rules::load`.
  unfoldable pub remove_loaded :
      Rules → List ℕ → Text → Text → Format → Stamp → Faults → Files → Ran
  unfolding remove_ids saved
  remove_loaded rs ids path pidfile format s f fs =
      let r = remove_ids rs ids in
      if is_nil r.removed
      then finished format r none fs
      else saved format r path pidfile (save_atomic toml r.rules s f fs path)

  unfoldable pub cmd_remove : List ℕ → Text → Text → Format → Stamp → Faults → Files → Ran
  unfolding remove_loaded
  cmd_remove ids path pidfile format s f fs =
      remove_loaded (load toml fs path) ids path pidfile format s f fs
