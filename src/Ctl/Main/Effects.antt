-- ===== src/Ctl/Main/Effects.antt =====
-- What the commands of filewallctl may change.
use filewall.Ctl.{Format, ℤ, Ran, cmd_remove}
use filewall.Ctl.Main.Requests.{Numbers, Signalled}
use filewall.Ctl.Main.{Machine, second_or, default_rules, default_pidfile}
use filewall.Prelude.{ℕ, List, [], ◌∷◌, Text, text, ◌≡◌}
use filewall.Rules.Disk.{Files}

-- The files are as they were, and no signal was sent.
abbrev pub ReadsOnly : Files → Ran → Type 0
ReadsOnly fs r = (r.files ≡ fs) × (r.signals ≡ [])

-- The arguments ask to remove these rules, of which there is one at least.
pub record Removes (args : List Text) (id : ℕ) (ids : List ℕ) : Type 0 where
  pub words : List Text
  pub asked : args ≡ text "remove" ∷ words
  pub numbers : Numbers words (id ∷ ids)

-- The arguments ask for a reload, and the daemon of the pidfile can be told.
pub record Reloads (m : Machine) (args : List Text) (fs : Files) (pid : ℤ) : Type 0 where
  pub words : List Text
  pub asked : args ≡ text "reload" ∷ words
  pub found : Signalled m fs (second_or words default_pidfile) pid

-- What a run does.
pub data Effect (m : Machine) (args : List Text) (format : Format) (fs : Files) (r : Ran)
    : Type 0 where
  removes :
      (id : ℕ) (ids : List ℕ)
      → Removes args id ids
      → r
        ≡ cmd_remove m.toml m.kill
            (id ∷ ids)
            default_rules
            default_pidfile
            format
            m.stamp
            m.faults
            fs
      → Effect m args format fs r
  reloads :
      (pid : ℤ)
      → Reloads m args fs pid
      → r.files ≡ fs
      → r.signals ≡ pid ∷ []
      → Effect m args format fs r
  reads_only :
      ((id : ℕ) (ids : List ℕ) → ¬ Removes args id ids)
      → ((pid : ℤ) → ¬ Reloads m args fs pid)
      → ReadsOnly fs r
      → Effect m args format fs r
