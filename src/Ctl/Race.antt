-- ===== src/Ctl/Race.antt =====
-- `filewallctl remove` beside a running daemon: neither locks the rules file. `cmd_remove` of
-- filewallctl/src/main.rs and the handling of an access in filewalld/src/main.rs, in two orders.
use filewall.Ctl.{
  Format, ℤ, Errno, Ran, Removal, remove_ids, saved, finished, remove_loaded, cmd_remove,
}
use filewall.Ctl.Remove.{remove_ids-IdsValid, remove_ids_lem}
use filewall.Daemon.{Event, Seen, Daemon, Setup, path_of, always_action, handle}
use filewall.Daemon.Access.{prompted}
use filewall.Daemon.Fate.{Asked, taught}
use filewall.Daemon.Restart.{learned_rules_load}
use filewall.Policy.{WatchPolicy, covering_watch}
use filewall.Prelude.{
  ok, err, some, false, Result, ℕ, ◌+◌, ◌<◌, List, ◌∷◌, ◌++◌, Memᴰ, is_nil, ◌≡◌, ◌≢◌, refl, sym,
  subst, arith, Text,
}
use filewall.Proto.{Decision}
use filewall.Proto.Frame.{ErrorKind}
use filewall.Rules.{RuleAction, LearnedRule, Rules, push, alloc_id}
use filewall.Rules.Disk.{Toml, ReadsBack, Files, Faults, Stamp, save_atomic, load, load-save_atomic}
use filewall.Rules.Ids.{IdsValid, id_space}

Memᴰ-append : {A : Type 0} {x : A} (xs ys : List A) → Memᴰ x xs → Memᴰ x (xs ++ ys)
Memᴰ-append xs ys (Memᴰ.head e) = Memᴰ.head e
Memᴰ-append (x ∷ xs) ys (Memᴰ.tail m) = Memᴰ.tail (Memᴰ-append xs ys m)

push-keeps :
    (rs : Rules) (learned r : LearnedRule) → Memᴰ r rs.rules → Memᴰ r (push rs learned).rules
unfolding push
push-keeps rs learned r m = Memᴰ-append rs.rules _ m

cons-not_nil : {A : Type 0} {x : A} {xs : List A} → Memᴰ x xs → is_nil xs ≡ false
cons-not_nil (Memᴰ.head e) = refl
cons-not_nil (Memᴰ.tail m) = refl

remove_ids-next_id : (rs : Rules) (ids : List ℕ) → (remove_ids rs ids).rules.next_id ≡ rs.next_id
unfolding remove_ids
remove_ids-next_id rs ids = refl

saved-files :
    (toml : Toml) (kill : ℤ → Result Errno (Unit {0})) (format : Format) (r : Removal)
    (path pidfile : Text) (out : Result ErrorKind (Unit {0}) × Files)
    → (saved toml kill format r path pidfile out).files ≡ out.1
unfolding saved finished
saved-files toml kill format r path pidfile (ok u, fs) = refl
saved-files toml kill format r path pidfile (err e, fs) = refl

module _ (c : Setup) (kill : ℤ → Result Errno (Unit {0})) (ids : List ℕ) (pidfile : Text)
    (format : Format) (s : Stamp) (f : Faults) where
  -- The rest of `cmd_remove` once the rules are loaded.
  abbrev pub removal_of : Rules → Files → Ran
  removal_of rs fs = remove_loaded c.toml kill rs ids c.rules_path pidfile format s f fs

  -- Where a rule is removed and the save succeeds, what is left on file is what `cmd_remove`
  -- computed from the rules that it loaded.
  removal-load :
      (rs : Rules) (fs : Files) (r : LearnedRule)
      → ReadsBack c.toml
      → IdsValid rs
      → rs.next_id ≢ 0
      → rs.next_id < id_space
      → Memᴰ r (remove_ids rs ids).removed
      → (save_atomic c.toml (remove_ids rs ids).rules s f fs c.rules_path).0 ≡ ok tt
      → load c.toml (removal_of rs fs).files c.rules_path ≡ (remove_ids rs ids).rules
  unfolding remove_loaded remove_ids
  removal-load rs fs r back v pos low gone done =
      let e : (removal_of rs fs).files
          ≡ (save_atomic c.toml (remove_ids rs ids).rules s f fs c.rules_path).1 =
        rw (cons-not_nil gone)
          (saved-files c.toml kill format (remove_ids rs ids) c.rules_path pidfile _) in
      rw e (
        load-save_atomic c.toml (remove_ids rs ids).rules s f fs c.rules_path back
          (remove_ids-IdsValid rs ids v).0 pos low done)

  module _ (ev : Event) (seen : Seen) (w : WatchPolicy) (decision : Decision) (a : RuleAction) where
    -- When `cmd_remove` has loaded the rules file, the user then answers "Always" to an access that the
    -- daemon asks about and the daemon stores the rule for it, and `cmd_remove` goes on and removes a
    -- rule, both saves going through: the file had the new rule in between, but what is left on it is
    -- what `remove` makes of the rules without it, and the next rule that is learned from the file gets
    -- the id that the lost one had.
    pub remove_loses_concurrent_rule :
        (d : Daemon) (r : LearnedRule)
        → load c.toml d.files c.rules_path ≡ d.rules
        → Asked c ev seen d
        → covering_watch d.policy (path_of seen) ≡ some w
        → (prompted c ev seen d).result ≡ ok decision
        → always_action decision ≡ some a
        → ReadsBack c.toml
        → IdsValid d.rules
        → d.rules.next_id ≢ 0
        → d.rules.next_id + 2 < id_space
        → Memᴰ r d.rules.rules
        → Memᴰ r.id ids
        → (save_atomic c.toml
            (push d.rules (taught c ev seen d w a))
            seen.stamp
            seen.faults
            d.files
            c.rules_path).0
          ≡ ok tt
        → (save_atomic c.toml
            (remove_ids d.rules ids).rules
            s
            f
            (handle c ev seen d).files
            c.rules_path).0
          ≡ ok tt
        → let between = (handle c ev seen d).files in
          let after = (removal_of (load c.toml d.files c.rules_path) between).files in
          (load c.toml between c.rules_path ≡ push d.rules (taught c ev seen d w a))
          × (load c.toml after c.rules_path ≡ (remove_ids d.rules ids).rules)
          × ((alloc_id (load c.toml after c.rules_path).next_id).0 ≡ (alloc_id d.rules.next_id).0)
    remove_loses_concurrent_rule d r sync asked e p k back v pos room m asks saved1 saved2 =
        let left =
          removal-load d.rules (handle c ev seen d).files r back v pos (omega (arith, room))
            (((remove_ids_lem d.rules ids).1 r).1 (m, asks)) saved2 in
        let counter : (remove_ids d.rules ids).rules.next_id ≡ d.rules.next_id =
          remove_ids-next_id d.rules ids in
        (
          learned_rules_load c ev seen d w decision a asked e p k back v room saved1,
          rw sync left,
          rw (sync, left, counter) refl,
        )

    -- When `cmd_remove` takes a rule off the rules file while the user is being asked about an access,
    -- and the user then answers "Always", both saves going through: after the removal the file does not
    -- have the rule, and after the answer it has it again, since the daemon writes the rules that it
    -- has in memory, which are what it loads when it comes to the signal of `remove`.
    pub removed_rule_returns :
        (d : Daemon) (r : LearnedRule)
        → let removal = cmd_remove c.toml kill ids c.rules_path pidfile format s f d.files in
          let d1 = record d { files = removal.files } in
          load c.toml d.files c.rules_path ≡ d.rules
          → Asked c ev seen d1
          → covering_watch d.policy (path_of seen) ≡ some w
          → (prompted c ev seen d1).result ≡ ok decision
          → always_action decision ≡ some a
          → ReadsBack c.toml
          → IdsValid d.rules
          → d.rules.next_id ≢ 0
          → d.rules.next_id + 2 < id_space
          → Memᴰ r d.rules.rules
          → Memᴰ r.id ids
          → (save_atomic c.toml (remove_ids d.rules ids).rules s f d.files c.rules_path).0 ≡ ok tt
          → (save_atomic c.toml
              (push d.rules (taught c ev seen d1 w a))
              seen.stamp
              seen.faults
              removal.files
              c.rules_path).0
            ≡ ok tt
          → (¬ Memᴰ r (load c.toml removal.files c.rules_path).rules)
            × (load c.toml (handle c ev seen d1).files c.rules_path
                ≡ push d.rules (taught c ev seen d1 w a))
            × Memᴰ r (load c.toml (handle c ev seen d1).files c.rules_path).rules
    unfolding cmd_remove
    removed_rule_returns d r sync asked e p k back v pos room m asks saved1 saved2 =
        let removal = cmd_remove c.toml kill ids c.rules_path pidfile format s f d.files in
        let d1 = record d { files = removal.files } in
        let left : load c.toml removal.files c.rules_path ≡ (remove_ids d.rules ids).rules =
          rw sync (
            removal-load d.rules d.files r back v pos (omega (arith, room))
              (((remove_ids_lem d.rules ids).1 r).1 (m, asks)) saved1) in
        let again = learned_rules_load c ev seen d1 w decision a asked e p k back v room saved2 in
        (
          λ still.
              (((remove_ids_lem d.rules ids).0 r).0 (subst (λ l. Memᴰ r l.rules) left still)).1
                asks,
          again,
          subst (λ l. Memᴰ r l.rules) (sym again)
              (push-keeps d.rules (taught c ev seen d1 w a) r m),
        )
