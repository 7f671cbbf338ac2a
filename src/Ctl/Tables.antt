-- ===== src/Ctl/Tables.antt =====
-- filewallctl/src/main.rs: the tables of `dump` and `list`, and the line of `status`.
use filewall.Ctl.{ℤ, pos, negsuc}
use filewall.Ctl.Render.{render_table}
use filewall.Ctl.Status.{State, is_running, is_stale, is_unknown, no_pidfile, bad_pidfile}
use filewall.Prelude.Decimal.{decimal}
use filewall.Prelude.{
  ◌+◌, Bool, true, false, Option, none, some, List, [], ◌∷◌, ◌++◌, Text, text, length, map,
}
use filewall.Proto.{DumpResponse, WatchedObject, ObjKind}
use filewall.Rules.{LearnedRule, RuleAction, ObjectKind}

yes_no : Bool → Text
yes_no true = text "yes"
yes_no false = text "no"

live_text : Option Bool → Text
unfolding yes_no
live_text none = text "-"
live_text (some b) = yes_no b

obj_kind_text : ObjKind → Text
obj_kind_text ObjKind.file = text "file"
obj_kind_text ObjKind.dir = text "dir"

dump_row : WatchedObject → List Text
unfolding obj_kind_text yes_no live_text
dump_row o =
    o.path
    ∷ obj_kind_text o.kind
    ∷ yes_no o.recursive
    ∷ yes_no o.fanotify
    ∷ live_text o.live_marked
    ∷ o.watch
    ∷ []

unfoldable pub dump_table : DumpResponse → Text
unfolding dump_row render_table decimal
dump_table resp =
    render_table
      (text "PATH"
        ∷ text "KIND"
        ∷ text "RECURSIVE"
        ∷ text "FANOTIFY"
        ∷ text "LIVE"
        ∷ text "WATCH"
        ∷ [])
      (map dump_row resp.objects)
    ++ (text "\n"
        ++ (decimal (length resp.objects)
            ++ (text " object(s) (pid " ++ (decimal resp.pid ++ text ")\n"))))

action_text : RuleAction → Text
action_text RuleAction.allow = text "allow"
action_text RuleAction.deny = text "deny"

object_kind_text : ObjectKind → Text
object_kind_text ObjectKind.tree = text "tree"
object_kind_text ObjectKind.file = text "file"

cwd_text : Option Text → Text
cwd_text none = text "-"
cwd_text (some cwd) = cwd

list_row : LearnedRule → List Text
unfolding action_text object_kind_text cwd_text decimal
list_row r =
    decimal r.id
    ∷ action_text r.action
    ∷ r.exe
    ∷ r.object
    ∷ object_kind_text r.object_kind
    ∷ cwd_text r.cwd
    ∷ decimal r.created_unix
    ∷ []

unfoldable pub list_table : List LearnedRule → Text → Text
unfolding list_row render_table decimal
list_table rules path =
    render_table
      (text "ID"
        ∷ text "ACTION"
        ∷ text "EXE"
        ∷ text "OBJECT"
        ∷ text "KIND"
        ∷ text "CWD"
        ∷ text "CREATED"
        ∷ [])
      (map list_row rules)
    ++ (text "\n" ++ (decimal (length rules) ++ (text " rule(s) (" ++ (path ++ text ")\n"))))

int_text : ℤ → Text
unfolding decimal
int_text (pos n) = decimal n
int_text (negsuc n) = b'-' ∷ decimal (n + 1)

-- `unwrap_or(0)`.
pid_text : Option ℤ → Text
unfolding int_text
pid_text none = text "0"
pid_text (some pid) = int_text pid

unfoldable pub status_text : State → Option ℤ → Text
unfolding pid_text
status_text is_running pid = text "filewalld: running (pid " ++ (pid_text pid ++ text ")\n")
status_text is_stale pid = text "filewalld: not running (stale pid " ++ (pid_text pid ++ text ")\n")
status_text no_pidfile pid = text "filewalld: not running (no pidfile)\n"
status_text bad_pidfile pid = text "filewalld: unknown (bad pidfile)\n"
status_text is_unknown pid = text "filewalld: unknown (pid " ++ (pid_text pid ++ text ")\n")
