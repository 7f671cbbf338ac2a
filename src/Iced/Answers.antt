-- ===== src/Iced/Answers.antt =====
-- The answers that the worker of filewall-ui-iced gives, and the size of what its window shows.
use filewall.Iced.{cap_at, cap, build, Window, decides, wait_ms, awaited, resolve}
use filewall.FilePath.{file_name}
use filewall.Ui.{abbrev_path, name_or}
use filewall.Prelude.{
  Bool-cases, inl, inr, text, ℕ, ◌+◌, ◌≤◌, ◌<◌, true, some, List, [], ◌∷◌, ◌++◌, Text, length, take,
  length-append, length-take, leb, is_nil, if◌then◌else◌, ◌≡◌, arith,
}
use filewall.Proto.{Decision, PromptRequest, allows}

length-cut : (n : ℕ) (s t : Text) → length (take n s ++ t) ≤ n + length t
length-cut n s t = omega (arith, length-append (take n s) t, length-take n s)

length-cap_at : (n : ℕ) (s : Text) → length (cap_at n s) ≤ n + 1
unfolding cap_at
length-cap_at n s = elim (Bool-cases (leb (length s) n)) [
  | inl e ↦ rw e (ground arith)
  | inr e ↦ rw e (length-cut n s (8230 ∷ []))
]

length-cap : (s : Text) → length (cap s) ≤ 401
unfolding cap
length-cap s = length-cap_at 400 s

length-cmdline : (c : Text) → length (if is_nil c then text "<unavailable>" else cap c) ≤ 401
length-cmdline [] = omega arith
length-cmdline (x ∷ c) = length-cap (x ∷ c)

-- No field of the window is longer than 401 characters, however long the request's are.
pub fields_are_bounded :
    (req : PromptRequest) (home : Text)
    → let v = build req home in
      (length v.proc_name ≤ 401)
      × (length v.path ≤ 401)
      × (length v.exe ≤ 401)
      × (length v.object ≤ 401)
      × (length v.cwd ≤ 401)
      × (length v.cmdline ≤ 401)
unfolding build
fields_are_bounded req home = (
  length-cap (name_or (file_name req.exe) req.exe),
  length-cap (abbrev_path req.path home),
  length-cap (abbrev_path req.exe home),
  length-cap (abbrev_path req.always_object home),
  length-cap (abbrev_path req.cwd home),
  length-cmdline req.cmdline,
)

-- The worker passes on an allow only where the window decided so on this very request, and within
-- the time that the worker waits; answers left from earlier requests decide nothing.
pub allows_only_its_own_answer :
    (req : PromptRequest) (fallback_ms : ℕ) (window : Window) (stale : List Decision) (d : Decision)
    → (resolve req fallback_ms window stale).0 ≡ some d
    → allows d ≡ true
    → (delay : ℕ) × (window ≡ decides delay d) × (delay < wait_ms req fallback_ms)
unfolding resolve awaited allows
allows_only_its_own_answer req fallback_ms Window.closed stale d h k = cc
allows_only_its_own_answer req fallback_ms Window.silent stale d h k = ground (arith, h, k)
allows_only_its_own_answer req fallback_ms Window.leaves stale d h k = cc
allows_only_its_own_answer req fallback_ms (decides delay e) stale d h k =
    (delay, ground arith, ground arith)
