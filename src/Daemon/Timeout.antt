-- ===== src/Daemon/Timeout.antt =====
-- How long the window is told that it has to answer, of `run` in filewalld/src/main.rs, and the
-- daemon's own timeout, which it should come before.
use filewall.Prelude.{ℕ, ◌*◌, ◌-◌, ◌≤◌, ◌<◌, min, max, ◌↔◌, arith}

-- `u64::saturating_mul`.
abbrev saturating_mul : ℕ → ℕ → ℕ
saturating_mul a b = min (a * b) 18446744073709551615

-- `Ord::clamp`.
abbrev clamp : ℕ → ℕ → ℕ → ℕ
clamp n low high = min (max n low) high

-- `UI_TIMEOUT_MARGIN_MS`.
abbrev ui_timeout_margin_ms : ℕ
ui_timeout_margin_ms = 5000

-- `ui_timeout_ms`, from `prompt_timeout_seconds`.
unfoldable pub ui_timeout_ms : ℕ → ℕ
ui_timeout_ms prompt_timeout_seconds =
    clamp (saturating_mul prompt_timeout_seconds 1000 - ui_timeout_margin_ms) 2000 4294967295

-- What the window is told fits a `u32` and gives it two seconds at least; it ends before the
-- daemon's own wait just when that is three seconds or more.
pub ui_timeout_before_daemon :
    (p : ℕ)
    → (2000 ≤ ui_timeout_ms p)
      × (ui_timeout_ms p < 4294967296)
      × ((ui_timeout_ms p < p * 1000) ↔ (3 ≤ p))
unfolding ui_timeout_ms
ui_timeout_before_daemon p = ground arith
