-- ===== src/Iced/Theme.antt =====
-- filewall-ui-iced/src/theme.rs: the theme that the desktop's colour scheme asks for. What the portal
-- replies to each of the two methods is an argument, `none` where the call or its decoding fails.
use filewall.Prelude.{ℕ, Option, none, some, ◌==◌, if◌then◌else◌}

pub data Theme : Type 0 where
  catppuccin_latte catppuccin_mocha : Theme

abbrev pub fallback : Theme
fallback = catppuccin_latte

-- `zvariant::Value`, as far as it is told apart.
pub data Value : Type 0 where
  u32 : ℕ → Value
  variant : Value → Value
  other : Value

unfoldable pub theme_from_scheme : ℕ → Theme
theme_from_scheme scheme =
    if scheme == 1 then catppuccin_mocha else if scheme == 2 then catppuccin_latte else fallback

unfoldable pub unwrap_u32 : Value → Option ℕ
unwrap_u32 (u32 n) = some n
unwrap_u32 (variant v) = unwrap_u32 v
unwrap_u32 other = none

unwrapped : Option Value → Option ℕ
unfolding unwrap_u32
unwrapped none = none
unwrapped (some v) = unwrap_u32 v

first_of : Option ℕ → Option ℕ → Option ℕ
first_of none second = second
first_of (some n) second = some n

-- `ReadOne`, then `Read`.
unfoldable pub read_scheme : Option Value → Option Value → Option ℕ
unfolding unwrapped first_of
read_scheme read_one read = first_of (unwrapped read_one) (unwrapped read)

themed : Option ℕ → Option Theme
unfolding theme_from_scheme
themed none = none
themed (some n) = some (theme_from_scheme n)

unfoldable pub detect : Option Value → Option Value → Option Theme
unfolding read_scheme themed
detect read_one read = themed (read_scheme read_one read)
