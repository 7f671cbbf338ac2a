-- ===== src/Tests/Theme.antt =====
-- The tests of filewall-ui-iced/src/theme.rs.
use filewall.Iced.Theme.{
  u32, variant, other, catppuccin_latte, catppuccin_mocha, fallback, theme_from_scheme, unwrap_u32,
}
use filewall.Prelude.{none, some, ◌≡◌, refl}

abbrev SchemeMapping : Type 0
SchemeMapping =
    (theme_from_scheme 1 ≡ catppuccin_mocha)
    × (theme_from_scheme 2 ≡ catppuccin_latte)
    × (theme_from_scheme 0 ≡ fallback)
    × (theme_from_scheme 99 ≡ fallback)

scheme_mapping : SchemeMapping
unfolding theme_from_scheme unwrap_u32
scheme_mapping = (refl, refl, refl, refl)

abbrev UnwrapHandlesSingleAndDoubleVariantWrap : Type 0
UnwrapHandlesSingleAndDoubleVariantWrap =
    (unwrap_u32 (u32 1) ≡ some 1)
    × (unwrap_u32 (variant (u32 2)) ≡ some 2)
    × (unwrap_u32 other ≡ none)

unwrap_handles_single_and_double_variant_wrap : UnwrapHandlesSingleAndDoubleVariantWrap
unfolding theme_from_scheme unwrap_u32
unwrap_handles_single_and_double_variant_wrap = (refl, refl, refl)
