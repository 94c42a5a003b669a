-- ===== src/Theme/Tests.antt =====
-- A provider that starts from what an earlier visit stored.
use block_chain.Common.{true, false, some, ◌≡◌, refl}
use text.Mathlib.Text.{◌==◌ as str_eq}
use block_chain.Theme.{
  Props, Provider, light, mount, first_theme, apply_theme, toggle_theme, after_toggles,
}
use block_chain.Theme.Reload.{mount-after_toggles}

abbrev switchable_props : Props
switchable_props = record { default_theme = light; switchable = true }

abbrev toggled : Provider
toggled = after_toggles switchable_props 1 (mount switchable_props false (some "light"))

toggled_theme : toggled.theme ≡ "dark"
unfolding after_toggles mount first_theme apply_theme toggle_theme
toggled_theme = refl

mount-after_toggles_example :
    ((mount switchable_props false toggled.stored).theme ≡ toggled.theme)
    × ((mount switchable_props false toggled.stored).root_is_dark ≡ str_eq toggled.theme "dark")
mount-after_toggles_example = mount-after_toggles switchable_props false false (some "light") 1
