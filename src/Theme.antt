-- ===== src/Theme.antt =====
-- apps/web/src/contexts/ThemeContext.tsx: the provider of the theme, with the page's root element and
-- the browser's storage.
pub mod Reload
mod Tests
use text.Mathlib.Text.{◌==◌ as str_eq}
use block_chain.Common.{ℕ, zero, suc, String, Bool, true, false, Option, none, some, if◌then◌else◌}
use block_chain.Js.{Error, Result, ok, thrown}

pub data Theme : Type 0 where
  light dark : Theme

abbrev pub theme_text : Theme → String
theme_text light = "light"
theme_text dark = "dark"

-- The provider's properties.
pub record Props : Type 0 where
  pub default_theme : Theme
  pub switchable : Bool

-- `stored` is the storage's item "theme", `root_is_dark` whether the root element has the class. The
-- theme is a text, since what is stored is not checked.
pub record Provider : Type 0 where
  pub theme : String
  pub root_is_dark : Bool
  pub stored : Option String

-- `stored || defaultTheme`.
abbrev pub stored_or : Option String → String → String
stored_or none default = default
stored_or (some s) default = if str_eq s "" then default else s

unfoldable pub first_theme : Props → Option String → String
first_theme props stored =
    if props.switchable
    then stored_or stored (theme_text props.default_theme)
    else theme_text props.default_theme

-- The effect that depends on the theme.
unfoldable pub apply_theme : Props → Provider → Provider
apply_theme props p = record p {
  root_is_dark = str_eq p.theme "dark";
  stored = if props.switchable then some p.theme else p.stored;
}

-- The provider once it is mounted over a storage, the root element being as it was left.
unfoldable pub mount : Props → Bool → Option String → Provider
unfolding first_theme apply_theme
mount props root_is_dark stored =
    apply_theme props
      (record { theme = first_theme props stored; root_is_dark = root_is_dark; stored = stored })

-- `toggleTheme`, which only a switchable provider has.
unfoldable pub toggle_theme : Props → Provider → Provider
unfolding apply_theme
toggle_theme props p =
    if props.switchable
    then apply_theme props (record p { theme = if str_eq p.theme "light" then "dark" else "light" })
    else p

-- The provider after so many toggles.
unfoldable pub after_toggles : Props → ℕ → Provider → Provider
unfolding toggle_theme
after_toggles props zero p = p
after_toggles props (suc n) p = toggle_theme props (after_toggles props n p)

-- `useTheme`: `none` is a component outside of a provider.
unfoldable pub use_theme : Option Provider → Result Provider
use_theme none =
    thrown (record { name = "Error"; message = "useTheme must be used within ThemeProvider" })
use_theme (some context) = ok context
