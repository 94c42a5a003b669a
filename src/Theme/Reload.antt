-- ===== src/Theme/Reload.antt =====
-- The theme, the root element and the storage over toggles and a reload.
use text.Mathlib.Text.{◌==◌ as str_eq}
use block_chain.Common.{
  ℕ, zero, suc, String, Bool, true, false, Option, none, some, ◌≡◌, refl, Bool-cases, inl, inr,
  if◌then◌else◌,
}
use block_chain.Theme.{
  Theme, light, dark, theme_text, Props, Provider, stored_or, first_theme, apply_theme, mount,
  toggle_theme, after_toggles,
}

-- The root element shows the theme; a switchable provider has stored it, and it is not empty.
abbrev pub IsShown : Props → Provider → Type 0
IsShown props p =
    (p.root_is_dark ≡ str_eq p.theme "dark")
    × (str_eq p.theme "" ≡ false)
    × (props.switchable ≡ true → p.stored ≡ some p.theme)
    × (props.switchable ≡ false → p.theme ≡ theme_text props.default_theme)

default_filled : (t : Theme) → str_eq (theme_text t) "" ≡ false
default_filled light = refl
default_filled dark = refl

stored_or_filled :
    (stored : Option String) (t : Theme) → str_eq (stored_or stored (theme_text t)) "" ≡ false
stored_or_filled none t = default_filled t
stored_or_filled (some s) t = elim (Bool-cases (str_eq s "")) [
  | inl e ↦ rw e (default_filled t)
  | inr e ↦ rw (e, e)
]

abbrev props_of : Theme → Bool → Props
props_of d b = record { default_theme = d; switchable = b }

mount-IsShown :
    (d : Theme) (b was_dark : Bool) (stored : Option String)
    → IsShown (props_of d b) (mount (props_of d b) was_dark stored)
unfolding mount first_theme apply_theme
mount-IsShown d true was_dark stored = (refl, stored_or_filled stored d, λ _. refl, λ e. cc)
mount-IsShown d false was_dark stored = (refl, default_filled d, λ e. cc, λ _. refl)

toggled_filled : (b : Bool) → str_eq (if b then "dark" else "light") "" ≡ false
toggled_filled true = refl
toggled_filled false = refl

toggle_theme-IsShown :
    (d : Theme) (b : Bool) (p : Provider)
    → IsShown (props_of d b) p
    → IsShown (props_of d b) (toggle_theme (props_of d b) p)
unfolding toggle_theme apply_theme
toggle_theme-IsShown d true p h =
    (refl, toggled_filled (str_eq p.theme "light"), λ _. refl, λ e. cc)
toggle_theme-IsShown d false p h = h

pub after_toggles-IsShown :
    (props : Props) (was_dark : Bool) (stored : Option String) (n : ℕ)
    → IsShown props (after_toggles props n (mount props was_dark stored))
unfolding after_toggles
after_toggles-IsShown props was_dark stored zero =
    mount-IsShown props.default_theme props.switchable was_dark stored
after_toggles-IsShown props was_dark stored (suc n) =
    toggle_theme-IsShown props.default_theme props.switchable
      (after_toggles props n (mount props was_dark stored))
      (after_toggles-IsShown props was_dark stored n)

reload_shown :
    (d : Theme) (b was_dark : Bool) (p : Provider)
    → IsShown (props_of d b) p
    → ((mount (props_of d b) was_dark p.stored).theme ≡ p.theme)
      × ((mount (props_of d b) was_dark p.stored).root_is_dark ≡ str_eq p.theme "dark")
unfolding mount first_theme apply_theme
reload_shown d true was_dark p (root, full, kept, fixed) = rw (kept refl, full) (refl, refl)
reload_shown d false was_dark p (root, full, kept, fixed) = rw (fixed refl) (refl, refl)

-- Over any storage and after any number of toggles, a reload of the page, whatever class the root
-- element starts with, shows the theme that was shown before, and the root element has the class
-- exactly if this theme is the dark one.
pub mount-after_toggles :
    (props : Props) (was_dark starts_dark : Bool) (stored : Option String) (n : ℕ)
    → let p = after_toggles props n (mount props was_dark stored) in
      ((mount props starts_dark p.stored).theme ≡ p.theme)
      × ((mount props starts_dark p.stored).root_is_dark ≡ str_eq p.theme "dark")
mount-after_toggles props was_dark starts_dark stored n =
    reload_shown props.default_theme props.switchable starts_dark
      (after_toggles props n (mount props was_dark stored))
      (after_toggles-IsShown props was_dark stored n)
