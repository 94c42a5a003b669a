-- ===== src/Composition/Tests.antt =====
-- A composition that ends, and the key that the browser sends before the timeouts run.
use block_chain.Common.{true, false, not, ◌&&◌, ◌||◌, List, [], ◌∷◌, ◌≡◌, refl}
use text.Mathlib.Text.{◌==◌ as str_eq}
use block_chain.Composition.{
  Event, composition_start, composition_end, timeout, stops_key, hook_after, step,
  on_composition_start, on_composition_end, clear_current,
}
use block_chain.Composition.Phases.{open_after, hook_after-stops_key}

abbrev typing : List Event
typing = composition_start ∷ timeout 0 ∷ composition_end ∷ composition_start ∷ []

stopped_until_timeouts :
    stops_key (hook_after (composition_end ∷ composition_start ∷ [])) "Enter" false ≡ true
unfolding stops_key hook_after step on_composition_start on_composition_end clear_current
stopped_until_timeouts = refl

hook_after-stops_key_example :
    (open_after typing ≡ true
      → stops_key (hook_after typing) "Enter" false
        ≡ (str_eq "Enter" "Escape" || (str_eq "Enter" "Enter" && not false)))
    × (open_after typing ≡ false
        → (hook_after typing).due ≡ []
        → stops_key (hook_after typing) "Enter" false ≡ false)
hook_after-stops_key_example = hook_after-stops_key typing "Enter" false (refl, (refl, (refl, tt)))
