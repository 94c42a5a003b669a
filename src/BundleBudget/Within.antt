-- ===== src/BundleBudget/Within.antt =====
-- What it means that the check of the bundle passes.
use block_chain.Common.{
  ℕ, ◌≤◌, false, ◌||◌, List, [], ◌∷◌, ◌≡◌, ◌↔◌, refl, or-eq-false, inl, inr, arith, ltb, Bool-cases,
  All,
}
use block_chain.Js.{Engine, ok}
use block_chain.BundleBudget.{
  Asset, Measurement, javascript_raw_limit, javascript_gzip_limit, css_raw_limit, of_kind, size_of,
  is_empty, measurements, failures, check_failures, check_bundle,
}

-- There are scripts and style sheets, and none of the three sums is above its limit.
pub record IsWithin (assets : List Asset) : Type 0 where
  pub has_scripts : is_empty (of_kind ".js" assets) ≡ false
  pub has_styles : is_empty (of_kind ".css" assets) ≡ false
  pub javascript_raw : size_of (λ a. a.raw_bytes) (of_kind ".js" assets) ≤ javascript_raw_limit
  pub javascript_gzip : size_of (λ a. a.gzip_bytes) (of_kind ".js" assets) ≤ javascript_gzip_limit
  pub css_raw : size_of (λ a. a.raw_bytes) (of_kind ".css" assets) ≤ css_raw_limit

not_above : (a b : ℕ) → ltb a b ≡ false → b ≤ a
not_above a b h = ground arith

not_above_complete : (a b : ℕ) → b ≤ a → ltb a b ≡ false
not_above_complete a b h = ground arith

module _ (js : Engine) where
  failures_sound :
      (ms : List Measurement)
      → check_failures js (failures js ms) ≡ ok tt
      → All (λ m. m.value ≤ m.limit) ms
  unfolding failures check_failures
  failures_sound [] h = tt
  failures_sound (m ∷ ms) h = elim (Bool-cases (ltb m.limit m.value)) [
    | inl above ↦ cc (rw above at h)
    | inr within ↦ (not_above m.limit m.value within, failures_sound ms (rw within at h))
  ]

  failures_complete :
      (ms : List Measurement)
      → All (λ m. m.value ≤ m.limit) ms
      → check_failures js (failures js ms) ≡ ok tt
  unfolding failures check_failures
  failures_complete [] h = refl
  failures_complete (m ∷ ms) (here, later) =
      rw (not_above_complete m.limit m.value here) (failures_complete ms later)

  -- The check passes exactly when there are scripts and style sheets among the assets, the scripts add up to
  -- 450 KiB at most, and to 128 KiB at most when each is compressed, and the style sheets to 16 KiB at most.
  pub check_bundle_iff : (assets : List Asset) → (check_bundle js assets ≡ ok tt) ↔ IsWithin assets
  unfolding check_bundle measurements
  check_bundle_iff assets = (
    λ h. elim (Bool-cases (is_empty (of_kind ".js" assets) || is_empty (of_kind ".css" assets))) [
      | inl missing ↦ cc (rw missing at h)
      | inr built ↦
          let (scripts, styles) = or-eq-false _ _ built in
          let (raw, (gzip, (css, end))) = failures_sound (measurements assets) (rw built at h) in
          record {
            has_scripts = scripts;
            has_styles = styles;
            javascript_raw = raw;
            javascript_gzip = gzip;
            css_raw = css;
          }
    ],
    λ w.
        rw (w.has_scripts, w.has_styles)
          (failures_complete (measurements assets)
            (w.javascript_raw, (w.javascript_gzip, (w.css_raw, tt)))),
  )
