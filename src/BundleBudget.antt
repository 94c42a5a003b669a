-- ===== src/BundleBudget.antt =====
-- scripts/check_web_bundle_budget.mjs: the sizes of the built assets against their limits.
pub mod Within
mod Tests
use Prim.Native.String as Text
use text.Mathlib.Text.{◌==◌ as str_eq}
use block_chain.Common.{
  ℕ, ◌+◌, ◌*◌, String, Bool, true, false, ◌||◌, List, [], ◌∷◌, ◌++◌, if◌then◌else◌, ltb,
}
use block_chain.Js.{Engine, Result, ok, fail, drop_text, integer, pos, ◌>>=◌}

-- A file of the assets, with its bytes and those of `gzipSync` of it.
pub record Asset : Type 0 where
  pub name : String
  pub raw_bytes : ℕ
  pub gzip_bytes : ℕ

abbrev pub javascript_raw_limit : ℕ
javascript_raw_limit = 450 * 1024

abbrev pub javascript_gzip_limit : ℕ
javascript_gzip_limit = 128 * 1024

abbrev pub css_raw_limit : ℕ
css_raw_limit = 16 * 1024

-- `name.endsWith(end)`.
unfoldable pub ends_with : String → String → Bool
ends_with Text.[] end = str_eq "" end
ends_with (Text.◌∷◌ c s) end = str_eq (Text.◌∷◌ c s) end || ends_with s end

unfoldable pub of_kind : String → List Asset → List Asset
unfolding ends_with
of_kind extension [] = []
of_kind extension (a ∷ assets) =
    let rest = of_kind extension assets in if ends_with a.name extension then a ∷ rest else rest

-- The sum of the sizes.
unfoldable pub size_of : (Asset → ℕ) → List Asset → ℕ
size_of size [] = 0
size_of size (a ∷ assets) = size a + size_of size assets

abbrev pub is_empty : List Asset → Bool
is_empty [] = true
is_empty (a ∷ assets) = false

pub record Measurement : Type 0 where
  pub name : String
  pub value : ℕ
  pub limit : ℕ

unfoldable pub measurements : List Asset → List Measurement
unfolding of_kind size_of
measurements assets =
    record {
      name = "javascriptRawBytes";
      value = size_of (λ a. a.raw_bytes) (of_kind ".js" assets);
      limit = javascript_raw_limit;
    }
    ∷ record {
      name = "javascriptGzipBytes";
      value = size_of (λ a. a.gzip_bytes) (of_kind ".js" assets);
      limit = javascript_gzip_limit;
    }
    ∷ record {
      name = "cssRawBytes";
      value = size_of (λ a. a.raw_bytes) (of_kind ".css" assets);
      limit = css_raw_limit;
    }
    ∷ []

-- `failures.join("; ")`.
abbrev pub join_failures : List String → String
join_failures [] = ""
join_failures (f ∷ []) = f
join_failures (f ∷ g ∷ fs) = Text.◌++◌ f (Text.◌++◌ "; " (join_failures (g ∷ fs)))

module _ (js : Engine) where
  abbrev pub failure_of : Measurement → String
  failure_of m = Text.◌++◌ m.name (
      Text.◌++◌ "=" (
        Text.◌++◌ (js.show_number (integer (pos m.value)))
          (Text.◌++◌ " exceeds " (js.show_number (integer (pos m.limit))))))

  unfoldable pub failures : List Measurement → List String
  failures [] = []
  failures (m ∷ ms) =
      let rest = failures ms in if ltb m.limit m.value then failure_of m ∷ rest else rest

  unfoldable pub check_failures : List String → Result (Unit {0})
  check_failures [] = ok tt
  check_failures (f ∷ fs) = fail (Text.◌++◌ "Web bundle budget failed: " (join_failures (f ∷ fs)))

  unfoldable pub check_bundle : List Asset → Result (Unit {0})
  unfolding of_kind measurements failures check_failures
  check_bundle assets =
      if is_empty (of_kind ".js" assets) || is_empty (of_kind ".css" assets)
      then fail "Expected built JavaScript and CSS assets; run pnpm build:web before this check."
      else check_failures (failures (measurements assets))
