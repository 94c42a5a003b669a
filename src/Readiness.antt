-- ===== src/Readiness.antt =====
-- scripts/check_local_readiness.mjs: what it checks of the machine, what it prints and its exit code.
pub mod Passed
mod Tests
use Prim.Native.String as Text
use text.Mathlib.Text.{◌==◌ as str_eq}
use block_chain.Common.{
  ℕ, String, Bool, true, false, ◌&&◌, List, [], ◌∷◌, Option, none, some, if◌then◌else◌, ◌==◌, all,
}
use block_chain.Js.{leading_number}

-- What the script finds: `process.versions.node`, what each command prints, trimmed (none if it fails), and
-- whether the two paths exist.
pub record Machine : Type 0 where
  pub node : String
  pub pnpm : Option String
  pub has_hardhat : Bool
  pub has_web_modules : Bool
  pub docker_compose : Option String
  pub docker_server : Option String

pub record Check : Type 0 where
  pub name : String
  pub passed : Bool
  pub detail : String

abbrev pub or_else : Option String → String → String
or_else none t = t
or_else (some s) t = s

abbrev pub is_version : Option String → String → Bool
is_version none t = false
is_version (some s) t = str_eq s t

abbrev pub is_there : Option String → Bool
is_there none = false
is_there (some s) = true

-- `Number.parseInt(node.split('.')[0], 10)`: the digits that a version starts with.
unfoldable pub node_major : String → ℕ
unfolding leading_number
node_major node = leading_number 0 node

abbrev pub detected : String → String → String
detected version what = Text.◌++◌ "detected " (Text.◌++◌ version (Text.◌++◌ "; " what))

unfoldable pub checks : Machine → List Check
unfolding node_major
checks m =
    record {
      name = "node";
      passed = node_major m.node == 22;
      detail = detected m.node "project requires Node.js 22";
    }
    ∷ record {
      name = "pnpm";
      passed = is_version m.pnpm "11.21.0";
      detail = detected (or_else m.pnpm "not found") "project requires pnpm 11.21.0";
    }
    ∷ record {
      name = "hardhat";
      passed = m.has_hardhat;
      detail = "run pnpm install --frozen-lockfile before contract commands";
    }
    ∷ record {
      name = "web-dependencies";
      passed = m.has_web_modules;
      detail = "web workspace dependencies are available after the frozen install";
    }
    ∷ record {
      name = "docker-compose";
      passed = is_there m.docker_compose;
      detail =
          detected (or_else m.docker_compose "not found")
            "required only for bounded Compose workflows";
    }
    ∷ record {
      name = "docker-daemon-access";
      passed = is_there m.docker_server;
      detail =
          detected (or_else m.docker_server "unavailable")
            "use a Docker-authorized account or configure Docker group access before Compose runtime checks";
    }
    ∷ []

unfoldable pub passed : Machine → Bool
unfolding checks
passed m = all (λ c. c.passed) (checks m)

unfoldable pub exit_code : Machine → ℕ
unfolding passed
exit_code m = if passed m then 0 else 1
