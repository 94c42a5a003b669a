-- ===== src/Readiness/Passed.antt =====
-- What the exit code of the readiness check means.
use text.Mathlib.TextEquality.{eq_iff}
use block_chain.Common.{
  String, Bool, true, ◌&&◌, Option, none, some, ◌≡◌, ◌↔◌, refl, ap, inl, inr, arith, ==-eq,
  Bool-cases,
}
use block_chain.Readiness.{Machine, is_version, is_there, node_major, checks, passed, exit_code}

-- Each of the six is as the project asks.
pub record IsReady (m : Machine) : Type 0 where
  pub node : node_major m.node ≡ 22
  pub pnpm : m.pnpm ≡ some "11.21.0"
  pub hardhat : m.has_hardhat ≡ true
  pub web_modules : m.has_web_modules ≡ true
  pub docker_compose : (version : String) × (m.docker_compose ≡ some version)
  pub docker_server : (version : String) × (m.docker_server ≡ some version)

there_sound : (o : Option String) → is_there o ≡ true → (s : String) × (o ≡ some s)
there_sound none h = cc
there_sound (some s) h = (s, refl)

version_sound : (o : Option String) (t : String) → is_version o t ≡ true → o ≡ some t
version_sound none t h = cc
version_sound (some s) t h = ap some ((eq_iff s t).0 h)

and₆-eq-true :
    (a b c d e f : Bool)
    → (a && (b && (c && (d && (e && (f && true)))))) ≡ true
    → (a ≡ true) × (b ≡ true) × (c ≡ true) × (d ≡ true) × (e ≡ true) × (f ≡ true)
and₆-eq-true a b c d e f h = ground arith

passed_sound : (m : Machine) → passed m ≡ true → IsReady m
unfolding passed checks
passed_sound m h =
    let (h₁, h₂, h₃, h₄, h₅, h₆) = and₆-eq-true _ _ _ _ _ _ h in
    record {
      node = ==-eq (node_major m.node) 22 h₁;
      pnpm = version_sound m.pnpm "11.21.0" h₂;
      hardhat = h₃;
      web_modules = h₄;
      docker_compose = there_sound m.docker_compose h₅;
      docker_server = there_sound m.docker_server h₆;
    }

passed_complete : (m : Machine) → IsReady m → passed m ≡ true
unfolding passed checks
passed_complete m r =
    rw (r.node, r.pnpm, r.hardhat, r.web_modules, r.docker_compose.1, r.docker_server.1) refl

-- The script exits with 0 exactly when Node.js is of version 22, pnpm is 11.21.0, both installed paths are
-- there, and both commands of Docker succeed.
pub exit_code-eq-zero_iff : (m : Machine) → (exit_code m ≡ 0) ↔ IsReady m
unfolding exit_code
exit_code-eq-zero_iff m = (
  λ h. elim (Bool-cases (passed m)) [
    | inl e ↦ passed_sound m e
    | inr e ↦ absurd (omega (arith, rw e at h))
  ],
  λ r. rw (passed_complete m r) refl,
)
