-- ===== src/Readiness/Tests.antt =====
-- Machines that the theorem is run on.
use block_chain.Common.{true, none, some, ◌≡◌, ◌↔◌, refl}
use block_chain.Js.{leading_number}
use block_chain.Readiness.{Machine, node_major, passed, checks, exit_code}
use block_chain.Readiness.Passed.{IsReady, exit_code-eq-zero_iff}

abbrev without_docker : Machine
without_docker = record {
  node = "22.11.0";
  pnpm = some "11.21.0";
  has_hardhat = true;
  has_web_modules = true;
  docker_compose = none;
  docker_server = none;
}

fails_without_docker : exit_code without_docker ≡ 1
unfolding exit_code passed checks node_major leading_number
fails_without_docker = refl

exit_code-eq-zero_iff_example : (exit_code without_docker ≡ 0) ↔ IsReady without_docker
exit_code-eq-zero_iff_example = exit_code-eq-zero_iff without_docker
