-- ===== src/Scripts/LoadTests/Writes/Tests.antt =====
-- The tests of experiment 2 at a concrete input.
use tinytelegram.Base.{◌+◌, ◌≤◌, ◌≡◌, false, List, [], ◌∷◌, length, All}
use tinytelegram.MessageService.Sim.{redis, postgres}
use tinytelegram.Scripts.LoadTests.Writes.{
  Iteration, load, bottleneck, Progress, run, no_write_passes,
}

abbrev before : Progress redis postgres
before = record {
  world = record { conn = record { counts = λ k. 0; replicas = 1 }; db = [] };
  redis_checks = [];
  write_checks = [];
}

abbrev two : List Iteration
two = load ∷ bottleneck ∷ []

no_write_passes_example :
    ((run redis postgres two before).world.db ≡ [])
    × All (λ b. b ≡ false) (run redis postgres two before).write_checks
    × (0 + 2 ≤ length (run redis postgres two before).write_checks)
no_write_passes_example = no_write_passes redis postgres two before tt
