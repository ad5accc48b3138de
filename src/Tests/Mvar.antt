-- ===== src/Tests/Mvar.antt =====
-- The command `mvar` with two writers and a reader.
use tp_so.Prelude.{ℕ, ◌+◌, ◌≡◌, refl, List, [], ◌∷◌, ltb, if◌then◌else◌}
use tp_so.Mvar.{Role, writer, reader, cmd_mvar, run}
use tp_so.Mvar.Handed.{HandedOver, run-HandedOver}
use tp_so.Gate.{gate_wait, gate_post, first_waiting}

-- Processes 0 and 1 write A and B, every other one reads.
roles : ℕ → Role
roles t = if ltb t 2 then writer (65 + t) else reader 0

-- The first writer goes through its loop, the second falls asleep; the reader takes over and wakes it.
abbrev schedule : List ℕ
schedule = 0 ∷ 1 ∷ 0 ∷ 0 ∷ 2 ∷ 0 ∷ 0 ∷ 2 ∷ 2 ∷ 2 ∷ 2 ∷ 2 ∷ 1 ∷ 1 ∷ []

run-HandedOver_example : HandedOver (run roles schedule cmd_mvar)
run-HandedOver_example = run-HandedOver roles schedule

handed : (run roles schedule cmd_mvar).written ≡ 65 ∷ 66 ∷ []
unfolding run roles gate_wait gate_post first_waiting
handed = refl
