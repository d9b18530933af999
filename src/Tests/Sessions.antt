-- ===== src/Tests/Sessions.antt =====
-- The events that `healing_loop` runs through.
use living_codebase.Prelude.{◌≡◌, ◌≢◌, ℕ, String, List, [], ◌∷◌, length, if◌then◌else◌, arith}
use living_codebase.Prelude.Int.{pos}
use living_codebase.Engine.Verifier.{Solver, sat, unknown, IsSound}
use living_codebase.Healing.{Event, Format, patch_query, healing_loop}
use living_codebase.Healing.Healed.{faults_after, patched, healing_loop_lem}

-- Tries index 0 of a list of one item.
abbrev first_try : Solver
first_try c = if c (pos 0) (pos 1) then sat else unknown

first_try-IsSound : IsSound first_try
first_try-IsSound = record {
  model = λ c e. ∣ (pos 0, pos 1, ground arith) ∣₁;
  no_model = λ c e. absurd (ground arith);
}

first_try-decides : first_try patch_query ≢ unknown
unfolding patch_query
first_try-decides = λ e. cc

abbrev plain : Format
plain = record { hex = λ n. "0x"; decimal = λ n. "0" }

abbrev ms : ℕ → ℕ
ms k = 150

abbrev event : String → ℕ → ℕ → Event
event op addr size = record { op = op; addr = addr; size = size }

abbrev events : List Event
events =
    event "malloc" 4096 64
    ∷ event "malloc" 8192 128
    ∷ event "write" 4096 0
    ∷ event "free" 4096 0
    ∷ event "write" 4096 0
    ∷ event "free" 8192 0
    ∷ event "free" 8192 0
    ∷ event "malloc" 12288 32
    ∷ event "write" 12288 0
    ∷ []

healing_loop_lem_example :
    let (s, avg) = healing_loop first_try plain ms events in
    (s.swapped
      ≡ patched first_try first_try-IsSound first_try-decides plain ms (faults_after [] events))
    × (s.healed ≡ length (faults_after [] events))
healing_loop_lem_example =
    healing_loop_lem first_try first_try-IsSound first_try-decides plain ms events (omega arith)
