-- ===== src/Tests/Cycles.antt =====
-- The daemon on the machine of Tests/Machine.
use living_codebase.Prelude.{◌≡◌, ◌≢◌, refl, ℕ, true, some, [], ◌∷◌, All, length, arith}
use living_codebase.Injector.Swapped.{IsSwapped, IsPatchable}
use living_codebase.Daemon.{
  FaultEvent, Host, completed, swap_failed, patch_bytes, handle, run_daemon,
}
use living_codebase.Daemon.Cycles.{
  Converges, IsHeld, run_daemon_lem, handle_completes, handle_freezes,
}
use living_codebase.Tests.Runs.{one_try, one_try-IsSound, one_try-decides, always}
use living_codebase.Tests.Machine.{Machine, machine, machine-IsPtrace, view_of, target, held}

abbrev host : Host
host = record { script_exists = λ k. true; python = λ k. some (always 0) }

abbrev event : ℕ → FaultEvent
event addr = record {
  pid = 94812;
  addr = addr;
  timestamp = 5;
  fault_class = 10;
  func_name = "process_packet";
}

abbrev world : ℕ → Machine
world pid = target

converging : Converges host 0
converging = record {
  draws = always 0;
  found = refl;
  starts = refl;
  draw = 0;
  among = omega arith;
  chosen = refl;
}

held_target : IsHeld machine target held
held_target = record { waiting = held; attaches = refl; waits = refl }

held-IsPatchable : IsPatchable 4160 (view_of held)
held-IsPatchable = record {
  stopped = refl;
  instruction = λ x h k. ground arith;
  function = λ x h k. ground arith;
  low = omega arith;
}

run_daemon_lem_example :
    (length (run_daemon machine one_try host 0 (event 4160 ∷ event 5 ∷ []) world).0
      ≡ length (event 4160 ∷ event 5 ∷ []))
    × ((q : ℕ)
        → All (λ (e : FaultEvent). q ≢ e.pid) (event 4160 ∷ event 5 ∷ [])
        → (run_daemon machine one_try host 0 (event 4160 ∷ event 5 ∷ []) world).1 q ≡ world q)
run_daemon_lem_example = run_daemon_lem machine one_try host 0 (event 4160 ∷ event 5 ∷ []) world

handle_completes_example :
    (world' : ℕ → Machine) × (handle machine one_try host 0 (event 4160) world
      ≡ (completed, world'))
    × IsSwapped 4160 8192 patch_bytes (view_of held) (view_of (world' 94812))
    × ((q : ℕ) → q ≢ 94812 → world' q ≡ world q)
handle_completes_example =
    handle_completes machine machine-IsPtrace one_try one_try-IsSound one_try-decides host 0 8192
      (event 4160) world held converging held_target held-IsPatchable refl

handle_freezes_example :
    (world' : ℕ → Machine) × (handle machine one_try host 0 (event 0) world ≡ (swap_failed, world'))
    × ((view_of (world' 94812)).stopped ≡ true)
handle_freezes_example =
    handle_freezes machine machine-IsPtrace one_try one_try-IsSound one_try-decides host 0 (event 0)
      world held converging held_target refl (λ x h k. ground arith) (λ a e. ground arith)
      (λ x h. ground arith) (omega arith)
