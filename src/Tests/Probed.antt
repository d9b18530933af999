-- ===== src/Tests/Probed.antt =====
-- The probes after a few calls.
use living_codebase.Prelude.{◌≡◌, ◌≢◌, refl, ℕ, true, false, [], ◌∷◌, map, All, arith}
use living_codebase.Heap.History.{History, mallocs, frees}
use living_codebase.Probes.{FaultEvent, loaded, Context, page_fault_entry}
use living_codebase.Probes.Tracking.{
  IsNonnull, HasRoom, probed_after, reported_frees, probes-report-as-tracker,
}
use living_codebase.Probes.Events.{IsTracking, here, next, faults, loaded-IsTracking}

abbrev roomy : Context
roomy = record {
  pid_tgid = 4294967303;
  time = 5;
  heap_room = true;
  request_room = true;
  ring_room = true;
}

abbrev full : Context
full = record roomy { heap_room = false }

roomy-HasRoom : HasRoom (λ k. roomy)
roomy-HasRoom = record { heap = λ k. refl; ring = λ k. refl }

-- malloc, free and a second free
abbrev calls : History
calls = frees 4096 ∷ frees 4096 ∷ mallocs 4096 64 ∷ []

calls-IsNonnull : All IsNonnull calls
calls-IsNonnull = omega arith

probes-report-as-tracker_example :
    map (λ (e : FaultEvent). e.addr) (probed_after (λ k. roomy) calls).fault_events
    ≡ reported_frees calls
probes-report-as-tracker_example =
    probes-report-as-tracker (λ k. roomy) roomy-HasRoom calls calls-IsNonnull

not_null : ◌≢◌ {A = ℕ} 4096 0
not_null = λ p. omega arith

loaded-IsTracking_example : IsTracking (page_fault_entry roomy 8 loaded)
loaded-IsTracking_example = loaded-IsTracking (next here (faults roomy 8 loaded))
