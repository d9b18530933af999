-- ===== src/Tests/Histories.antt =====
-- The simulated heaps after the calls that the scripts make.
use living_codebase.Prelude.{◌≡◌, refl, true, false, not, ◌&&◌, some, none, [], ◌∷◌, if◌then◌else◌}
use living_codebase.Heap.{simulation, write, free, on_write, on_free, use_after_free, double_free}
use living_codebase.Heap.History.{
  History, mallocs, frees, writes, heap_after, demo_after, tracker_after, was_freed, was_allocated,
  freed_writes, heap_reports, tracker_reports, demo_faults,
}

-- malloc, write, free and a write after it
abbrev calls : History
calls = writes 4096 ∷ frees 4096 ∷ writes 4096 ∷ mallocs 4096 64 ∷ []

heap_reports_example :
    (write 4096 (heap_after calls) ≡ not (was_freed 4096 calls))
    × ((free 4096 (heap_after calls)).0 ≡ was_allocated 4096 calls)
heap_reports_example = heap_reports calls 4096

tracker_reports_example :
    (on_write 4096 (tracker_after calls)
      ≡ (if was_freed 4096 calls then some (use_after_free 4096) else none))
    × ((on_free 4096 (tracker_after calls)).0 ≡ (
        if was_allocated 4096 calls && not (was_freed 4096 calls)
        then none
        else some (double_free 4096)))
tracker_reports_example = tracker_reports calls 4096

demo_faults_example : (demo_after calls).faults ≡ freed_writes calls
demo_faults_example = demo_faults calls

-- Only the write after the free is refused.
simulation_run : simulation ≡ true ∷ false ∷ true ∷ true ∷ []
unfolding simulation
simulation_run = refl
