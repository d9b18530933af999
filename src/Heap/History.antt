-- ===== src/Heap/History.antt =====
-- What the simulated heaps report, from the history of calls alone.
use living_codebase.Prelude.{
  ◌≡◌, refl, ℕ, Bool, true, false, not, ◌&&◌, ◌||◌, Option, none, some, List, [], ◌∷◌, ◌++◌, ◌==◌,
  if◌then◌else◌, arith,
}
use living_codebase.Heap.{
  Heap, empty_heap, is_freed, malloc, free, write, Demo, demo_free, demo_malloc, demo_write,
  double_free, use_after_free, on_malloc, on_free, on_write,
}

pub data Call : Type 0 where
  mallocs : ℕ → ℕ → Call
  frees : ℕ → Call
  writes : ℕ → Call

-- The calls of a program, the latest first.
abbrev pub History : Type 0
History = List Call

-- The specification: was `a` ever allocated, and has it been freed since its last allocation?
unfoldable pub was_allocated : ℕ → History → Bool
was_allocated a [] = false
was_allocated a (mallocs b n ∷ h) = b == a || was_allocated a h
was_allocated a (frees b ∷ h) = was_allocated a h
was_allocated a (writes b ∷ h) = was_allocated a h

unfoldable pub was_freed : ℕ → History → Bool
was_freed a [] = false
was_freed a (mallocs b n ∷ h) = if b == a then false else was_freed a h
was_freed a (frees b ∷ h) = if b == a then was_allocated a h else was_freed a h
was_freed a (writes b ∷ h) = was_freed a h

-- The heap of healing/test_uaf_sim.py after the calls.
unfoldable pub heap_after : History → Heap
unfolding malloc free
heap_after [] = empty_heap
heap_after (mallocs a n ∷ h) = malloc a n (heap_after h)
heap_after (frees a ∷ h) = (free a (heap_after h)).1
heap_after (writes a ∷ h) = heap_after h

-- The state of full_demo.py after the calls.
unfoldable pub demo_after : History → Demo
unfolding demo_malloc demo_free demo_write
demo_after [] = record { heap = empty_heap; faults = [] }
demo_after (mallocs a n ∷ h) = demo_malloc a n (demo_after h)
demo_after (frees a ∷ h) = demo_free a (demo_after h)
demo_after (writes a ∷ h) = (demo_write a (demo_after h)).1

-- The allocations of `HeapTracker` after the calls.
unfoldable pub tracker_after : History → Heap
unfolding on_malloc on_free
tracker_after [] = empty_heap
tracker_after (mallocs a n ∷ h) = on_malloc a n (tracker_after h)
tracker_after (frees a ∷ h) = (on_free a (tracker_after h)).1
tracker_after (writes a ∷ h) = tracker_after h

abbrev is_some {ℓ} : {A : Type ℓ} → Option A → Bool
is_some none = false
is_some (some a) = true

heap_after-Tracks :
    (h : History) (a : ℕ)
    → (is_some (heap_after h a) ≡ was_allocated a h) × (is_freed (heap_after h a) ≡ was_freed a h)
unfolding heap_after was_allocated was_freed
heap_after-Tracks [] a = (refl, refl)
heap_after-Tracks (mallocs b n ∷ h) a = ground (arith, heap_after-Tracks h a)
heap_after-Tracks (frees b ∷ h) a = ground (arith, heap_after-Tracks h a, heap_after-Tracks h b)
heap_after-Tracks (writes b ∷ h) a = heap_after-Tracks h a

-- After any history of calls a write is refused exactly when the address has been freed since its
-- last allocation, and a free exactly when the address was never allocated.
pub heap_reports :
    (h : History) (a : ℕ)
    → (write a (heap_after h) ≡ not (was_freed a h))
      × ((free a (heap_after h)).0 ≡ was_allocated a h)
unfolding write free
heap_reports h a = ground (arith, heap_after-Tracks h a)

tracker_after-eq-heap_after : (h : History) (a : ℕ) → tracker_after h a ≡ heap_after h a
unfolding tracker_after heap_after
tracker_after-eq-heap_after [] a = refl
tracker_after-eq-heap_after (mallocs b n ∷ h) a = ground (arith, tracker_after-eq-heap_after h a)
tracker_after-eq-heap_after (frees b ∷ h) a =
    ground (arith, tracker_after-eq-heap_after h a, tracker_after-eq-heap_after h b)
tracker_after-eq-heap_after (writes b ∷ h) a = tracker_after-eq-heap_after h a

-- After any history of calls the Rust tracker reports a use after free for exactly the writes to an
-- address that has been freed since its last allocation, and a double free for exactly the frees of
-- an address that was never allocated or is freed already.
pub tracker_reports :
    (h : History) (a : ℕ)
    → (on_write a (tracker_after h) ≡ (if was_freed a h then some (use_after_free a) else none))
      × ((on_free a (tracker_after h)).0
          ≡ (if was_allocated a h && not (was_freed a h) then none else some (double_free a)))
unfolding on_write on_free
tracker_reports h a = ground (arith, tracker_after-eq-heap_after h a, heap_after-Tracks h a)

demo_after-heap : (h : History) (a : ℕ) → (demo_after h).heap a ≡ heap_after h a
unfolding demo_after heap_after
demo_after-heap [] a = refl
demo_after-heap (mallocs b n ∷ h) a = ground (arith, demo_after-heap h a)
demo_after-heap (frees b ∷ h) a = ground (arith, demo_after-heap h a, demo_after-heap h b)
demo_after-heap (writes b ∷ h) a = ground (arith, demo_after-heap h a)

-- The addresses written after they were freed, in the order of the writes.
unfoldable pub freed_writes : History → List ℕ
freed_writes [] = []
freed_writes (writes a ∷ h) = if was_freed a h then freed_writes h ++ a ∷ [] else freed_writes h
freed_writes (mallocs a n ∷ h) = freed_writes h
freed_writes (frees a ∷ h) = freed_writes h

-- After any history of calls the faults of full_demo.py are the writes to freed addresses, each
-- once and in their order.
pub demo_faults : (h : History) → (demo_after h).faults ≡ freed_writes h
unfolding demo_after freed_writes
demo_faults [] = refl
demo_faults (mallocs a n ∷ h) = demo_faults h
demo_faults (frees a ∷ h) = ground (arith, demo_faults h)
demo_faults (writes a ∷ h) =
    ground (arith, demo_faults h, demo_after-heap h a, heap_after-Tracks h a)
