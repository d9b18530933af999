-- ===== src/Probes/Tracking.antt =====
-- The probes of malloc and free over histories of calls, compared with `HeapTracker` of src/main.rs.
use mathlib.Core.List.{map-append}
use living_codebase.Prelude.{
  ◌≡◌, ◌≢◌, refl, ◌∙◌, ℕ, Bool, true, false, not, ◌&&◌, Option, none, some, List, [], ◌∷◌, ◌++◌,
  map, All, length, if◌then◌else◌, arith,
}
use living_codebase.Heap.{FaultClass, on_free}
use living_codebase.Heap.History.{
  Call, History, mallocs, frees, writes, was_allocated, was_freed, tracker_after, tracker_reports,
}
use living_codebase.Probes.{
  FaultEvent, Maps, loaded, Context, fault_event, memory_corruption, malloc_entry, malloc_ret,
  free_entry,
}

-- The maps after the calls of a process; `ctx k` is the context of the call number `k`.
unfoldable pub probed_after : (ℕ → Context) → History → Maps
unfolding malloc_entry malloc_ret free_entry
probed_after ctx [] = loaded
probed_after ctx (mallocs a n ∷ h) =
    malloc_ret (ctx (length h)) a (malloc_entry (ctx (length h)) n (probed_after ctx h))
probed_after ctx (frees a ∷ h) = free_entry (ctx (length h)) a (probed_after ctx h)
probed_after ctx (writes a ∷ h) = probed_after ctx h

-- No call is about the null pointer.
abbrev pub IsNonnull : Call → Type 0
IsNonnull (mallocs a n) = a ≢ 0
IsNonnull (frees a) = a ≢ 0
IsNonnull (writes a) = Unit

-- There is always room in the map of the blocks and in the ring buffer.
pub record HasRoom (ctx : ℕ → Context) : Type 0 where
  pub heap : (k : ℕ) → (ctx k).heap_room ≡ true
  pub ring : (k : ℕ) → (ctx k).ring_room ≡ true

abbrev with_fault : Option FaultClass → ℕ → List ℕ → List ℕ
with_fault none a as' = as'
with_fault (some f) a as' = as' ++ a ∷ []

-- The addresses whose free the Rust tracker reports, in the order of the calls.
unfoldable pub reported_frees : History → List ℕ
reported_frees [] = []
reported_frees (mallocs a n ∷ h) = reported_frees h
reported_frees (frees a ∷ h) = with_fault (on_free a (tracker_after h)).0 a (reported_frees h)
reported_frees (writes a ∷ h) = reported_frees h

abbrev pub is_some {ℓ} : {A : Type ℓ} → Option A → Bool
is_some none = false
is_some (some a) = true

-- A free adds the address of a block that is not tracked.
free_entry-addresses :
    (c : Context) (a : ℕ) (s : Maps)
    → a ≢ 0
    → c.ring_room ≡ true
    → map (λ (e : FaultEvent). e.addr) (free_entry c a s).fault_events ≡ (
        if is_some (s.heap_allocations a)
        then map (λ (e : FaultEvent). e.addr) s.fault_events
        else map (λ (e : FaultEvent). e.addr) s.fault_events ++ a ∷ [])
unfolding free_entry
free_entry-addresses c a s n r = ground (
  arith,
  map-append (λ (e : FaultEvent). e.addr) s.fault_events
      (fault_event c a memory_corruption "libc:free_anomaly" ∷ []),
)

module _ (ctx : ℕ → Context) (room : HasRoom ctx) where
  -- A block is tracked while it is allocated and not freed.
  pub probed_after-tracks :
      (h : History) (a : ℕ)
      → All IsNonnull h
      → is_some ((probed_after ctx h).heap_allocations a)
        ≡ (was_allocated a h && not (was_freed a h))
  unfolding probed_after was_allocated was_freed
  probed_after-tracks [] a n = refl
  probed_after-tracks (mallocs b k ∷ h) a (n, ns) =
      ground (arith, probed_after-tracks h a, room.heap (length h))
  probed_after-tracks (frees b ∷ h) a (n, ns) =
      ground (arith, probed_after-tracks h a, probed_after-tracks h b, room.ring (length h))
  probed_after-tracks (writes b ∷ h) a (n, ns) = probed_after-tracks h a ns

  -- For every history of calls about pointers that are not null, and with room in the maps and the
  -- ring buffer, the addresses of the submitted events are those whose free the Rust tracker
  -- reports as a double free, in the same order.
  pub probes-report-as-tracker :
      (h : History)
      → All IsNonnull h
      → map (λ (e : FaultEvent). e.addr) (probed_after ctx h).fault_events ≡ reported_frees h
  unfolding probed_after reported_frees
  probes-report-as-tracker [] n = refl
  probes-report-as-tracker (mallocs b k ∷ h) (n, ns) = ground (arith, probes-report-as-tracker h)
  probes-report-as-tracker (frees b ∷ h) (n, ns) =
      free_entry-addresses (ctx (length h)) b (probed_after ctx h) n (room.ring (length h))
      ∙ ground (arith, probed_after-tracks h b, tracker_reports h b, probes-report-as-tracker h)
  probes-report-as-tracker (writes b ∷ h) (n, ns) = probes-report-as-tracker h ns

-- A free of a block that the full map could not take is reported as memory corruption.
pub untracked_free-is-reported :
    (c c' : Context) (a : ℕ) (s : Maps)
    → a ≢ 0
    → s.heap_allocations a ≡ none
    → c.heap_room ≡ false
    → c'.ring_room ≡ true
    → (e : FaultEvent) × ((free_entry c' a (malloc_ret c a s)).fault_events
        ≡ s.fault_events ++ e ∷ [])
      × (e.addr ≡ a)
unfolding free_entry malloc_ret
untracked_free-is-reported c c' a s n u r r' =
    (fault_event c' a memory_corruption "libc:free_anomaly", ground arith, refl)
