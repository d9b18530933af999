-- ===== src/Probes/Events.antt =====
-- What holds of the maps and of the submitted events after any sequence of probes.
use living_codebase.Prelude.{
  ◌≡◌, ◌≢◌, ◌<◌, ◌⊎◌, inl, inr, refl, ℕ, String, none, List, [], ◌∷◌, ◌++◌, All, ◌==◌, ltb, arith,
  Option-cases, Bool-cases,
}
use living_codebase.Probes.{
  FaultEvent, fault_event, Maps, loaded, Context, memory_corruption, invariant, submit,
  malloc_entry, malloc_ret, free_entry, page_fault_entry,
}

-- The kernel runs the probes in any order, each in any context.
pub data Step : Maps → Maps → Type 0 where
  mallocs : (c : Context) (size : ℕ) (s : Maps) → Step s (malloc_entry c size s)
  returns : (c : Context) (addr : ℕ) (s : Maps) → Step s (malloc_ret c addr s)
  frees : (c : Context) (key : ℕ) (s : Maps) → Step s (free_entry c key s)
  faults : (c : Context) (addr : ℕ) (s : Maps) → Step s (page_fault_entry c addr s)

pub data Reach (s : Maps) : Maps → Type 0 where
  here : Reach s s
  next : {t u : Maps} → Reach s t → Step t u → Reach s u

-- A memory corruption is not about the null pointer, and an invariant violation is about the null
-- page.
abbrev pub IsClassified : FaultEvent → Type 0
IsClassified e =
    ((e.fault_class ≡ memory_corruption) × (e.addr ≢ 0))
    ⊎ ((e.fault_class ≡ invariant) × (e.addr < 4096))

pub record IsTracking (s : Maps) : Type 0 where
  pub nonnull : s.heap_allocations 0 ≡ none
  pub classified : All IsClassified s.fault_events

All-append_one :
    (es : List FaultEvent) (e : FaultEvent)
    → All IsClassified es
    → IsClassified e
    → All IsClassified (es ++ e ∷ [])
All-append_one [] e a h = (h, tt)
All-append_one (d ∷ es) e (a, as') h = (a, All-append_one es e as' h)

submit-IsTracking :
    (c : Context) (addr class : ℕ) (f : String) (s : Maps)
    → IsClassified (fault_event c addr class f)
    → IsTracking s
    → IsTracking (submit c addr class f s)
unfolding submit
submit-IsTracking c addr class f s k h =
    ground (arith, All-append_one s.fault_events (fault_event c addr class f))

free_entry-IsTracking :
    (c : Context) (key : ℕ) (s : Maps) → IsTracking s → IsTracking (free_entry c key s)
unfolding free_entry
free_entry-IsTracking c key s h = elim (Bool-cases (key == 0)) [
  | inl z ↦ rw z h
  | inr z ↦ elim (Option-cases (s.heap_allocations key)) [
    | inl e ↦
        rw (z, e)
          (submit-IsTracking c key memory_corruption "libc:free_anomaly" s
            (inl (refl, λ p. ground arith)) h)
    | inr (tid, e) ↦ rw (z, e) (ground arith)
  ]
]

-- A step of any probe keeps the invariant.
Step-IsTracking : {s t : Maps} → Step s t → IsTracking s → IsTracking t
unfolding malloc_entry malloc_ret page_fault_entry
Step-IsTracking (mallocs c size s) h = record { nonnull = h.nonnull; classified = h.classified }
Step-IsTracking (returns c addr s) h = ground arith
Step-IsTracking (frees c key s) h = free_entry-IsTracking c key s h
Step-IsTracking (faults c addr s) h = elim (Bool-cases (ltb addr 4096)) [
  | inl e ↦
      rw e (submit-IsTracking c addr invariant "kernel:null_deref" s (inr (refl, ground arith)) h)
  | inr e ↦ rw e h
]

Reach-IsTracking : {s t : Maps} → Reach s t → IsTracking s → IsTracking t
Reach-IsTracking here h = h
Reach-IsTracking (next r st) h = Step-IsTracking st (Reach-IsTracking r h)

-- Whatever probes run in whatever order, from the empty maps on: the null pointer is never tracked
-- as a block, a submitted event of the class of memory corruption is about an address that is not
-- null, and one of the class of invariants about an address below 4096.
pub loaded-IsTracking : {t : Maps} → Reach loaded t → IsTracking t
loaded-IsTracking r = Reach-IsTracking r (record { nonnull = refl; classified = tt })
