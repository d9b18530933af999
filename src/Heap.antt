-- ===== src/Heap.antt =====
-- The simulated heaps: healing/test_uaf_sim.py and full_demo.py (the root and benchmark/ hold
-- copies of them), and `HeapTracker` of src/main.rs. A `dict` or `HashMap` keyed by addresses is a
-- function from addresses.
pub mod History
use living_codebase.Prelude.{
  ℕ, Bool, true, false, not, ◌&&◌, Option, none, some, List, [], ◌∷◌, ◌++◌, ◌==◌, if◌then◌else◌,
}

-- `{"size": size, "freed": False}`
pub record Block : Type 0 where
  pub size : ℕ
  pub freed : Bool

abbrev pub Heap : Type 0
Heap = ℕ → Option Block

abbrev pub empty_heap : Heap
empty_heap a = none

abbrev pub put : ℕ → Block → Heap → Heap
put a b heap x = if a == x then some b else heap x

abbrev pub is_freed : Option Block → Bool
is_freed none = false
is_freed (some b) = b.freed

-- `malloc` of both scripts
unfoldable pub malloc : ℕ → ℕ → Heap → Heap
malloc addr size heap = put addr (record { size = size; freed = false }) heap

-- `free` of healing/test_uaf_sim.py, and the `bool` that it returns
unfoldable pub free : ℕ → Heap → Bool × Heap
free addr heap = elim (heap addr) [
  | none ↦ (false, heap)
  | some b ↦ (true, put addr (record b { freed = true }) heap)
]

-- `write` of healing/test_uaf_sim.py; the value is only printed.
unfoldable pub write : ℕ → Heap → Bool
write addr heap = not (is_freed (heap addr))

-- The script of healing/test_uaf_sim.py: what its calls return, but for those of `malloc`
unfoldable pub simulation : List Bool
unfolding malloc free write
simulation =
    let h₁ = malloc 4096 64 empty_heap in
    let (buggy_free, h₂) = free 4096 h₁ in
    let buggy_write = write 4096 h₂ in
    let h₃ = malloc 8192 64 h₂ in
    let healthy_write = write 8192 h₃ in
    let (healthy_free, h₄) = free 8192 h₃ in
    buggy_free ∷ buggy_write ∷ healthy_write ∷ healthy_free ∷ []

-- The state of full_demo.py: `heap`, and the addresses of `faults`, all of type "UAF".
pub record Demo : Type 0 where
  pub heap : Heap
  pub faults : List ℕ

-- `free` of full_demo.py
unfoldable pub demo_free : ℕ → Demo → Demo
demo_free addr d = elim (d.heap addr) [
  | none ↦ d
  | some b ↦ record d { heap = put addr (record b { freed = true }) d.heap }
]

-- `malloc` of full_demo.py
unfoldable pub demo_malloc : ℕ → ℕ → Demo → Demo
unfolding malloc
demo_malloc addr size d = record d { heap = malloc addr size d.heap }

-- `write` of full_demo.py
unfoldable pub demo_write : ℕ → Demo → Bool × Demo
demo_write addr d =
    if is_freed (d.heap addr)
    then (false, record d { faults = d.faults ++ addr ∷ [] })
    else (true, d)

-- `FaultClass` of src/main.rs
pub data FaultClass : Type 0 where
  use_after_free null_deref double_free : ℕ → FaultClass
  out_of_bounds : ℕ → ℕ → FaultClass

-- `HeapTracker::on_malloc`, with the size and the flag of a block
unfoldable pub on_malloc : ℕ → ℕ → Heap → Heap
on_malloc addr size allocations = put addr (record { size = size; freed = false }) allocations

-- `HeapTracker::on_free`
unfoldable pub on_free : ℕ → Heap → Option FaultClass × Heap
on_free addr allocations = elim (allocations addr) [
  | none ↦ (some (double_free addr), allocations)
  | some b ↦
      if b.freed
      then (some (double_free addr), allocations)
      else (none, put addr (record b { freed = true }) allocations)
]

-- `HeapTracker::on_write`
unfoldable pub on_write : ℕ → Heap → Option FaultClass
on_write addr allocations = if is_freed (allocations addr) then some (use_after_free addr) else none
