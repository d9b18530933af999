-- ===== src/Probes.antt =====
-- ebpf/fault_detector.bpf.c: the probes of malloc, free and the page fault handler, with their maps
-- and the ring buffer. The helpers of the kernel are parameters: whether an update of a map or a
-- reservation in the ring buffer succeeds. A `__u64` is a number.
pub mod Tracking
pub mod Events
use living_codebase.Prelude.{
  ℕ, ◌+◌, ◌*◌, ◌/◌, ◌%◌, Bool, true, false, String, Option, none, some, List, [], ◌∷◌, ◌++◌, ◌==◌,
  ltb, if◌then◌else◌,
}

abbrev pub BpfMap : Type 0
BpfMap = ℕ → Option ℕ

abbrev pub updated : ℕ → ℕ → BpfMap → BpfMap
updated key value m k = if key == k then some value else m k

abbrev pub deleted : ℕ → BpfMap → BpfMap
deleted key m k = if key == k then none else m k

-- `struct fault_event`
pub record FaultEvent : Type 0 where
  pub pid : ℕ
  pub addr : ℕ
  pub timestamp : ℕ
  pub fault_class : ℕ
  pub func_name : String

-- The maps, and the events submitted to the ring buffer, the latest last.
pub record Maps : Type 0 where
  pub heap_allocations : BpfMap
  pub active_malloc_requests : BpfMap
  pub fault_events : List FaultEvent

-- The maps when the probes are loaded.
abbrev pub loaded : Maps
loaded = record {
  heap_allocations = λ a. none;
  active_malloc_requests = λ t. none;
  fault_events = [];
}

-- What the kernel tells a probe: the thread, the time, and whether there is room for another
-- entry of each map and for another event.
pub record Context : Type 0 where
  pub pid_tgid : ℕ
  pub time : ℕ
  pub heap_room : Bool
  pub request_room : Bool
  pub ring_room : Bool

-- `bpf_map_update_elem(…, BPF_ANY)`: a full map still takes a new value for a key that it has.
abbrev has_room : Bool → Option ℕ → Bool
has_room room none = room
has_room room (some v) = true

abbrev pub update_elem : Bool → ℕ → ℕ → BpfMap → BpfMap
update_elem room key value m = if has_room room (m key) then updated key value m else m

-- The event that a probe fills in.
unfoldable pub fault_event : Context → ℕ → ℕ → String → FaultEvent
fault_event ctx addr fault_class func_name = record {
  pid = ctx.pid_tgid / 4294967296;
  addr = addr;
  timestamp = ctx.time;
  fault_class = fault_class;
  func_name = func_name;
}

-- From `bpf_ringbuf_reserve` to `bpf_ringbuf_submit`; without room nothing is sent.
unfoldable pub submit : Context → ℕ → ℕ → String → Maps → Maps
unfolding fault_event
submit ctx addr fault_class func_name s =
    if ctx.ring_room
    then (record s {
      fault_events = s.fault_events ++ fault_event ctx addr fault_class func_name ∷ [];
    })
    else s

-- `malloc_entry`
unfoldable pub malloc_entry : Context → ℕ → Maps → Maps
malloc_entry ctx size s = record s {
  active_malloc_requests = update_elem ctx.request_room ctx.pid_tgid size s.active_malloc_requests;
}

-- `malloc_ret`
unfoldable pub malloc_ret : Context → ℕ → Maps → Maps
malloc_ret ctx addr s = if addr == 0 then s else (record s {
  heap_allocations = update_elem ctx.heap_room addr ctx.pid_tgid s.heap_allocations;
  active_malloc_requests = deleted ctx.pid_tgid s.active_malloc_requests;
})

-- `FAULT_CLASS_MEMORY_CORRUPTION` and `FAULT_CLASS_INVARIANT`
abbrev pub memory_corruption : ℕ
memory_corruption = 10

abbrev pub invariant : ℕ
invariant = 12

-- `free_entry`
unfoldable pub free_entry : Context → ℕ → Maps → Maps
unfolding submit
free_entry ctx key s = if key == 0 then s else elim (s.heap_allocations key) [
  | none ↦ submit ctx key memory_corruption "libc:free_anomaly" s
  | some tid ↦ record s { heap_allocations = deleted key s.heap_allocations }
]

-- `page_fault_entry`; the fault address is what `PT_REGS_PARM1` gives.
unfoldable pub page_fault_entry : Context → ℕ → Maps → Maps
unfolding submit
page_fault_entry ctx fault_addr s =
    if ltb fault_addr 4096 then submit ctx fault_addr invariant "kernel:null_deref" s else s
