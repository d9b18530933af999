-- ===== src/Healing.antt =====
-- src/main.rs: `generate_patch`, `verify_patch` and `healing_loop`, over the events of its vector.
-- Z3 is a parameter, as are the texts that `format!` writes for numbers, and the milliseconds
-- measured: `elapsed k` is those of the k-th patch. `hot_swap` prints and pauses, and is kept as
-- the list of patches that it was called with.
pub mod Healed
use Prim.Native.String.{◌++◌}
use living_codebase.Prelude.{
  ℕ, suc, ◌+◌, ◌/◌, ◌%◌, String, Bool, ◌&&◌, Option, none, some, List, [], ◌∷◌, length, ltb,
  if◌then◌else◌, str_eq,
}
use living_codebase.Prelude.{◌++◌ as append}
use living_codebase.Prelude.Int.{ℤ, pos, ltb_ℤ, leb_ℤ}
use living_codebase.Heap.{
  Heap, FaultClass, use_after_free, null_deref, double_free, out_of_bounds, on_malloc, on_free,
  on_write, empty_heap,
}
use living_codebase.Engine.Verifier.{Solver, Constraint, is_sat}

pub record Event : Type 0 where
  pub op : String
  pub addr : ℕ
  pub size : ℕ

-- `{:#x}` and `{}` of a number.
pub record Format : Type 0 where
  pub hex : ℕ → String
  pub decimal : ℕ → String

pub record Session : Type 0 where
  pub tracker : Heap
  -- a u32
  pub healed : ℕ
  pub total_ms : ℕ
  pub swapped : List String

-- The variables of `healing_loop` before its first event.
abbrev pub started : Session
started = record { tracker = empty_heap; healed = 0; total_ms = 0; swapped = [] }

-- The `match op` of `healing_loop`.
unfoldable pub on_event : Event → Heap → Option FaultClass × Heap
unfolding on_malloc on_free on_write
on_event e tracker =
    if str_eq e.op "malloc"
    then (none, on_malloc e.addr e.size tracker)
    else if str_eq e.op "free"
    then on_free e.addr tracker
    else if str_eq e.op "write"
    then (on_write e.addr tracker, tracker)
    else (none, tracker)

-- The assertions of the script that `verify_patch` runs.
unfoldable pub patch_query : Constraint
patch_query idx size = ltb_ℤ (pos 0) size && (leb_ℤ (pos 0) idx && ltb_ℤ idx size)

module _ (z3 : Solver) (format : Format) (elapsed : ℕ → ℕ) where
  unfoldable pub generate_patch : FaultClass → String
  generate_patch (use_after_free addr) =
      "// UAF patch at "
      ++ format.hex addr
      ++ "\n// Insert ownership check before write\nif ptr.is_valid() { *ptr = value; }"
  generate_patch (null_deref addr) =
      "// NullDeref patch at "
      ++ format.hex addr
      ++ "\n// Insert null guard\nif !ptr.is_null() { *ptr = value; }"
  generate_patch (double_free addr) =
      "// DoubleFree patch at "
      ++ format.hex addr
      ++ "\n// Set ptr to null after free\nfree(ptr); ptr = nullptr;"
  generate_patch (out_of_bounds addr size) =
      "// OOB patch at "
      ++ format.hex addr
      ++ " (size="
      ++ format.decimal size
      ++ ")\n// Insert bounds clamp\nidx = idx.clamp(0, len - 1);"

  -- The patch is an argument of the function, and is not used.
  unfoldable pub verify_patch : String → Bool
  verify_patch patch_code = is_sat (z3 patch_query)

  -- The `match fault_opt` of `healing_loop`.
  unfoldable pub heal : Option FaultClass → Session → Session
  unfolding generate_patch verify_patch
  heal none s = s
  heal (some fault) s =
      let patch = generate_patch fault in
      if verify_patch patch
      then (record s {
        healed = suc s.healed % 4294967296;
        total_ms = s.total_ms + elapsed (length s.swapped);
        swapped = append s.swapped (patch ∷ []);
      })
      else s

  unfoldable pub run_events : List Event → Session → Session
  unfolding on_event heal
  run_events [] s = s
  run_events (e ∷ es) s =
      let (fault_opt, tracker) = on_event e s.tracker in
      run_events es (heal fault_opt (record s { tracker = tracker }))

  -- The session of `healing_loop`, and the average of its report.
  unfoldable pub healing_loop : List Event → Session × ℕ
  unfolding run_events
  healing_loop events =
      let s = run_events events started in (s, if ltb 0 s.healed then s.total_ms / s.healed else 0)
