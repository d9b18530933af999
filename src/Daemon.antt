-- ===== src/Daemon.antt =====
-- daemon/src/main.rs: the loop over the events of the channel. A run of the patch engine is the
-- main program of healing/patch_engine.py, and a hot swap is the injector's on the process of the
-- event. Printing and pauses, and with them `simulate_healing_flow`, are left out.
pub mod Cycles
use living_codebase.Prelude.{
  ℕ, suc, String, Bool, true, false, Option, none, some, List, [], ◌∷◌, ◌==◌, if◌then◌else◌,
}
use living_codebase.Python.Value.{Value, Result, ok, raised}
use living_codebase.Engine.Verifier.{Solver}
use living_codebase.Engine.Genetic.{Draws}
use living_codebase.Engine.Script.{script}
use living_codebase.Ptrace.{Ptrace}
use living_codebase.Injector.{IoResult, hot_swap_patch}

-- `FaultEvent`
pub record FaultEvent : Type 0 where
  pub pid : ℕ
  pub addr : ℕ
  pub timestamp : ℕ
  pub fault_class : ℕ
  pub func_name : String

-- What came of an event.
pub data Handled : Type 0 where
  simulated completed swap_failed engine_crashed : Handled

-- What the daemon meets at the k-th event: whether the script is there, and the random draws of
-- the script, or none where Python cannot be started.
pub record Host : Type 0 where
  pub script_exists : ℕ → Bool
  pub python : ℕ → Option Draws

-- `output.status.success()`
abbrev pub success {ℓ} : {A : Type ℓ} → Result A → Bool
success (ok a) = true
success (raised e) = false

-- "Mock patch bytes (NOP NOP RET)"
abbrev pub patch_bytes : List ℕ
patch_bytes = 144 ∷ 144 ∷ 195 ∷ []

abbrev swap_result : IoResult (Unit {0}) → Handled
swap_result (IoResult.ok x) = completed
swap_result (IoResult.err e) = swap_failed

module _ {Target : Type 0} (p : Ptrace Target) (z3 : Solver) (host : Host) where
  -- The processes, by their PIDs.
  abbrev pub World : Type 0
  World = ℕ → Target

  abbrev pub put_process : ℕ → Target → World → World
  put_process pid t world q = if pid == q then t else world q

  unfoldable pub hot_swap : FaultEvent → World → Handled × World
  hot_swap e world =
      let r = hot_swap_patch p e.addr patch_bytes (world e.pid) in
      (swap_result r.0, put_process e.pid r.1 world)

  -- `match Command::new("python3") … .output()`
  unfoldable pub run_engine : Option Draws → FaultEvent → World → Handled × World
  unfolding hot_swap
  run_engine none e world = (simulated, world)
  run_engine (some draws) e world =
      if success (script z3 draws) then hot_swap e world else (engine_crashed, world)

  -- The body of the loop, for the k-th event.
  unfoldable pub handle : ℕ → FaultEvent → World → Handled × World
  unfolding run_engine
  handle k e world =
      if host.script_exists k then run_engine (host.python k) e world else (simulated, world)

  -- `while let Ok(event) = rx.recv()`
  unfoldable pub run_daemon : ℕ → List FaultEvent → World → List Handled × World
  unfolding handle
  run_daemon k [] world = ([], world)
  run_daemon k (e ∷ es) world =
      let (h, world') = handle k e world in
      let (hs, world'') = run_daemon (suc k) es world' in (h ∷ hs, world'')
