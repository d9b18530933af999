-- ===== src/Daemon/Cycles.antt =====
-- Healing cycles of the daemon, with the engine and the injector.
use living_codebase.Prelude.{
  ◌≡◌, ◌≢◌, ◌≤◌, ◌<◌, ◌∙◌, refl, ap, ℕ, suc, ◌%◌, true, false, some, List, [], ◌∷◌, ◌==◌, length,
  All, if◌then◌else◌, arith, Bool-cases, Option-cases, inl, inr,
}
use living_codebase.Engine.Verifier.{Solver, IsSound, assertions, unknown}
use living_codebase.Engine.Genetic.{Draws}
use living_codebase.Engine.Script.{script}
use living_codebase.Engine.Script.Outcomes.{script_converges}
use living_codebase.Ptrace.{Ptrace, IsPtrace, Mapped}
use living_codebase.Injector.Swapped.{IsSwapped, IsPatchable, hot_swap_patch_lem}
use living_codebase.Injector.Frozen.{hot_swap_patch_freezes}
use living_codebase.Daemon.{
  FaultEvent, completed, swap_failed, Host, success, patch_bytes, World, put_process, hot_swap,
  run_engine, handle, run_daemon,
}

-- The engine runs at the k-th event, and one of its first 20 draws is the mutation that adds bounds
-- checks.
pub record Converges (host : Host) (k : ℕ) : Type 0 where
  pub draws : Draws
  pub found : host.script_exists k ≡ true
  pub starts : host.python k ≡ some draws
  pub draw : ℕ
  pub among : draw < 20
  pub chosen : draws draw % 3 ≡ 0

-- The process `t` when it is attached and has stopped: `t'`.
pub record IsHeld {Target : Type 0} (p : Ptrace Target) (t t' : Target) : Type 0 where
  pub waiting : Target
  pub attaches : p.attach t ≡ some waiting
  pub waits : p.wait waiting ≡ some t'

other_process :
    {T : Type 0} (pid : ℕ) (t : T) (world : ℕ → T) (q : ℕ)
    → q ≢ pid
    → (if pid == q then t else world q) ≡ world q
other_process pid t world q h = ground arith

same_process : {T : Type 0} (pid : ℕ) (t u : T) → (if pid == pid then t else u) ≡ t
same_process pid t u = ground arith

small_patch : All (λ x. x < 256) patch_bytes
small_patch = omega arith

module _ {Target : Type 0} (p : Ptrace Target) (z3 : Solver) (host : Host) where
  hot_swap_others :
      (e : FaultEvent) (world : World p z3 host) (q : ℕ)
      → q ≢ e.pid
      → (hot_swap p z3 host e world).1 q ≡ world q
  unfolding hot_swap
  hot_swap_others e world q h = other_process e.pid _ world q h

  handle_others :
      (k : ℕ) (e : FaultEvent) (world : World p z3 host) (q : ℕ)
      → q ≢ e.pid
      → (handle p z3 host k e world).1 q ≡ world q
  unfolding handle run_engine
  handle_others k e world q h = elim (Bool-cases (host.script_exists k)) [
    | inr n ↦ rw n
    | inl y ↦ elim (Option-cases (host.python k)) [
      | inl n ↦ rw (y, n)
      | inr (draws, d) ↦ elim (Bool-cases (success (script z3 draws))) [
        | inl s ↦ rw (y, d, s) (hot_swap_others e world q h)
        | inr n ↦ rw (y, d, n)
      ]
    ]
  ]

  -- No other process than those of the events is touched, and every event is handled, whatever the
  -- outcome of those before it.
  pub run_daemon_lem :
      (k : ℕ) (es : List FaultEvent) (world : World p z3 host)
      → (length (run_daemon p z3 host k es world).0 ≡ length es)
        × ((q : ℕ)
            → All (λ (e : FaultEvent). q ≢ e.pid) es
            → (run_daemon p z3 host k es world).1 q ≡ world q)
  unfolding run_daemon
  run_daemon_lem k [] world = (refl, λ q n. refl)
  run_daemon_lem k (e ∷ es) world =
      let world' = (handle p z3 host k e world).1 in
      let (l, f) = run_daemon_lem (suc k) es world' in
      (ap suc l, λ q n. f q n.1 ∙ handle_others k e world q n.0)

module _ {Target : Type 0} (p : Ptrace Target) (laws : IsPtrace p) (z3 : Solver)
    (sound : IsSound z3) (decided : z3 assertions ≢ unknown) (host : Host) where
  handle-hot_swap :
      (k : ℕ) (e : FaultEvent) (world : World p z3 host)
      → Converges host k
      → handle p z3 host k e world ≡ hot_swap p z3 host e world
  unfolding handle run_engine
  handle-hot_swap k e world c =
      rw (c.found, c.starts, script_converges z3 c.draws sound decided c.draw c.among c.chosen)

  -- The whole cycle, with a sound Z3 that decides the assertions: where the engine runs and has the
  -- bounds checks among its first 20 draws, the process of the event can be attached, stops and can
  -- be patched at the address of the event, and the kernel finds room, the cycle completes; the
  -- process then has the patch and the jump, and no other process is touched.
  pub handle_completes :
      (k a : ℕ) (e : FaultEvent) (world : World p z3 host) (t : Target)
      → Converges host k
      → IsHeld p (world e.pid) t
      → IsPatchable e.addr (p.view t)
      → p.place t 3 ≡ some a
      → (world' : World p z3 host) × (handle p z3 host k e world ≡ (completed, world'))
        × IsSwapped e.addr a patch_bytes (p.view t) (p.view (world' e.pid))
        × ((q : ℕ) → q ≢ e.pid → world' q ≡ world q)
  unfolding hot_swap
  handle_completes k a e world t c held ready room =
      let (t', done, swapped) =
        hot_swap_patch_lem p laws e.addr a patch_bytes (world e.pid) held.waiting t held.attaches
          held.waits ready small_patch room in
      (
        put_process p z3 host e.pid t' world,
        handle-hot_swap k e world c ∙ rw done,
        rw (same_process e.pid t' (world e.pid)) swapped,
        λ q h. other_process e.pid t' world q h,
      )

  -- The cycle of a fault in the null page, with a sound Z3 that decides the assertions: where the
  -- engine runs and has the bounds checks among its first 20 draws, and the process can be attached,
  -- stops, has the word at its next instruction mapped, maps nothing below 4096 and gets no new
  -- pages there, the swap fails, and the process stays stopped.
  pub handle_freezes :
      (k : ℕ) (e : FaultEvent) (world : World p z3 host) (t : Target)
      → Converges host k
      → IsHeld p (world e.pid) t
      → (p.view t).stopped ≡ true
      → Mapped (p.view t) (p.view t).regs.rip 8
      → ((a : ℕ) → p.place t 3 ≡ some a → 4096 ≤ a)
      → ((x : ℕ) → x < 4096 → (p.view t).mapped x ≡ false)
      → e.addr < 4096
      → (world' : World p z3 host) × (handle p z3 host k e world ≡ (swap_failed, world'))
        × ((p.view (world' e.pid)).stopped ≡ true)
  unfolding hot_swap
  handle_freezes k e world t c held s m above null low =
      let (t', failed, frozen) =
        hot_swap_patch_freezes p laws e.addr patch_bytes (world e.pid) held.waiting t held.attaches
          held.waits s m small_patch (omega arith)
          (inr
            (record { hole = null e.addr low; apart = λ a room. ground (arith, above a room) })) in
      (
        put_process p z3 host e.pid t' world,
        handle-hot_swap k e world c ∙ rw failed,
        rw (same_process e.pid t' (world e.pid)) frozen,
      )
