-- ===== src/Healing/Healed.antt =====
-- Which faults a session heals.
use living_codebase.Prelude.{
  ◌≡◌, ◌≢◌, ◌∙◌, ◌≤◌, ◌<◌, refl, ap, ℕ, suc, ◌+◌, ◌%◌, sym, String, true, ◌&&◌, not, Option, none,
  some, List, [], ◌∷◌, ◌++◌, map, length, if◌then◌else◌, str_eq, Bool-cases, Option-cases, inl, inr,
  arith,
}
use living_codebase.Prelude.Int.{pos}
use living_codebase.Heap.{FaultClass, use_after_free, double_free}
use living_codebase.Heap.History.{
  History, mallocs, frees, writes, was_allocated, was_freed, tracker_after, tracker_reports,
}
use living_codebase.Engine.Verifier.{Solver, IsSound, unknown, answer_sat}
use living_codebase.Healing.{
  Event, Format, Session, on_event, patch_query, generate_patch, verify_patch, heal, run_events,
  healing_loop, started,
}

-- The history with the call of an event.
abbrev pub called : Event → History → History
called e h =
    if str_eq e.op "malloc"
    then mallocs e.addr e.size ∷ h
    else if str_eq e.op "free"
    then frees e.addr ∷ h
    else if str_eq e.op "write"
    then writes e.addr ∷ h
    else h

-- What should be reported of an event after a history.
abbrev pub expected : Event → History → Option FaultClass
expected e h =
    if str_eq e.op "malloc"
    then none
    else if str_eq e.op "free"
    then (if was_allocated e.addr h && not (was_freed e.addr h)
        then none
        else some (double_free e.addr))
    else if str_eq e.op "write"
    then (if was_freed e.addr h then some (use_after_free e.addr) else none)
    else none

abbrev keep_fault : Option FaultClass → List FaultClass → List FaultClass
keep_fault none fs = fs
keep_fault (some f) fs = f ∷ fs

-- The faults of the events after a history, in their order.
unfoldable pub faults_after : History → List Event → List FaultClass
faults_after h [] = []
faults_after h (e ∷ es) = keep_fault (expected e h) (faults_after (called e h) es)

on_event_lem :
    (e : Event) (h : History)
    → on_event e (tracker_after h) ≡ (expected e h, tracker_after (called e h))
unfolding on_event tracker_after
on_event_lem e h = elim (Bool-cases (str_eq e.op "malloc")) [
  | inl p ↦ rw p refl
  | inr p ↦ elim (Bool-cases (str_eq e.op "free")) [
    | inl q ↦
        rw (p, q)
          (ap (λ (o : Option FaultClass). (o, tracker_after (frees e.addr ∷ h)))
            (tracker_reports h e.addr).1)
    | inr q ↦ elim (Bool-cases (str_eq e.op "write")) [
      | inl r ↦
          rw (p, q, r)
            (ap (λ (o : Option FaultClass). (o, tracker_after h)) (tracker_reports h e.addr).0)
      | inr r ↦ rw (p, q, r) refl
    ]
  ]
]

length-faults_after : (h : History) (es : List Event) → length (faults_after h es) ≤ length es
unfolding faults_after
length-faults_after h [] = omega arith
length-faults_after h (e ∷ es) = elim (Option-cases (expected e h)) [
  | inl p ↦ rw p (omega (arith, length-faults_after (called e h) es))
  | inr (f, p) ↦ rw p (omega (arith, length-faults_after (called e h) es))
]

append_nil {ℓ} : {A : Type ℓ} (xs : List A) → xs ++ [] ≡ xs
append_nil [] = refl
append_nil (x ∷ xs) = ap (λ ys. x ∷ ys) (append_nil xs)

append_assoc {ℓ} : {A : Type ℓ} (xs ys zs : List A) → (xs ++ ys) ++ zs ≡ xs ++ (ys ++ zs)
append_assoc [] ys zs = refl
append_assoc (x ∷ xs) ys zs = ap (λ ws. x ∷ ws) (append_assoc xs ys zs)

module _ (z3 : Solver) (sound : IsSound z3) (decided : z3 patch_query ≢ unknown) (format : Format)
    (elapsed : ℕ → ℕ) where
  verified : (patch : String) → verify_patch z3 format elapsed patch ≡ true
  unfolding verify_patch patch_query
  verified patch =
      answer_sat (z3 patch_query) (λ e. cc (sound.no_model patch_query e (pos 0) (pos 1))) decided

  abbrev pub patched : List FaultClass → List String
  patched = map (generate_patch z3 format elapsed)

  -- The next faults `fs` are healed one by one.
  record Heals (s s' : Session) (fs : List FaultClass) : Type 0 where
    swaps : s'.swapped ≡ s.swapped ++ patched fs
    counts : s'.healed ≡ s.healed + length fs

  run_events_lem :
      (h : History) (es : List Event) (s : Session)
      → s.tracker ≡ tracker_after h
      → s.healed + length es < 4294967296
      → Heals s (run_events z3 format elapsed es s) (faults_after h es)
  unfolding run_events faults_after heal
  run_events_lem h [] s t small = record {
    swaps = sym (append_nil s.swapped);
    counts = omega arith;
  }
  run_events_lem h (e ∷ es) s t small = elim (Option-cases (expected e h)) [
    | inl p ↦
        rw (t, on_event_lem e h, p)
          (let s₁ : Session = record s { tracker = tracker_after (called e h) } in
            let r = run_events_lem (called e h) es s₁ refl (omega arith) in
            record { swaps = r.swaps; counts = r.counts })
    | inr (f, p) ↦
        rw (t, on_event_lem e h, p, verified (generate_patch z3 format elapsed f))
          (let s₁ : Session = record {
            tracker = tracker_after (called e h);
            healed = suc s.healed % 4294967296;
            total_ms = s.total_ms + elapsed (length s.swapped);
            swapped = s.swapped ++ generate_patch z3 format elapsed f ∷ [];
          } in
            let one : suc s.healed % 4294967296 ≡ suc s.healed = omega arith in
            let r = run_events_lem (called e h) es s₁ refl (omega arith) in
            record {
              swaps = r.swaps ∙ append_assoc s.swapped _ _;
              counts = omega (arith, r.counts);
            })
  ]

  -- With a sound Z3 that decides the query of `verify_patch`, a session of fewer than 2^32 events
  -- swaps in the patch of every fault of its events, in their order, and counts each: the writes
  -- to freed addresses, and the frees of addresses that were never allocated or are freed already.
  pub healing_loop_lem :
      (events : List Event)
      → length events < 4294967296
      → let (s, avg) = healing_loop z3 format elapsed events in
        (s.swapped ≡ patched (faults_after [] events))
        × (s.healed ≡ length (faults_after [] events))
  unfolding healing_loop tracker_after
  healing_loop_lem events small =
      let r = run_events_lem [] events started refl (omega arith) in
      (r.swaps, omega (arith, r.counts))
