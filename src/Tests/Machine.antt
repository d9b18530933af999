-- ===== src/Tests/Machine.antt =====
-- A machine that meets what the injectors rely on, and a hot swap on it: the bytes from 4096 to
-- `top` are mapped, and new pages are put on top.
use living_codebase.Prelude.{
  ◌≡◌, ◌<◌, refl, ap, fun_ext, ℕ, ◌+◌, ◌-◌, ◌%◌, min, Bool, true, false, ◌&&◌, Option, some, none,
  List, [], ◌∷◌, leb, ltb, if◌then◌else◌, arith, inr,
}
use living_codebase.Words.{byte-lt, word}
use living_codebase.Ptrace.{
  Regs, View, Ptrace, IsPtrace, Mapped, AsksMmap, Extends, Outside, poked, pages,
}
use living_codebase.Injector.{ok, err, other, hot_swap_patch}
use living_codebase.Injector.Swapped.{IsSwapped, IsPatchable, hot_swap_patch_lem}
use living_codebase.Injector.Frozen.{IsUnmapped, hot_swap_patch_freezes}
use living_codebase.Prelude.Int.{pos, negsuc}
use living_codebase.Hotswap.{inject_patch}
use living_codebase.Hotswap.Steps.{IsRestored}
use living_codebase.Hotswap.Outcomes.{inject_patch_lem, inject_patch_restores}

pub record Machine : Type 0 where
  pub stopped : Bool
  pub regs : Regs
  pub cells : ℕ → ℕ
  pub top : ℕ

abbrev cells_of : Machine → ℕ → ℕ
cells_of t x = t.cells x % 256

-- User addresses are in the lower half.
abbrev top_of : Machine → ℕ
top_of t = min t.top 9223372036854775808

abbrev pub view_of : Machine → View
view_of t = record {
  stopped = t.stopped;
  regs = t.regs;
  memory = cells_of t;
  mapped = λ x. leb 4096 x && ltb x (top_of t);
}

abbrev place_in : ℕ → ℕ → Option ℕ
place_in top n = if leb 4096 top && ltb (top + pages n) 9223372036854775808 then some top else none

abbrev extended : Machine → Option ℕ → Option Machine
extended t none = some (record t { regs = record t.regs { rax = 18446744073709551604 } })
extended t (some a) =
    some (record t { regs = record t.regs { rax = a }; top = top_of t + pages t.regs.rsi })

abbrev pub machine : Ptrace Machine
machine = record {
  attach = λ t. some (record t { stopped = true });
  wait = λ t. some t;
  getregs = λ t. some t.regs;
  setregs = λ r t. some (record t { regs = r });
  read = λ a t.
      if leb 4096 a && ltb (a + 7) (top_of t)
      then some (word 8 (λ i. cells_of t (a + i)))
      else none;
  write = λ a w t.
      if leb 4096 a && ltb (a + 7) (top_of t)
      then some (record t { cells = poked a w (cells_of t) })
      else none;
  step = λ t. extended t (place_in (top_of t) t.regs.rsi);
  detach = λ t. some (record t { stopped = false });
  view = view_of;
  place = λ t. place_in (top_of t);
}

ends_of-Mapped :
    (t : Machine) (a : ℕ) → Mapped (view_of t) a 8 → (leb 4096 a && ltb (a + 7) (top_of t)) ≡ true
ends_of-Mapped t a m =
    ground (arith, m a (omega arith) (omega arith), m (a + 7) (omega arith) (omega arith))

poked_cells :
    (a w : ℕ) (t : Machine) (x : ℕ) → poked a w (cells_of t) x % 256 ≡ poked a w (cells_of t) x
poked_cells a w t x = ground (arith, byte-lt w (x - a))

machine-maps :
    (t : Machine) (n a : ℕ)
    → t.stopped ≡ true
    → AsksMmap (view_of t) n
    → place_in (top_of t) n ≡ some a
    → (t₁ t₂ : Machine) × (machine.step t ≡ some t₁)
      × (machine.wait t₁ ≡ some t₂)
      × Extends (view_of t) (view_of t₂)
      × (t₂.regs.rax ≡ a)
      × Mapped (view_of t₂) a (pages n)
      × Outside (view_of t) (view_of t₂) a (pages n)
machine-maps t n a s asks e =
    let size = asks.size in
    let t₁ : Machine = record t {
      regs = record t.regs { rax = a };
      top = top_of t + pages t.regs.rsi;
    } in
    let start : a ≡ top_of t = ground arith in
    let room : place_in (top_of t) t.regs.rsi ≡ some a = rw size e in
    (
      t₁,
      t₁,
      rw room,
      refl,
      record { stopped = refl; mapped = λ x h. ground arith; memory = λ x h. refl },
      refl,
      λ x h k. ground arith,
      λ x h k. ground arith,
    )

-- ENOMEM is 12.
machine-exhausts :
    (t : Machine) (n : ℕ)
    → t.stopped ≡ true
    → AsksMmap (view_of t) n
    → place_in (top_of t) n ≡ none
    → (t₁ t₂ : Machine) × (machine.step t ≡ some t₁)
      × (machine.wait t₁ ≡ some t₂)
      × Extends (view_of t) (view_of t₂)
      × (18446744073709547520 < t₂.regs.rax)
      × (t₂.regs.rax < 18446744073709551616)
      × ((view_of t₂).mapped t₂.regs.rax ≡ false)
machine-exhausts t n s asks e =
    let size = asks.size in
    let t₁ : Machine = record t { regs = record t.regs { rax = 18446744073709551604 } } in
    let full : place_in (top_of t) t.regs.rsi ≡ none = rw size e in
    (
      t₁,
      t₁,
      rw full,
      refl,
      record { stopped = refl; mapped = λ x h. h; memory = λ x h. refl },
      omega arith,
      omega arith,
      ground arith,
    )

pub machine-IsPtrace : IsPtrace machine
machine-IsPtrace = record {
  bytes = λ t x. omega arith;
  gets = λ t s. refl;
  sets = λ r t s. (record t { regs = r }, refl, refl, refl);
  reads = λ a t s m. rw (ends_of-Mapped t a m);
  faults = λ a t h. ground arith;
  refuses = λ a w t h. ground arith;
  writes = λ a w t s m. (
    record t { cells = poked a w (cells_of t) },
    rw (ends_of-Mapped t a m),
    ap (λ (c : ℕ → ℕ). record (view_of t) { memory = c }) (fun_ext (poked_cells a w t)),
    refl,
  );
  detaches = λ t s. (record t { stopped = false }, refl, refl);
  places = λ t n a e. (ground arith, λ x h k. ground arith);
  maps = machine-maps;
  exhausts = machine-exhausts;
}

-- A target of 8192 bytes, about to run the instruction at 4096.
abbrev pub target : Machine
target = record {
  stopped = false;
  regs = record {
    rip = 4096;
    rax = 0;
    rdi = 0;
    rsi = 0;
    rdx = 0;
    r10 = 0;
    r8 = 0;
    r9 = 0;
    others = λ k. 0;
  };
  cells = λ x. x;
  top = 8192;
}

abbrev pub held : Machine
held = record target { stopped = true }

-- NOP NOP RET
abbrev mock_patch : List ℕ
mock_patch = 144 ∷ 144 ∷ 195 ∷ []

held-IsPatchable : IsPatchable 4160 (view_of held)
held-IsPatchable = record {
  stopped = refl;
  instruction = λ x h k. ground arith;
  function = λ x h k. ground arith;
  low = omega arith;
}

-- Nothing is mapped at 20000.
at_20000 : IsUnmapped 20000 3 (view_of held) (some 8192)
at_20000 = record { hole = refl; apart = λ a e. ground arith }

hot_swap_patch_lem_example :
    (t' : Machine) × (hot_swap_patch machine 4160 mock_patch target ≡ (ok tt, t'))
    × IsSwapped 4160 8192 mock_patch (view_of held) (view_of t')
hot_swap_patch_lem_example =
    hot_swap_patch_lem machine machine-IsPtrace 4160 8192 mock_patch target held held refl refl
      held-IsPatchable (omega arith) refl

hot_swap_patch_freezes_example :
    (t' : Machine) × (hot_swap_patch machine 20000 mock_patch target ≡ (err other, t'))
    × ((view_of t').stopped ≡ true)
hot_swap_patch_freezes_example =
    hot_swap_patch_freezes machine machine-IsPtrace 20000 mock_patch target held held refl refl refl
      (λ x h k. ground arith) (omega arith) (omega arith) (inr at_20000)

inject_patch_lem_example :
    (t' : Machine) × (inject_patch machine
        (record { fault_addr = 4160; patch_code = mock_patch })
        target
      ≡ (pos 0, t'))
    × IsSwapped 4160 8192 mock_patch (view_of held) (view_of t')
inject_patch_lem_example =
    inject_patch_lem machine machine-IsPtrace
      (record { fault_addr = 4160; patch_code = mock_patch }) target held held refl refl
      (omega arith) 8192 held-IsPatchable refl

inject_patch_restores_example :
    (t' : Machine) × (inject_patch machine
        (record { fault_addr = 20000; patch_code = mock_patch })
        target
      ≡ (negsuc 0, t'))
    × IsRestored (view_of held) (view_of t')
inject_patch_restores_example =
    inject_patch_restores machine machine-IsPtrace
      (record { fault_addr = 20000; patch_code = mock_patch }) target held held refl refl
      (omega arith) refl (λ x h k. ground arith) (inr at_20000)
