-- ===== src/Population/Frame.antt =====
-- What the transformers in place leave alone.
use living_codebase.Prelude.{◌≤◌, ℕ, suc, List, [], ◌∷◌, All, arith, refl}
use living_codebase.Python.Objects.{
  Kind, Address, Memory, Run, ok, M, pure, ◌>>=◌, new, Expr, Exprs, there, make, end, ◌⨾◌, build,
  build_all,
}
use living_codebase.Python.Objects.Frame.{
  Within, IsOwn, Keeps, Keeps-and_then, Keeps-new, Keeps-put_object, Within-mono, All-mono,
}
use living_codebase.Population.{
  null_guard_expr, null_guard_at, insert_null_check_at, bounds_guard_expr, bounds_guard_at,
  insert_bounds_check_at, data_guard_expr, put_object_at, early_return_at, add_early_return_at,
  Rekind, rekind_at,
}

module _ (b : ℕ) where
  abbrev pub InPlace : (Address → M Address) → Type 0
  InPlace f =
      (a : ℕ) (m : Memory) → IsOwn b m → Within b m a → Keeps b m (λ c m'. Within b m' c) (f a m)

  -- The value is an address given out from `b` on.
  abbrev pub Gives : Memory → Run Address → Type 0
  Gives m r = Keeps b m (λ c m'. Within b m' c) r

  Gives-self : (a : ℕ) (m : Memory) → IsOwn b m → Within b m a → Gives m (ok a m)
  Gives-self a m own w = (λ x h. refl, omega arith, own, w)

  mutual
    -- The nodes that are there stand from `b` on.
    AllThere : Memory → Expr → Type 0
    AllThere m (there a) = Within b m a
    AllThere m (make k es) = AllThereIn m es

    AllThereIn : Memory → Exprs → Type 0
    AllThereIn m end = Unit
    AllThereIn m (e ⨾ es) = AllThere m e × AllThereIn m es

  mutual
    unfolding AllThere

    AllThere-mono : (m m' : Memory) (e : Expr) → m.next ≤ m'.next → AllThere m e → AllThere m' e
    AllThere-mono m m' (there a) h w = Within-mono b m m' a h w
    AllThere-mono m m' (make k es) h w = AllThereIn-mono m m' es h w

    AllThereIn-mono :
        (m m' : Memory) (es : Exprs) → m.next ≤ m'.next → AllThereIn m es → AllThereIn m' es
    AllThereIn-mono m m' end h w = tt
    AllThereIn-mono m m' (e ⨾ es) h (w, ws) =
        (AllThere-mono m m' e h w, AllThereIn-mono m m' es h ws)

  mutual
    unfolding build AllThere

    Gives-build : (e : Expr) (m : Memory) → IsOwn b m → AllThere m e → Gives m (build e m)
    Gives-build (there a) m own w = Gives-self a m own w
    Gives-build (make k es) m own ws =
        Keeps-and_then b m (λ cs m'. All (Within b m') cs) (λ c m'. Within b m' c) (build_all es m)
          (λ cs. new k cs) (Keeps-build_all es m own ws)
          λ cs m' mono own' all. Keeps-new b m' k cs own' all

    Keeps-build_all :
        (es : Exprs) (m : Memory)
        → IsOwn b m
        → AllThereIn m es
        → Keeps b m (λ cs m'. All (Within b m') cs) (build_all es m)
    Keeps-build_all end m own ws = (λ x h. refl, omega arith, own, tt)
    Keeps-build_all (e ⨾ es) m own (w, ws) =
        Keeps-and_then b m (λ c m'. Within b m' c) (λ cs m'. All (Within b m') cs) (build e m)
          (λ c. build_all es >>= λ cs. pure (c ∷ cs)) (Gives-build e m own w)
          λ c m' mono own' here.
            Keeps-and_then b m' (λ cs m''. All (Within b m'') cs) (λ cs m''. All (Within b m'') cs)
              (build_all es m') (λ cs. pure (c ∷ cs))
              (Keeps-build_all es m' own' (AllThereIn-mono m m' es mono ws))
              λ cs m'' mono' own'' all.
                (λ x h. refl, omega arith, own'', (Within-mono b m' m'' c mono' here, all))

  null_guard_at-Gives :
      (k : Kind) (cs : List ℕ) (a : ℕ) (m : Memory)
      → IsOwn b m
      → Within b m a
      → All (Within b m) cs
      → Gives m (null_guard_at a k cs m)
  unfolding AllThere null_guard_expr
  null_guard_at-Gives (Kind.attribute x c) (v ∷ []) a m own w (p, q) =
      Gives-build (null_guard_expr v a) m own ((p, (tt, tt)), (w, (tt, tt)))
  null_guard_at-Gives (Kind.subscript c) (v ∷ i ∷ []) a m own w (p, q) =
      Gives-build (null_guard_expr v a) m own ((p, (tt, tt)), (w, (tt, tt)))
  null_guard_at-Gives _ _ a m own w all = Gives-self a m own w

  bounds_guard_at-Gives :
      (k : Kind) (cs : List ℕ) (a : ℕ) (m : Memory)
      → IsOwn b m
      → Within b m a
      → All (Within b m) cs
      → Gives m (bounds_guard_at a k cs m)
  unfolding AllThere bounds_guard_expr
  bounds_guard_at-Gives (Kind.subscript c) (v ∷ i ∷ []) a m own w (p, (q, r)) =
      Gives-build (bounds_guard_expr v i a) m own
        ((((tt, (p, tt)), (q, tt)), ((q, (tt, tt)), tt)), (w, (tt, tt)))
  bounds_guard_at-Gives _ _ a m own w all = Gives-self a m own w

  early_return_at-Gives :
      (k : Kind) (cs : List ℕ) (a : ℕ) (m : Memory)
      → IsOwn b m
      → Within b m a
      → All (Within b m) cs
      → Gives m (early_return_at a k cs m)
  unfolding AllThere data_guard_expr put_object_at
  early_return_at-Gives (Kind.function_def f n) (ps ∷ rest) a m own w (p, ws) =
      Keeps-and_then b m (λ c m'. Within b m' c) (λ c m'. Within b m' c) (build data_guard_expr m) _
        (Gives-build data_guard_expr m own ((tt, (tt, tt)), ((tt, tt), tt)))
        λ c m' mono own' here.
          Keeps-put_object b (λ c m'. Within b m' c) a m' a
            (record { kind = Kind.function_def f (suc n); children = ps ∷ c ∷ rest }) own'
            (Within-mono b m m' a mono w)
            (
              Within-mono b m m' ps mono p,
              (here, All-mono rest (λ x. Within-mono b m m' x mono) ws),
            )
            (Within-mono b m m' a mono w)
  early_return_at-Gives _ _ a m own w all = Gives-self a m own w

  pub insert_null_check_at-InPlace : InPlace insert_null_check_at
  unfolding insert_null_check_at
  insert_null_check_at-InPlace a m own w =
      null_guard_at-Gives (m.objects a).kind (m.objects a).children a m own w (own.closed a w.0 w.1)

  pub insert_bounds_check_at-InPlace : InPlace insert_bounds_check_at
  unfolding insert_bounds_check_at
  insert_bounds_check_at-InPlace a m own w =
      bounds_guard_at-Gives (m.objects a).kind (m.objects a).children a m own w
        (own.closed a w.0 w.1)

  pub add_early_return_at-InPlace : InPlace add_early_return_at
  unfolding add_early_return_at
  add_early_return_at-InPlace a m own w =
      early_return_at-Gives (m.objects a).kind (m.objects a).children a m own w
        (own.closed a w.0 w.1)

  pub rekind_at-InPlace : (f : Rekind) → InPlace (rekind_at f)
  unfolding rekind_at
  rekind_at-InPlace f a m own w =
      Keeps-put_object b (λ c m'. Within b m' c) a
        (record m { calls = (f (m.objects a).kind m.calls).1 }) a
        (record (m.objects a) { kind = (f (m.objects a).kind m.calls).0 })
        (record { base = own.base; closed = own.closed; copied = own.copied }) w
        (own.closed a w.0 w.1) w
