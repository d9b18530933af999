-- ===== src/Python/Objects/Copies.antt =====
-- What `copy.deepcopy` leaves alone, and that its copy refers to copies only.
use living_codebase.Prelude.{
  ◌≡◌, ◌≤◌, ◌<◌, ℕ, zero, suc, Option, none, some, List, [], ◌∷◌, All, ◌==◌, Bool-cases, inl, inr,
  arith, refl,
}
use living_codebase.Python.Objects.{
  Address, Memory, M, pure, new, set_children, each, remember, recall, fill, copy_object, deepcopy,
  ◌>>◌,
}
use living_codebase.Python.Objects.Frame.{
  Within, IsOwn, Keeps, Keeps-and_then, Keeps-new, Keeps-put_object, Keeps-each, Within-mono,
}

module _ (b : ℕ) where
  Keeps-remember :
      (a c : ℕ) (m : Memory)
      → IsOwn b m
      → Within b m c
      → Keeps b m (λ u m'. m'.next ≡ m.next) (remember a c m)
  unfolding remember
  Keeps-remember a c m own (lo, hi) = (
    λ x h. refl,
    omega arith,
    record {
      base = own.base;
      closed = own.closed;
      copied = λ x y e. elim (Bool-cases (a == x)) [
        | inl t ↦ ground (arith, rw t at e)
        | inr t ↦ own.copied x y (rw t at e)
      ];
    },
    refl,
  )

  Keeps-recall :
      (m : Memory) (o : Option Address) (fresh : M Address)
      → ((c : ℕ) → o ≡ some c → Within b m c)
      → IsOwn b m
      → Keeps b m (λ c m'. Within b m' c) (fresh m)
      → Keeps b m (λ c m'. Within b m' c) (recall o fresh m)
  Keeps-recall m none fresh known own k = k
  Keeps-recall m (some c) fresh known own k = (λ x h. refl, omega arith, own, known c refl)

  pub Keeps-copy_object :
      (stack a : ℕ) (m : Memory)
      → IsOwn b m
      → Keeps b m (λ c m'. Within b m' c) (copy_object stack a m)
  unfolding copy_object set_children
  Keeps-copy_object zero a m own = λ x h. refl
  Keeps-copy_object (suc stack) a m own = Keeps-recall m (m.memo a) _ (own.copied a) own (
      Keeps-and_then b m (λ c m'. Within b m' c) (λ c m'. Within b m' c)
        (new (m.objects a).kind [] m)
        (λ c. remember a c >> fill (copy_object stack) (m.objects a).children c)
        (Keeps-new b m (m.objects a).kind [] own tt)
        λ c m₁ mono₁ own₁ w₁.
          Keeps-and_then b m₁ (λ u m'. m'.next ≡ m₁.next) (λ c m'. Within b m' c) (remember a c m₁)
            (λ u. fill (copy_object stack) (m.objects a).children c) (Keeps-remember a c m₁ own₁ w₁)
            λ u m₂ mono₂ own₂ e₂.
              Keeps-and_then b m₂ (λ cs m'. All (Within b m') cs) (λ c m'. Within b m' c)
                (each (copy_object stack) (m.objects a).children m₂)
                (λ cs. set_children c cs >> pure c)
                (Keeps-each b (λ a m. Unit) (λ m m' a h p. tt) (copy_object stack)
                  (λ x m' own' p. Keeps-copy_object stack x m' own') (m.objects a).children m₂ own₂
                  (trivial (m.objects a).children))
                λ cs m₃ mono₃ own₃ ws.
                  let here : Within b m₃ c = Within-mono b m₁ m₃ c (omega arith) w₁ in
                  Keeps-put_object b (λ c m'. Within b m' c) c m₃ c
                    (record (m₃.objects c) { children = cs }) own₃ here ws here)
    where
      trivial : (as' : List ℕ) → All (λ a. Unit {0}) as'
      trivial [] = tt
      trivial (x ∷ xs) = (tt, trivial xs)

  -- The dictionary starts empty.
  pub Keeps-deepcopy :
      (stack a : ℕ) (m : Memory)
      → b ≤ m.next
      → ((x : ℕ) → b ≤ x → x < m.next → All (Within b m) (m.objects x).children)
      → Keeps b m (λ c m'. Within b m' c) (deepcopy stack a m)
  unfolding deepcopy
  Keeps-deepcopy stack a m base closed =
      Keeps-copy_object stack a (record m { memo = λ x. none })
        (record { base = base; closed = closed; copied = λ x y e. cc })
