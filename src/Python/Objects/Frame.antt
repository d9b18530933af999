-- ===== src/Python/Objects/Frame.antt =====
-- What runs on objects leave alone: everything below an address, if what stands from it on refers to
-- nothing below it.
use living_codebase.Prelude.{
  ◌≡◌, ◌≤◌, ◌<◌, ◌∙◌, ℕ, zero, suc, false, some, List, [], ◌∷◌, All, ◌==◌, Bool-cases, inl, inr,
  arith, refl,
}
use living_codebase.Python.Objects.{
  Kind, Address, Object, Memory, Run, ok, recursion_error, M, and_then, put_object, new,
  set_children, each, visit,
}

-- An address from `b` on that was given out.
abbrev pub Within : ℕ → Memory → Address → Type 0
Within b m a = (b ≤ a) × (a < m.next)

-- The objects from `b` on refer only to each other, and so does the dictionary.
pub record IsOwn (b : ℕ) (m : Memory) : Type 0 where
  pub base : b ≤ m.next
  pub closed :
      (x : ℕ) → b ≤ x → x < m.next → All (λ c. (b ≤ c) × (c < m.next)) (m.objects x).children
  pub copied : (x y : ℕ) → m.memo x ≡ some y → (b ≤ y) × (y < m.next)

abbrev pub Same : ℕ → Memory → Memory → Type 0
Same b m m' = (x : ℕ) → x < b → m'.objects x ≡ m.objects x

-- A run keeps the objects below `b`, also when it fails; and if it returns, the objects from `b` on
-- still refer only to each other, and `Q` holds of the value.
abbrev pub Keeps : {A : Type 0} → ℕ → Memory → (A → Memory → Type 0) → Run A → Type 0
Keeps b m Q (ok a m') = Same b m m' × (m.next ≤ m'.next) × IsOwn b m' × Q a m'
Keeps b m Q (recursion_error m') = Same b m m'

pub All-mono : {P Q : ℕ → Type 0} (as' : List ℕ) → ((a : ℕ) → P a → Q a) → All P as' → All Q as'
All-mono [] h as'P = tt
All-mono (a ∷ as') h (p, ps) = (h a p, All-mono as' h ps)

module _ (b : ℕ) where
  pub Keeps-and_then :
      {A B : Type 0} (m : Memory) (P : A → Memory → Type 0) (Q : B → Memory → Type 0) (r : Run A)
      (k : A → M B)
      → Keeps b m P r
      → ((a : A) (m' : Memory) → m.next ≤ m'.next → IsOwn b m' → P a m' → Keeps b m' Q (k a m'))
      → Keeps b m Q (and_then r k)
  Keeps-and_then {B = B} m P Q (ok a m') k (same, mono, own, p) next =
      weaken (k a m') (next a m' mono own p)
    where
      weaken : (r : Run B) → Keeps b m' Q r → Keeps b m Q r
      weaken (ok c m'') (same', mono', own', q) =
          (λ x h. same' x h ∙ same x h, omega arith, own', q)
      weaken (recursion_error m'') same' = λ x h. same' x h ∙ same x h
  Keeps-and_then {B = B} m P Q (recursion_error m') k same next = same

  put_object-IsOwn :
      (m : Memory) (a n : ℕ) (o : Object)
      → IsOwn b m
      → b ≤ a
      → a < n
      → m.next ≤ n
      → ((x : ℕ) → x < n → (a == x) ≡ false → x < m.next)
      → All (λ c. (b ≤ c) × (c < n)) o.children
      → IsOwn b (record m { objects = put_object a o m.objects; next = n })
  put_object-IsOwn m a n o own lo hi grow rest all = record {
    base = omega (arith, own.base);
    closed = λ x h k. elim (Bool-cases (a == x)) [
      | inl e ↦ rw e all
      | inr e ↦ rw e (
          All-mono (m.objects x).children (λ c (p, q). (p, omega (arith, q, grow)))
            (own.closed x h (rest x k e)))
    ];
    copied = λ x y e. let (p, q) = own.copied x y e in (p, omega (arith, q, grow));
  }

  put_object-same :
      (a : ℕ) (o : Object) (objects : Address → Object) (x : ℕ)
      → b ≤ a
      → x < b
      → put_object a o objects x ≡ objects x
  put_object-same a o objects x h k = ground arith

  -- A new object that refers to own ones.
  pub Keeps-new :
      (m : Memory) (k : Kind) (cs : List ℕ)
      → IsOwn b m
      → All (Within b m) cs
      → Keeps b m (λ a m'. Within b m' a) (new k cs m)
  unfolding new
  Keeps-new m k cs own all = (
    λ x h. put_object-same m.next _ m.objects x own.base h,
    omega arith,
    put_object-IsOwn m m.next (suc m.next) _ own own.base (omega arith) (omega arith)
        (λ x h e. ground arith) (All-mono cs (λ c (p, q). (p, omega (arith, q))) all),
    (own.base, omega arith),
  )

  -- An own object, changed, that refers to own ones.
  pub Keeps-put_object :
      {A : Type 0} (Q : A → Memory → Type 0) (v : A) (m : Memory) (a : ℕ) (o : Object)
      → IsOwn b m
      → Within b m a
      → All (Within b m) o.children
      → Q v (record m { objects = put_object a o m.objects })
      → Keeps b m Q (ok v (record m { objects = put_object a o m.objects }))
  Keeps-put_object Q v m a o own (lo, hi) all q = (
    λ x h. put_object-same a o m.objects x lo h,
    omega arith,
    put_object-IsOwn m a m.next o own lo hi (omega arith) (λ x h e. h) all,
    q,
  )

  pub Within-mono : (m m' : Memory) (a : ℕ) → m.next ≤ m'.next → Within b m a → Within b m' a
  Within-mono m m' a h (p, q) = (p, omega (arith, q, h))

  All-Within-mono :
      (m m' : Memory) (cs : List ℕ) → m.next ≤ m'.next → All (Within b m) cs → All (Within b m') cs
  All-Within-mono m m' cs h = All-mono cs (λ a. Within-mono m m' a h)

  module _ (Pre : ℕ → Memory → Type 0)
      (pre_mono : (m m' : Memory) (a : ℕ) → m.next ≤ m'.next → Pre a m → Pre a m')
      (f : Address → M Address)
      (f-Keeps : (a : ℕ) (m : Memory)
        → IsOwn b m
        → Pre a m
        → Keeps b m (λ c m'. Within b m' c) (f a m)) where
    pub Keeps-each :
        (as' : List ℕ) (m : Memory)
        → IsOwn b m
        → All (λ a. Pre a m) as'
        → Keeps b m (λ cs m'. All (Within b m') cs) (each f as' m)
    unfolding each
    Keeps-each [] m own all = (λ x h. refl, omega arith, own, tt)
    Keeps-each (a ∷ as') m own (p, ps) =
        Keeps-and_then m (λ c m'. Within b m' c) _ (f a m) _ (f-Keeps a m own p)
          λ c m' mono own' w.
            Keeps-and_then m' (λ cs m''. All (Within b m'') cs) _ (each f as' m') _
              (Keeps-each as' m' own' (All-mono as' (λ x. pre_mono m m' x mono) ps))
              λ cs m'' mono' own'' ws.
                (λ x h. refl, omega arith, own'', (Within-mono m' m'' c mono' w, ws))

  -- `visit` with a method that keeps what is below `b`.
  pub Keeps-visit :
      (rewrite : Address → M Address)
      → ((a : ℕ) (m : Memory)
          → IsOwn b m
          → Within b m a
          → Keeps b m (λ c m'. Within b m' c) (rewrite a m))
      → (stack a : ℕ) (m : Memory) → IsOwn b m
      → Within b m a
      → Keeps b m (λ c m'. Within b m' c) (visit rewrite stack a m)
  unfolding visit set_children
  Keeps-visit rewrite ok' zero a m own w = λ x h. refl
  Keeps-visit rewrite ok' (suc stack) a m own (lo, hi) =
      Keeps-and_then m (λ cs m'. All (Within b m') cs) _
        (each (visit rewrite stack) (m.objects a).children m) _
        (Keeps-each (λ a m. Within b m a) (λ m m' a. Within-mono m m' a) (visit rewrite stack)
          (Keeps-visit rewrite ok' stack) (m.objects a).children m own (own.closed a lo hi))
        λ cs m' mono own' ws.
          let here : Within b m' a = Within-mono m m' a mono (lo, hi) in
          Keeps-and_then m' (λ u m''. m''.next ≡ m'.next) _ (set_children a cs m') _
            (Keeps-put_object (λ u m''. m''.next ≡ m'.next) tt m' a _ own' here ws refl)
            λ u m'' mono' own'' e. ok' a m'' own'' (Within-mono m' m'' a mono' here)
