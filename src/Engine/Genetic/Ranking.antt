-- ===== src/Engine/Genetic/Ranking.antt =====
-- The sort of the scored candidates, and `random.choice`.
use living_codebase.Prelude.{
  ◌≡◌, ◌≤◌, ◌<◌, ℕ, zero, suc, refl, ap, ◌∙◌, ◌==◌, List, [], ◌∷◌, ◌++◌, All, length, take, ltb,
  if◌then◌else◌, arith, Bool-cases, inl, inr,
}
use living_codebase.Python.Value.{ok}
use living_codebase.Engine.Genetic.{Scored, Draws, item_at, choice, insert_scored, sort_scored}

-- From the best score to the worst.
abbrev pub IsRanked : List Scored → Type 0
IsRanked [] = Unit
IsRanked (p ∷ ps) = All (λ q. q.1 ≤ p.1) ps × IsRanked ps

module _ {κ} (P : Scored → Type κ) where
  All-insert_scored : (p : Scored) (ps : List Scored) → P p → All P ps → All P (insert_scored p ps)
  unfolding insert_scored
  All-insert_scored p [] h k = (h, tt)
  All-insert_scored p (q ∷ qs) h (k, ks) = elim (Bool-cases (ltb p.1 q.1)) [
    | inl e ↦ rw e (k, All-insert_scored p qs h ks)
    | inr e ↦ rw e (h, (k, ks))
  ]

  pub All-sort_scored : (ps : List Scored) → All P ps → All P (sort_scored ps)
  unfolding sort_scored
  All-sort_scored [] h = tt
  All-sort_scored (p ∷ ps) (h, hs) = All-insert_scored p _ h (All-sort_scored ps hs)

All-weaken : {m n : ℕ} (ps : List Scored) → m ≤ n → All (λ q. q.1 ≤ m) ps → All (λ q. q.1 ≤ n) ps
All-weaken [] h a = tt
All-weaken (p ∷ ps) h (a, as') = (omega arith, All-weaken ps h as')

insert_scored-IsRanked :
    (p : Scored) (ps : List Scored) → IsRanked ps → IsRanked (insert_scored p ps)
unfolding insert_scored
insert_scored-IsRanked p [] r = (tt, tt)
insert_scored-IsRanked p (q ∷ qs) (a, r) = elim (Bool-cases (ltb p.1 q.1)) [
  | inl e ↦
      rw e (All-insert_scored (λ x. x.1 ≤ q.1) p qs (ground arith) a, insert_scored-IsRanked p qs r)
  | inr e ↦ rw e ((ground arith, All-weaken qs (ground arith) a), (a, r))
]

pub sort_scored-IsRanked : (ps : List Scored) → IsRanked (sort_scored ps)
unfolding sort_scored
sort_scored-IsRanked [] = tt
sort_scored-IsRanked (p ∷ ps) = insert_scored-IsRanked p _ (sort_scored-IsRanked ps)

length-insert_scored :
    (p : Scored) (ps : List Scored) → length (insert_scored p ps) ≡ suc (length ps)
unfolding insert_scored
length-insert_scored p [] = refl
length-insert_scored p (q ∷ qs) = ground (arith, length-insert_scored p qs)

pub length-sort_scored : (ps : List Scored) → length (sort_scored ps) ≡ length ps
unfolding sort_scored
length-sort_scored [] = refl
length-sort_scored (p ∷ ps) =
    omega (arith, length-insert_scored p (sort_scored ps), length-sort_scored ps)

-- Candidates with the score `n`, in their order.
unfoldable pub with_score : ℕ → List Scored → List Scored
with_score n [] = []
with_score n (p ∷ ps) = let rest = with_score n ps in if p.1 == n then p ∷ rest else rest

with_score-insert_scored :
    (n : ℕ) (p : Scored) (ps : List Scored)
    → with_score n (insert_scored p ps) ≡ with_score n (p ∷ ps)
unfolding insert_scored with_score
with_score-insert_scored n p [] = refl
with_score-insert_scored n p (q ∷ qs) = ground (arith, with_score-insert_scored n p qs)

pub with_score-sort_scored :
    (n : ℕ) (ps : List Scored) → with_score n (sort_scored ps) ≡ with_score n ps
unfolding sort_scored with_score
with_score-sort_scored n [] = refl
with_score-sort_scored n (p ∷ ps) =
    with_score-insert_scored n p (sort_scored ps)
    ∙ ap (λ (r : List Scored). if p.1 == n then p ∷ r else r) (with_score-sort_scored n ps)

module _ {ℓ κ} {A : Type ℓ} (P : A → Type κ) where
  item_at_lem :
      (xs : List A) (n : ℕ) → All P xs → n < length xs → (x : A) × (item_at xs n ≡ ok x) × P x
  item_at_lem [] n a h = absurd (omega arith)
  item_at_lem (x ∷ xs) zero (a, as') h = (x, refl, a)
  item_at_lem (x ∷ xs) (suc n) (a, as') h = item_at_lem xs n as' (omega arith)

  -- `random.choice` gives an item, if there is one.
  pub choice_lem :
      (draws : Draws) (xs : List A) (calls : ℕ)
      → All P xs
      → 0 < length xs
      → (x : A) × (choice draws xs calls ≡ ok x) × P x
  unfolding choice
  choice_lem draws xs calls a h = item_at_lem xs _ a (omega arith)

  pub All-append : (xs ys : List A) → All P xs → All P ys → All P (xs ++ ys)
  All-append [] ys a b = b
  All-append (x ∷ xs) ys (a, as') b = (a, All-append xs ys as' b)

  pub All-take : (n : ℕ) (xs : List A) → All P xs → All P (take n xs)
  All-take zero xs a = tt
  All-take (suc n) [] a = tt
  All-take (suc n) (x ∷ xs) (a, as') = (a, All-take n xs as')
