-- ===== src/Tests/Populations.antt =====
-- A tree of objects, mutated in place: two mutations in a row, and a population.
use living_codebase.Prelude.{◌≡◌, refl, ℕ, zero, suc, List, [], ◌∷◌, Option, none, some, arith, inl}
use living_codebase.Prelude.Int.{pos}
use living_codebase.Python.Syntax.{
  load, add, sub, Node, bin_op, subscript, name, constant, Constant,
}
use living_codebase.Python.Objects.{
  Kind, Address, Object, Memory, Run, ok, recursion_error, ◌>>=◌, Expr, make, end, ◌⨾◌, build,
}
use living_codebase.Mutator.Mutate.{Draws, mutate, mutate_all}
use living_codebase.Population.{
  name_expr, mutate_objects, mutate_each, sample, new_candidate, generate_population,
}
use living_codebase.Population.Mutated.{Stands, Mutates, mutate_objects_lem}
use living_codebase.Population.Candidates.{new_candidate_lem}
use living_codebase.Population.Apart.{Populates, generate_population_apart}

abbrev no_memory : Memory
no_memory = record {
  objects = λ x. record { kind = Kind.module_node; children = [] };
  next = 0;
  memo = λ x. none;
  calls = 0;
}

-- `(x + y).size`
abbrev size_expr : Expr
size_expr =
    make (Kind.attribute "size" load)
      (make (Kind.bin_op add) (name_expr "x" ⨾ name_expr "y" ⨾ end) ⨾ end)

abbrev child : ℕ → List Address → Address
child n [] = 0
child zero (a ∷ as') = a
child (suc n) (a ∷ as') = child n as'

-- The kind of the object at the end of a path of child numbers.
abbrev kind_at : List ℕ → Address → Memory → Kind
kind_at [] a m = (m.objects a).kind
kind_at (n ∷ ns) a m = kind_at ns (child n (m.objects a).children) m

abbrev kind_in : List ℕ → Run Address → Option Kind
kind_in path (ok a m) = some (kind_at path a m)
kind_in path (recursion_error m) = none

abbrev zeros : Draws
zeros k = 0

-- One mutation swaps the operator.
swapped_once :
    kind_in (0 ∷ []) ((build size_expr >>= mutate_objects zeros 9 "swap_operator") no_memory)
    ≡ some (Kind.bin_op sub)
unfolding build mutate_objects
swapped_once = refl

-- After the null check the sum has two parents, and the swap reaches it twice: it is still a sum.
swapped_twice :
    kind_in (1 ∷ 0 ∷ []) (
      (build size_expr >>= mutate_each zeros 9 ("insert_null_check" ∷ "swap_operator" ∷ []))
        no_memory)
    ≡ some (Kind.bin_op add)
unfolding build mutate_each
swapped_twice = refl

abbrev sum_memory : Memory
sum_memory = record no_memory { objects = sum_object; next = 2 }
  where
    sum_object : Address → Object
    sum_object zero = record { kind = Kind.bin_op add; children = 1 ∷ 1 ∷ [] }
    sum_object (suc n) = record { kind = Kind.name "x" load; children = [] }

generate_population_apart_example :
    Populates sum_memory 2 (generate_population zeros 9 2 0 sum_memory)
generate_population_apart_example = generate_population_apart zeros 9 2 0 sum_memory

-- `data[0]`, as three objects
abbrev item_node : Node
item_node = subscript (name "data" load) (constant (Constant.int (pos 0))) load

abbrev item_memory : Memory
item_memory = record no_memory { objects = item_object; next = 3 }
  where
    item_object : Address → Object
    item_object zero = record { kind = Kind.subscript load; children = 1 ∷ 2 ∷ [] }
    item_object (suc zero) = record { kind = Kind.name "data" load; children = [] }
    item_object (suc (suc n)) = record {
      kind = Kind.constant (Constant.int (pos 0));
      children = [];
    }

item-Stands : Stands 2 0 item_memory item_node
item-Stands = record {
  holds = (omega arith, refl, ((omega arith, refl, tt), ((omega arith, refl, tt), tt)));
  distinct = (refl, (refl, (refl, tt)));
  fits = (tt, (tt, tt));
}

mutate_objects_lem_example :
    Mutates item_memory
      (mutate zeros item_node "insert_null_check" 0)
      (mutate_objects zeros 2 "insert_null_check" 0 item_memory)
mutate_objects_lem_example =
    mutate_objects_lem zeros 2 0 item_memory item_node item-Stands "insert_null_check"

-- `data[0] + 7`, as five objects
abbrev sum_node : Node
sum_node = bin_op item_node add (constant (Constant.int (pos 7)))

abbrev five_objects : Memory
five_objects = record no_memory { objects = sum_of_item; next = 5 }
  where
    sum_of_item : Address → Object
    sum_of_item zero = record { kind = Kind.bin_op add; children = 1 ∷ 4 ∷ [] }
    sum_of_item (suc zero) = record { kind = Kind.subscript load; children = 2 ∷ 3 ∷ [] }
    sum_of_item (suc (suc zero)) = record { kind = Kind.name "data" load; children = [] }
    sum_of_item (suc (suc (suc zero))) = record {
      kind = Kind.constant (Constant.int (pos 0));
      children = [];
    }
    sum_of_item (suc (suc (suc (suc n)))) = record {
      kind = Kind.constant (Constant.int (pos 7));
      children = [];
    }

sum-Stands : Stands 3 0 five_objects sum_node
sum-Stands = record {
  holds = (
    omega arith,
    refl,
    (
      (omega arith, refl, ((omega arith, refl, tt), ((omega arith, refl, tt), tt))),
      ((omega arith, refl, tt), tt),
    ),
  );
  distinct = (refl, (refl, (refl, (refl, (refl, tt)))));
  fits = ((tt, (tt, tt)), (tt, tt));
}

-- Two operations, the first at index 0 of six and the second at index 0 of five.
abbrev pair_first : Draws
pair_first zero = 1
pair_first (suc n) = 0

new_candidate_lem_example :
    Mutates five_objects
      (mutate_all pair_first ("swap_operator" ∷ "insert_null_check" ∷ []) sum_node 3)
      (new_candidate pair_first 3 0 five_objects)
unfolding sample
new_candidate_lem_example =
    new_candidate_lem pair_first 3 ("swap_operator" ∷ []) "insert_null_check" 0 3 five_objects
      sum_node sum-Stands (inl refl, tt) refl
