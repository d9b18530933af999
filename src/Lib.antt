-- ===== src/Lib.antt =====
-- Living Codebase: a self-healing runtime, as a proof of concept. Probes report memory faults of a
-- process; a genetic algorithm looks for a patch by rewriting syntax trees; Z3 is asked about the
-- patch; an injector writes it into the process. This library models the Python parts of that
-- pipeline, the heap tracker and the healing loop of the Rust one, the daemon, both injectors and the
-- kernel probes. Paths are from the repository's root.
--
-- Python         The language that the scripts build and run. Python/Syntax has the trees of
--                Python's `ast`; Python/Visitor and Python/StateVisitor are `ast.NodeTransformer`,
--                for a rewriting without and with a state; Python/Value, Python/Eval and Python/Exec
--                give the meaning of expressions, statements, calls and `exec`; Python/Targets says
--                whether the assignment statements of a tree have targets, one condition for a
--                program among many. This follows Python's documentation, and is not
--                code of the repository. What lies outside the fragment (calls of user functions,
--                loops, slices, floats but quotients of integers, and names that are not bound in
--                the function, which Python looks up among the globals and the builtins) raises
--                `unsupported`, an error with no counterpart: no theorem takes it for a success.
--                That `len`, `max` and the like are the builtins is assumed where the function
--                does not bind them. A true division is an exact quotient; Python rounds it
--                to a float, and raises OverflowError where it is beyond the floats.
-- Mutator        healing/mutator.py, class ASTMutator. `insert_null_check`, `swap_operator`,
--                `insert_bounds_check`, `add_early_return` and `swap_comparison` are the methods
--                `_insert_null_check` to `_swap_comparison`, and the function before each in the
--                file is its node transformer. Mutator/Mutate has `_replace_literal` and `mutate`. A
--                deep copy of a tree is the tree itself here. Mutator/Guards has the proof that the
--                guards of two mutations share, for expressions; Mutator/Functions and Mutator/Kept
--                carry it to calls of whole functions. Mutator/Guarded and Mutator/Mutate/Targets
--                say which mutations leave the assignments their targets.
-- Population     healing/mutator.py once more, `mutate` and `generate_population`, with the nodes of
--                the trees as objects: Python/Objects is a memory of objects, with
--                `ast.NodeTransformer` in place and `copy.deepcopy` with its dictionary, after
--                Python's documentation. `stack` is the number of nested visits, and of nested
--                copies, before Python raises RecursionError, which is a result of the model; the
--                draws of `random` are a parameter. Python/Objects/Frame and Population/Frame have what
--                a run leaves alone, Population/Apart the candidates. Python/Trees relates objects
--                to trees: a tree stands in memory without sharing (`Laid`), or an object stands for
--                it, perhaps with sharing (`Holds`); Python/Trees/Copied is about the copies,
--                Python/Trees/Visited about visits in place. Population/Rewritten and Population/Roots
--                have the methods of the transformers, Population/Mutated and Population/Candidates
--                relate `mutate` and a round of `generate_population` to the functions of Mutator.
--                Population/Exchanged compares two of the mutations with a map over all the nodes of a
--                tree.
-- Heap           healing/test_uaf_sim.py and phase 1 of full_demo.py, and HeapTracker of
--                src/main.rs. Heap/History compares them with a specification over the history of
--                calls.
-- Engine         healing/patch_engine.py. Engine/Programs has its three programs as trees,
--                Engine/Programs/Process what they compute, and Engine/Programs/Guarded what the
--                mutator's bounds checks make of the buggy one. Engine/Verifier is
--                `verify_with_z3`: Z3 is a parameter, which answers `sat` only if there is a model
--                and `unsat` only if there is none (`IsSound`), and it may answer `unknown`; the
--                theorems ask for it not to do so on the one query. Engine/Fitness is `fitness`, with
--                whole numbers for its scores. Engine/Genetic is `run_ga`: `random.choice` is a
--                parameter, any sequence of draws. The programs of the mutations replace the tree,
--                so `ast.unparse` and parsing again are the identity on them. Of what `compile` refuses
--                only an assignment without targets is looked at, and a test that ends in
--                `unsupported` counts as failed; neither happens to the three programs, which are all
--                that `run_ga` scores. `list.sort` is a stable insertion sort. Engine/Script is the
--                main program, which runs `run_ga` and calls the patch on four inputs; an
--                exception ends it.
-- FullDemo       full_demo.py, the script: the calls of phase 1, the scores of phase 2, the query of
--                phase 3.
-- Z3Test         healing/test_z3.py, with a parameter for Z3.
-- Healing        src/main.rs: `generate_patch`, `verify_patch` and `healing_loop`, over any list of
--                events. `hot_swap` prints and pauses, and is the list of the patches it is called
--                with. The counter is a u32, and wraps around as in a release build; the theorem is
--                about fewer than 2^32 events. Healing/Healed uses the history of Heap/History.
-- Words, Ptrace  Machine words and their bytes, and ptrace(2) on one x86_64 process as an interface: a
--                target that is not described further, its calls, what can be seen of it, and what
--                the manual pages of ptrace and mmap promise (`IsPtrace`). A call that fails leaves
--                the target as it was. `place` is the kernel's choice of an address, or none.
-- Injector       daemon/src/injector.rs, `hot_swap_patch` on Linux, with sums of a `u64` as in a release
--                build. Injector/Writes is the loop that copies the patch, Injector/Mapping the system
--                call that is injected, Injector/Jump the encoding of the jump and where it leads,
--                Injector/Swapped and Injector/Frozen the success and the failures.
-- Hotswap        hotswap/patch_injector.c, `inject_patch` on x86_64 Linux, over the same interface.
--                Hotswap/Calls relates its loop and its jump to those of the daemon's injector;
--                Hotswap/Steps has the steps and the label `restore_and_fail`, Hotswap/Outcomes
--                the ends, and Hotswap/Arguments `main`, with the C library's parsers as
--                parameters.
-- Probes         ebpf/fault_detector.bpf.c and its header. Whether the kernel has room for another
--                entry or event is part of the context of each probe. Probes/Tracking compares
--                the probes with HeapTracker over the histories of Heap/History, and Probes/Events has
--                what holds after any sequence of probes.
-- Daemon         daemon/src/main.rs: the loop over the events of the channel. For each event it runs the
--                main program of Engine/Script and the injector of Injector on the process of the
--                event; the processes are a function of their PIDs. Daemon/Cycles puts the theorems of
--                those parts together.
-- Baseline       healing/baseline_generator.py, class BaselineGenerator and the main program. clang,
--                KLEE, the listing of a directory, `Path.stem` and `json.dump` are parameters.
-- Benchmark      benchmark/mttr_comparison.py, with exact numbers of ticks for its floats. Parameters are
--                `random.uniform`, which stays within its bounds, and `statistics.stdev`;
--                `sorted` is an insertion sort.
-- Tests          Runs at concrete inputs.
-- Prelude        Shared names, Boolean tests, lists and integers over the native numbers.
--
-- The loops of `run_ga` are structural: `for` over the number of generations, and `while` over the
-- number of candidates that are missing, which each round lowers by one, so no fuel is needed.
--
-- The loops of the injectors take the number of rounds left, the length of the patch divided by 8
-- and rounded up, which is what their conditions allow.
--
-- Not modelled: printing and pauses; an error when the baseline generator writes its file; phases 4
-- and 5 of full_demo.py, which print fixed figures; `simulate_healing_flow`, mock_host.rs and
-- ebpf_consumer.rs of the daemon, which print, pause and send at most one fixed event; the injectors on
-- other systems and on aarch64, and hotswap/test_target.c, a loop to be patched; the web pages.
pub mod Prelude
pub mod Python
pub mod Mutator
pub mod Words
pub mod Ptrace
pub mod Injector
pub mod Heap
pub mod Probes
pub mod Daemon
pub mod Engine
pub mod Healing
pub mod Baseline
pub mod Benchmark
pub mod Tests
pub mod Hotswap
pub mod FullDemo
pub mod Z3Test
pub mod Population
