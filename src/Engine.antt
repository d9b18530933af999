-- ===== src/Engine.antt =====
-- healing/patch_engine.py (the repository's root holds a copy): the buggy program, the mutations,
-- the call of Z3, the fitness function and the genetic algorithm.
pub mod Programs
pub mod Verifier
pub mod Fitness
pub mod Genetic
pub mod Script
