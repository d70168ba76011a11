-- ===== src/Tests.antt =====
-- Concrete runs: each theorem that has a hypothesis or an argument, at an input that exercises the
-- code.
mod Flash
mod Translation
mod Simulation
mod Prefetching
mod Engine
mod Inferring
mod Adapting
mod Providing
