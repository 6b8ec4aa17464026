-- ===== src/Pipeline.antt =====
-- A run of a job in which no call fails: split, execute every part, aggregate.
pub mod Sort
pub mod Prime
pub mod Grep
pub mod Pi
pub mod Matrix
pub mod Cluster
pub mod System
use swarm_compute.Base.{ℕ, List, Result, map_m, ◌>>=◌}
use swarm_compute.Base.Value.{Value, Fields}

module _ {N : Type 0} where
  abbrev pub map_reduce :
      (Fields N → ℕ → Result (List (Fields N)))
      → (Fields N → Result (Value N))
      → (List (Value N) → Result (Value N))
      → Fields N
      → ℕ
      → Result (Value N)
  map_reduce split execute aggregate input n =
      split input n >>= λ parts. map_m execute parts >>= λ outputs. aggregate outputs
