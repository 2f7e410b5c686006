-- ===== src/Programs/HashMap/Keys.antt =====
-- examples/benchmarks/hash_map.c on the map that the loader filled: which keys it finds.

use servant.Prelude.{ℕ, List, ℕ_discrete}

pub bytes_discrete : Discrete (List ℕ)
bytes_discrete = hlevel ℕ_discrete
