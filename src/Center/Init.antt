-- ===== src/Center/Init.antt =====
-- initBuiltinTaskTypes and initWorkers of center/server/main.go.
use Prim.Native.Char.{Char, code}
use Prim.Native.String.{◌++◌}
use text.Mathlib.Text.{◌==◌ as str_eq}
use swarm_compute.Base.{String, List, [], ◌∷◌, none, some, Bool, ◌&&◌, ◌==◌, if◌then◌else◌}
use swarm_compute.Base.Map.{lookup, insert}
use swarm_compute.Scheduler.Types.{Worker, TaskType, Store}

abbrev pub builtins : List TaskType
builtins =
    record {
      type_id = "word-count";
      name = "Word Count";
      description = "Count word frequencies in text (MapReduce style)";
    }
    ∷ record {
      type_id = "sort";
      name = "Distributed Sort";
      description = "Sort a numeric array using distributed merge-sort";
    }
    ∷ record {
      type_id = "matrix-mul";
      name = "Matrix Multiply";
      description = "Multiply two matrices with row-block partitioning";
    }
    ∷ record {
      type_id = "pi-estimate";
      name = "Monte Carlo Pi";
      description = "Estimate Pi using Monte Carlo random sampling";
    }
    ∷ record {
      type_id = "grep";
      name = "Distributed Grep";
      description = "Search text for regex pattern across workers";
    }
    ∷ record {
      type_id = "prime-count";
      name = "Prime Count";
      description = "Count prime numbers in a given range";
    }
    ∷ record {
      type_id = "hash-crack";
      name = "Hash Crack";
      description = "Brute-force search for MD5 hash collision";
    }
    ∷ []

-- the loop over the built-in types; a type that is there stays
unfoldable pub add_types : List TaskType → List (String × TaskType) → List (String × TaskType)
unfolding lookup insert
add_types [] m = m
add_types (t ∷ ts) m = elim (lookup t.type_id m) [
  | none ↦ add_types ts (insert t.type_id t m)
  | some _ ↦ add_types ts m
]

unfoldable pub init_builtin_task_types : {N : Type 0} → Store N → Store N
unfolding add_types
init_builtin_task_types s = record s { task_types = add_types builtins s.task_types }

-- `strings.Split(s, sep)` at a separator of one character
unfoldable pub split_on : Char → String → List String
split_on sep String.[] = "" ∷ []
split_on sep (String.◌∷◌ c s) =
    let parts = split_on sep s in
    if code c == code sep
    then "" ∷ parts
    else elim parts [ [] ↦ String.◌∷◌ c "" ∷ [] | p ∷ ps ↦ String.◌∷◌ c p ∷ ps ]

-- `strings.Split(s, ":")[0]`: there is always a first part
abbrev pub first_part : List String → String
first_part [] = ""
first_part (p ∷ ps) = p

abbrev pub default_addrs : String
default_addrs = "worker-1:9000,worker-2:9000,worker-3:9000,worker-4:9000,worker-5:9000"

-- `is_space` is unicode.IsSpace.
module _ (is_space : Char → Bool) where
  unfoldable pub trim_left : String → String
  trim_left String.[] = ""
  trim_left (String.◌∷◌ c s) = let rest = trim_left s in if is_space c then rest else String.◌∷◌ c s

  unfoldable pub trim_right : String → String
  trim_right String.[] = ""
  trim_right (String.◌∷◌ c s) =
      let rest = trim_right s in if str_eq rest "" && is_space c then "" else String.◌∷◌ c rest

  -- `strings.TrimSpace(s)`
  unfoldable pub trim_space : String → String
  unfolding trim_left trim_right
  trim_space s = trim_right (trim_left s)

  -- the loop over the addresses
  unfoldable pub workers_at : List String → List Worker
  unfolding trim_space split_on
  workers_at [] = []
  workers_at (part ∷ parts) =
      let addr = trim_space part in
      let rest = workers_at parts in
      if str_eq addr ""
      then rest
      else record { id = first_part (split_on ":" addr); addr = "http://" ++ addr } ∷ rest

  -- `addrs` is the environment's WORKER_ADDRS.
  unfoldable pub init_workers : {N : Type 0} → String → Store N → Store N
  unfolding workers_at
  init_workers addrs s =
      let addrs = if str_eq addrs "" then default_addrs else addrs in
      record s { workers = workers_at (split_on "," addrs) }
