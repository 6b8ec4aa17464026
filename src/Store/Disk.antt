-- ===== src/Store/Disk.antt =====
-- The file of the store (center/server/store.go): saveLocked, SaveToDisk, LoadFromDisk and NewStore.
-- The file system is a map from paths to contents.
use Prim.Native.String.{◌++◌}
use text.Mathlib.Text.{◌==◌ as str_eq}
use swarm_compute.Base.{
  String, List, [], ◌∷◌, Option, none, some, Bool, true, false, Error, Result, ok, err, panic,
  if◌then◌else◌,
}
use swarm_compute.Base.Map.{lookup, insert}
use swarm_compute.Scheduler.Types.{Worker, TaskType, Job, Store}

abbrev pub Files : Type 0
Files = List (String × String)

-- storeSnapshot; `none` is a nil map
pub record StoreSnapshot (N : Type 0) : Type 0 where
  pub workers : List Worker
  pub task_types : Option (List (String × TaskType))
  pub jobs : Option (List (String × Job N))

-- json.MarshalIndent and json.Unmarshal on snapshots
pub record Codec (N : Type 0) : Type 0 where
  pub marshal : StoreSnapshot N → Result String
  pub unmarshal : String → Result (StoreSnapshot N)

-- How os.WriteFile ends: the file is written, or there is an error or an end of the process behind
-- which the file holds something, or is as before.
pub data WriteEnd : Type 0 where
  written untouched : WriteEnd
  left : String → WriteEnd

-- What becomes of the two calls; `renamed` tells whether os.Rename is done.
pub record SaveEnd : Type 0 where
  pub write : WriteEnd
  pub renamed : Bool

-- `delete(m, key)`
unfoldable pub remove : String → Files → Files
remove path [] = []
remove path ((p, text) ∷ rest) =
    let others = remove path rest in if str_eq p path then others else (p, text) ∷ others

-- os.Rename replaces the file at the new path.
unfoldable pub rename : String → String → Files → Files
unfolding insert lookup remove
rename from to files = elim (lookup from files) [
  | none ↦ files
  | some text ↦ insert to text (remove from files)
]

abbrev pub tmp_path : String → String
tmp_path path = path ++ ".tmp"

-- from os.WriteFile on, with the bytes; `true` stands for a nil error
unfoldable pub write_out : WriteEnd → Bool → String → String → Files → Bool × Files
unfolding rename insert
write_out untouched renamed path text files = (false, files)
write_out (left part) renamed path text files = (false, insert (tmp_path path) part files)
write_out written false path text files = (false, insert (tmp_path path) text files)
write_out written true path text files =
    (true, rename (tmp_path path) path (insert (tmp_path path) text files))

-- `if snap.Jobs == nil { snap.Jobs = map[string]*Job{} }`
abbrev pub or_empty {ℓ} : {A : Type ℓ} → Option (List A) → List A
or_empty none = []
or_empty (some m) = m

module _ {N : Type 0} where
  abbrev pub snapshot_of : Store N → StoreSnapshot N
  snapshot_of s = record { workers = s.workers; task_types = some s.task_types; jobs = some s.jobs }

  -- saveLocked and SaveToDisk, which differ in the lock; MkdirAll adds no file
  unfoldable pub save : Codec N → SaveEnd → String → Store N → Files → Bool × Files
  unfolding write_out
  save codec env path s files = elim (codec.marshal (snapshot_of s)) [
    | ok text ↦ write_out env.write env.renamed path text files
    | _ ↦ (false, files)
  ]

  -- LoadFromDisk; `read_error` is an error of os.ReadFile on a file that exists
  unfoldable pub load : Codec N → Option Error → String → Files → Store N → Result (Store N)
  unfolding lookup
  load codec read_error path files s = elim (lookup path files) [
    | none ↦ ok s
    | some text ↦ elim read_error [
      | some e ↦ err e
      | none ↦ elim (codec.unmarshal text) [
        | ok snap ↦ ok (record {
          workers = snap.workers;
          task_types = or_empty snap.task_types;
          jobs = or_empty snap.jobs;
        })
        | err e ↦ err e
        | panic ↦ panic
      ]
    ]
  ]

  abbrev pub empty_store : Store N
  empty_store = record { workers = []; task_types = []; jobs = [] }

  -- NewStore: an error of the load is logged
  unfoldable pub new_store : Codec N → Option Error → String → Files → Store N
  unfolding load
  new_store codec read_error path files = elim (load codec read_error path files empty_store) [
    | ok s ↦ s
    | _ ↦ empty_store
  ]
