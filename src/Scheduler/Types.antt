-- ===== src/Scheduler/Types.antt =====
-- The types of center/server/types.go, types_job.go and store.go. A `*Job` is a record, and an
-- operation that changes it returns the new one. Times are in milliseconds.
use swarm_compute.Base.{ℕ, String, List, Option, Bool, Error}
use swarm_compute.Base.Int.{ℤ}
use swarm_compute.Base.Value.{Value, Fields}

pub record Worker : Type 0 where
  pub id : String
  pub addr : String

pub record TaskType : Type 0 where
  pub type_id : String
  pub name : String
  pub description : String

-- The values that the code gives to Job.Status.
pub data JobStatus : Type 0 where
  pending splitting running aggregating done failed cancelled : JobStatus

-- The values that the code gives to Task.Status.
pub data TaskStatus : Type 0 where
  pending running done failed : TaskStatus

-- Error is empty and Output nil where they are `none`.
pub record Task (N : Type 0) : Type 0 where
  pub task_id : String
  pub job_id : String
  pub type_id : String
  pub status : TaskStatus
  pub input : Fields N
  pub output : Option (Value N)
  pub worker_id : String
  pub worker_addr : String
  pub retry_count : ℕ
  pub error : Option Error
  pub started_at : ℕ
  pub finished_at : ℕ
  pub duration_ms : ℕ

-- `cancel` tells whether the field holds a function; the call of it ends the job's context.
pub record Job (N : Type 0) : Type 0 where
  pub job_id : String
  pub type_id : String
  pub status : JobStatus
  pub input : Fields N
  pub result : Option (Value N)
  pub tasks : List (Task N)
  pub error : Option Error
  pub created_at : ℕ
  pub finished_at : ℕ
  pub max_retry : ℕ
  pub timeout_sec : ℕ
  pub cancel : Bool

-- A field that the request leaves out is 0.
pub record JobSubmitRequest (N : Type 0) : Type 0 where
  pub type_id : String
  pub input : Fields N
  pub max_retry : ℤ
  pub timeout_sec : ℤ

-- The maps are lists of entries; a key's first entry counts.
pub record Store (N : Type 0) : Type 0 where
  pub workers : List Worker
  pub task_types : List (String × TaskType)
  pub jobs : List (String × Job N)

-- workerInfo of scheduler.go
pub record WorkerInfo : Type 0 where
  pub instance_id : String
  pub addr : String
