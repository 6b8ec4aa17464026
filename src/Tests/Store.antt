-- ===== src/Tests/Store.antt =====
-- The statistics and the file of a small store.
use text.Mathlib.Text.{◌==◌ as str_eq}
use swarm_compute.Base.{
  ◌≡◌, refl, String, [], ◌∷◌, map, none, some, true, false, sum, All, ok, if◌then◌else◌,
}
use swarm_compute.Base.Int.{ℤ}
use swarm_compute.Base.Map.{lookup}
use swarm_compute.Base.Value.{end}
use swarm_compute.Scheduler.Types.{Job, Task, Store, JobStatus, TaskStatus}
use swarm_compute.Store.Stats.{compute_stats}
use swarm_compute.Store.StatsLaws.{
  count_or_zero, jobs_with, all_counted, IsTallied, compute_stats_lem,
}
use swarm_compute.Store.Disk.{
  StoreSnapshot, Codec, WriteEnd, SaveEnd, tmp_path, snapshot_of, save, new_store,
}
use swarm_compute.Store.DiskLaws.{forget_cancels, save_lem, new_store-save}
use swarm_compute.Tests.Floats.{whole}

abbrev finished_task : Task ℤ
finished_task = record {
  task_id = "task_1";
  job_id = "job_1";
  type_id = "sort";
  status = TaskStatus.done;
  input = end;
  output = none;
  worker_id = "worker-1";
  worker_addr = "http://worker-1:9000";
  retry_count = 0;
  error = none;
  started_at = 6;
  finished_at = 9;
  duration_ms = 3;
}

abbrev finished_job : Job ℤ
finished_job = record {
  job_id = "job_1";
  type_id = "sort";
  status = JobStatus.done;
  input = end;
  result = none;
  tasks = finished_task ∷ [];
  error = none;
  created_at = 5;
  finished_at = 9;
  max_retry = 2;
  timeout_sec = 60;
  cancel = true;
}

abbrev pub small_store : Store ℤ
small_store = record {
  workers = record { id = "worker-1"; addr = "http://worker-1:9000" } ∷ [];
  task_types = [];
  jobs = ("job_1", finished_job) ∷ [];
}

compute_stats_example :
    let stats = compute_stats small_store in
    ((name : String)
      → count_or_zero (lookup name stats.jobs_by_status) ≡ jobs_with name small_store.jobs)
    × (sum (map (λ entry. entry.1) stats.jobs_by_status) ≡ stats.total_jobs)
    × All (IsTallied small_store.jobs) stats.workers
    × (sum (map (λ w. w.tasks_done) stats.workers) ≡ all_counted small_store.jobs)
compute_stats_example = compute_stats_lem small_store

-- What encoding/json makes of this store: no cancel function, and no empty map.
abbrev pub read_back : StoreSnapshot ℤ
read_back = record {
  workers = small_store.workers;
  task_types = none;
  jobs = some (("job_1", record finished_job { cancel = false }) ∷ []);
}

abbrev pub one_store : Codec ℤ
one_store = record { marshal = λ snap. ok "{...}"; unmarshal = λ text. ok read_back }

abbrev interrupted : SaveEnd
interrupted = record { write = WriteEnd.left "{."; renamed = false }

save_example :
    let (done, files') =
      save one_store interrupted "/data/store.json" small_store
        (("/data/store.json", "old") ∷ []) in
    (done ≡ false
      → lookup "/data/store.json" files'
        ≡ lookup "/data/store.json" (("/data/store.json", "old") ∷ []))
    × (done ≡ true
        → (text : String) × (one_store.marshal (snapshot_of small_store) ≡ ok text)
          × (lookup "/data/store.json" files' ≡ some text))
    × ((other : String)
        → str_eq "/data/store.json" other ≡ false
        → str_eq (tmp_path "/data/store.json") other ≡ false
        → lookup other files' ≡ lookup other (("/data/store.json", "old") ∷ []))
save_example =
    save_lem one_store "/data/store.json" interrupted small_store (("/data/store.json", "old") ∷ [])

abbrev pub undisturbed : SaveEnd
undisturbed = record { write = WriteEnd.written; renamed = true }

new_store-save_example :
    let (done, files') = save one_store undisturbed "/data/store.json" small_store [] in
    new_store one_store none "/data/store.json" files'
    ≡ (if done then forget_cancels small_store else new_store one_store none "/data/store.json" [])
new_store-save_example =
    new_store-save one_store "/data/store.json" undisturbed small_store [] "{...}" read_back refl
      refl (refl, refl, refl)
