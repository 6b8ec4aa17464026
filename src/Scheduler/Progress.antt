-- ===== src/Scheduler/Progress.antt =====
-- The run of a job reaches its end by its own steps.
use swarm_compute.Base.{ℕ, ◌+◌, ◌≡◌}
use swarm_compute.Scheduler.Lifecycle.{
  Phase, queued, pinging, cutting, waiting, checking, collecting, merging, returned, Run, ◌⟶◌,
  times_out, cancels, ◌⟶*◌, here, next,
}

-- A step of ExecuteJob: no cancel and no timeout.
abbrev pub IsOwn : {r s : Run} → r ⟶ s → Type 0
IsOwn (times_out c) = ⊥
IsOwn (cancels c) = ⊥
IsOwn _ = Unit

-- A path of such steps only.
abbrev pub IsOwnPath : {r s : Run} → r ⟶* s → Type 0
IsOwnPath here = Unit
IsOwnPath (next path step) = IsOwnPath path × IsOwn step

abbrev pub steps : {r s : Run} → r ⟶* s → ℕ
steps here = 0
steps (next path step) = steps path + 1

-- how many steps are left at most
abbrev left_of : Phase → ℕ
left_of queued = 7
left_of pinging = 6
left_of cutting = 5
left_of waiting = 4
left_of checking = 3
left_of collecting = 2
left_of merging = 1
left_of returned = 0

abbrev CanReturn : Run → Type 0
CanReturn r = (t : Run) × (path : r ⟶* t) × IsOwnPath path × (t.phase ≡ returned)

prepend : {r s t : Run} → r ⟶ s → s ⟶* t → r ⟶* t
prepend step here = next here step
prepend step (next path last) = next (prepend step path) last
