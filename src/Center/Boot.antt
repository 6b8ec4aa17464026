-- ===== src/Center/Boot.antt =====
-- The start and the end of main in center/server/main.go, but for the connections.
use Prim.Native.Char.{Char}
use swarm_compute.Base.{String, Option, Bool, Error}
use swarm_compute.Base.Float64.{Float64}
use swarm_compute.Center.Http.{Server}
use swarm_compute.Center.Init.{init_builtin_task_types, init_workers}
use swarm_compute.Center.Routes.{new_server}
use swarm_compute.Store.Disk.{Codec, Files, SaveEnd, save, new_store}

module _ {N : Type 0} ⦃fl : Float64 N⦄ (codec : Codec N) (path : String) where
  -- `addrs` is WORKER_ADDRS.
  unfoldable pub boot : (Char → Bool) → String → Option Error → Files → Server N
  boot is_space addrs read_error files = new_server (
      init_workers is_space addrs (init_builtin_task_types (new_store codec read_error path files)))

  -- behind the end of the context and of the runner
  abbrev pub shut_down : SaveEnd → Server N → Files → Bool × Files
  shut_down env s files = save codec env path s.store files
