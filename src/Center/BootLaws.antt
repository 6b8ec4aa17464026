-- ===== src/Center/BootLaws.antt =====
-- What a center that starts again has of the one before.
use Prim.Native.Char.{Char}
use text.Mathlib.Text.{◌==◌ as str_eq}
use text.Mathlib.TextEquality.{eq_iff}
use swarm_compute.Base.{
  ◌≡◌, refl, ◌∙◌, subst, String, List, [], ◌∷◌, map, none, some, Option-cases, Bool, true, false,
  Bool-cases, inl, inr, ok, arith,
}
use swarm_compute.Base.Float64.{Float64}
use swarm_compute.Base.Map.{lookup, insert, lookup-insert}
use swarm_compute.Scheduler.Types.{TaskType}
use swarm_compute.Store.Disk.{Codec, Files, SaveEnd, StoreSnapshot, snapshot_of, new_store}
use swarm_compute.Store.DiskLaws.{IsReadBack, forget_cancels, without_cancel, new_store-save}
use swarm_compute.Center.Http.{Server}
use swarm_compute.Center.Init.{builtins, add_types, init_builtin_task_types, init_workers}
use swarm_compute.Center.Boot.{boot, shut_down}

-- A type that is known stays as it is.
lookup-add_types :
    (ts : List TaskType) (m : List (String × TaskType)) (key : String) (t : TaskType)
    → lookup key m ≡ some t
    → lookup key (add_types ts m) ≡ some t
unfolding add_types
lookup-add_types [] m key t h = h
lookup-add_types (new ∷ ts) m key t h = elim (Option-cases (lookup new.type_id m)) [
  | inr (old, e) ↦ rw (e, add_types) (lookup-add_types ts m key t h)
  | inl e ↦
      let apart : str_eq new.type_id key ≡ false = elim (Bool-cases (str_eq new.type_id key)) [
        | inr other ↦ other
        | inl same ↦
            let at : new.type_id ≡ key = ground (eq_iff new.type_id key, arith) in
            let missing : lookup key m ≡ none = subst (λ k. lookup k m ≡ none) at e in cc
      ] in
      rw (e, add_types)
        (lookup-add_types ts (insert new.type_id new m) key t
          (lookup-insert new.type_id key new m ∙ rw apart h))
]

module _ {N : Type 0} ⦃fl : Float64 N⦄ (codec : Codec N) (path : String) (is_space : Char → Bool)
    (addrs : String) where
  -- A center that starts after a shutdown whose save has succeeded has the jobs of the one before,
  -- without their cancel functions, and all its task types as they were, and its workers are those
  -- of the environment, whatever they were before. The snapshot can be encoded, and is decoded to
  -- itself but for empty maps, which may have become nil, and for the cancel functions; a start
  -- can read the file if it is there.
  pub boot-shut_down :
      (env : SaveEnd) (s : Server N) (files : Files) (text : String) (snap : StoreSnapshot N)
      → codec.marshal (snapshot_of s.store) ≡ ok text
      → codec.unmarshal text ≡ ok snap
      → IsReadBack s.store snap
      → (shut_down codec path env s files).0 ≡ true
      → let s' = boot codec path is_space addrs none (shut_down codec path env s files).1 in
        (s'.store.jobs ≡ map without_cancel s.store.jobs)
        × ((type_id : String) (t : TaskType)
            → lookup type_id s.store.task_types ≡ some t
            → lookup type_id s'.store.task_types ≡ some t)
        × (s'.store.workers ≡ (init_workers is_space addrs s.store).workers)
  unfolding boot init_workers init_builtin_task_types
  boot-shut_down env s files text snap encoded read back saved =
      let loaded : new_store codec none path (shut_down codec path env s files).1
          ≡ forget_cancels s.store =
        new_store-save codec path env s.store files text snap encoded read back ∙ rw saved refl in
      (
        rw (boot, loaded) refl,
        λ type_id t known.
            rw (boot, loaded) (lookup-add_types builtins s.store.task_types type_id t known),
        refl,
      )
