-- ===== src/Store/DiskLaws.antt =====
-- What a save leaves on disk, however it ends, and what the next start reads.
use text.Mathlib.Text.{◌==◌ as str_eq}
use text.Mathlib.TextEquality.{eq_iff}
use text.Mathlib.TextPositions.{eq_refl}
use text.Mathlib.TextLemmas.{length-append}
use swarm_compute.Base.{
  ◌≡◌, refl, ap, ◌∙◌, String, [], ◌∷◌, none, some, Bool, true, false, Bool-cases, inl, inr, ok, err,
  panic, Result, if◌then◌else◌, map, arith,
}
use swarm_compute.Base.Text.{str_eq-longer}
use swarm_compute.Base.Map.{lookup, insert, lookup-insert}
use swarm_compute.Scheduler.Types.{Job, Store}
use swarm_compute.Store.Disk.{
  Files, StoreSnapshot, Codec, WriteEnd, written, untouched, left, SaveEnd, remove, rename,
  tmp_path, snapshot_of, write_out, save, or_empty, load, new_store,
}

tmp_path-other : (path : String) → str_eq (tmp_path path) path ≡ false
tmp_path-other path = str_eq-longer (tmp_path path) path (omega (arith, length-append path ".tmp"))

lookup-remove :
    (key other : String) (files : Files)
    → str_eq key other ≡ false
    → lookup other (remove key files) ≡ lookup other files
unfolding remove lookup
lookup-remove key other [] h = refl
lookup-remove key other (entry ∷ rest) h = ground (
  lookup-remove key other rest h,
  eq_iff entry.0 other,
  eq_iff entry.0 key,
  eq_iff key other,
  arith,
)

module _ (from to text : String) (files : Files) where
  lookup-rename :
      (other : String)
      → lookup from files ≡ some text
      → str_eq from to ≡ false
      → (lookup to (rename from to files) ≡ some text)
        × (str_eq from other ≡ false
            → str_eq to other ≡ false
            → lookup other (rename from to files) ≡ lookup other files)
  unfolding rename
  lookup-rename other found apart =
      rw (found, rename)
        (
          lookup-insert to to text (remove from files) ∙ rw (eq_refl to) refl,
          λ not_from not_to.
              lookup-insert to other text (remove from files)
              ∙ rw not_to (lookup-remove from other files not_from),
        )

-- The file at the path has the new text, or on an error what it had, and no file at another path than
-- it and the temporary one changes.
abbrev pub IsReplaced : String → String → Files → Bool × Files → Type 0
IsReplaced path text files (done, files') =
    (done ≡ false → lookup path files' ≡ lookup path files)
    × (done ≡ true → lookup path files' ≡ some text)
    × ((other : String)
        → str_eq path other ≡ false
        → str_eq (tmp_path path) other ≡ false
        → lookup other files' ≡ lookup other files)

module _ (path text : String) (files : Files) where
  kept_at :
      (c other : String)
      → str_eq (tmp_path path) other ≡ false
      → lookup other (insert (tmp_path path) c files) ≡ lookup other files
  kept_at c other h = lookup-insert (tmp_path path) other c files ∙ rw h refl

  failed-IsReplaced :
      (c : String) → IsReplaced path text files (false, insert (tmp_path path) c files)
  failed-IsReplaced c =
      (λ h. kept_at c path (tmp_path-other path), λ h. cc, λ other h k. kept_at c other k)

  renamed-IsReplaced :
      IsReplaced path text files
        (true, rename (tmp_path path) path (insert (tmp_path path) text files))
  renamed-IsReplaced =
      let files' = insert (tmp_path path) text files in
      let found : lookup (tmp_path path) files' ≡ some text =
        lookup-insert (tmp_path path) (tmp_path path) text files
        ∙ rw (eq_refl (tmp_path path)) refl in
      (
        λ h. cc,
        λ h. (lookup-rename (tmp_path path) path text files' path found (tmp_path-other path)).0,
        λ other h k.
            (lookup-rename (tmp_path path) path text files' other found (tmp_path-other path)).1 k h
            ∙ kept_at text other k,
      )

  write_out-IsReplaced :
      (w : WriteEnd) (renamed : Bool)
      → IsReplaced path text files (write_out w renamed path text files)
  unfolding write_out
  write_out-IsReplaced untouched renamed = (λ h. refl, λ h. cc, λ other h k. refl)
  write_out-IsReplaced (left part) renamed = failed-IsReplaced part
  write_out-IsReplaced written true = renamed-IsReplaced
  write_out-IsReplaced written false = failed-IsReplaced text

module _ {N : Type 0} (codec : Codec N) (path : String) where
  -- However a save ends or is interrupted, the file of the store holds what it held, or on success
  -- all of the encoded snapshot, and no file but it and the temporary one changes.
  pub save_lem :
      (env : SaveEnd) (s : Store N) (files : Files)
      → let (done, files') = save codec env path s files in
        (done ≡ false → lookup path files' ≡ lookup path files)
        × (done ≡ true
            → (text : String) × (codec.marshal (snapshot_of s) ≡ ok text)
              × (lookup path files' ≡ some text))
        × ((other : String)
            → str_eq path other ≡ false
            → str_eq (tmp_path path) other ≡ false
            → lookup other files' ≡ lookup other files)
  unfolding save
  save_lem env s files = go (codec.marshal (snapshot_of s)) refl
    where
      go :
          (r : Result String)
          → codec.marshal (snapshot_of s) ≡ r
          → let (done, files') = save codec env path s files in
            (done ≡ false → lookup path files' ≡ lookup path files)
            × (done ≡ true
                → (text : String) × (codec.marshal (snapshot_of s) ≡ ok text)
                  × (lookup path files' ≡ some text))
            × ((other : String)
                → str_eq path other ≡ false
                → str_eq (tmp_path path) other ≡ false
                → lookup other files' ≡ lookup other files)
      go panic e = rw (e, save) (λ h. refl, λ h. cc, λ other h k. refl)
      go (err _) e = rw (e, save) (λ h. refl, λ h. cc, λ other h k. refl)
      go (ok text) e =
          let (kept, replaced, others) =
            write_out-IsReplaced path text files env.write env.renamed in
          rw (e, save) (kept, λ h. (text, refl, replaced h), others)

-- Job.cancel is not exported, and is not in the file.
abbrev pub without_cancel : {N : Type 0} → String × Job N → String × Job N
without_cancel (id, job) = (id, record job { cancel = false })

abbrev pub forget_cancels : {N : Type 0} → Store N → Store N
forget_cancels s = record s { jobs = map without_cancel s.jobs }

-- A snapshot that is read back: an empty map may have become a nil one, and no job has a cancel
-- function.
abbrev pub IsReadBack : {N : Type 0} → Store N → StoreSnapshot N → Type 0
IsReadBack s snap =
    (snap.workers ≡ s.workers)
    × (or_empty snap.task_types ≡ s.task_types)
    × (or_empty snap.jobs ≡ map without_cancel s.jobs)

module _ {N : Type 0} (codec : Codec N) (path : String) where
  load-text :
      (s : Store N) (text : String) (snap : StoreSnapshot N) (files : Files)
      → lookup path files ≡ some text
      → codec.unmarshal text ≡ ok snap
      → IsReadBack s snap
      → new_store codec none path files ≡ forget_cancels s
  unfolding new_store load
  load-text s text snap files found read (workers, types, jobs) =
      rw (new_store, load, found, read, workers, types, jobs) refl

  same_file :
      (new old : Files)
      → lookup path new ≡ lookup path old
      → new_store codec none path new ≡ new_store codec none path old
  unfolding new_store load
  same_file new old e = rw (new_store, load, e) refl

  -- However a save ends or is interrupted, the next start has either the saved store without the
  -- cancel functions of its jobs, if the save succeeds, or the store that it would have had
  -- without the save. The snapshot can be encoded, and is decoded to itself but for empty maps,
  -- which may have become nil, and for the cancel functions; a start can read the file if it is
  -- there.
  pub new_store-save :
      (env : SaveEnd) (s : Store N) (files : Files) (text : String) (snap : StoreSnapshot N)
      → codec.marshal (snapshot_of s) ≡ ok text
      → codec.unmarshal text ≡ ok snap
      → IsReadBack s snap
      → let (done, files') = save codec env path s files in
        new_store codec none path files'
        ≡ (if done then forget_cancels s else new_store codec none path files)
  new_store-save env s files text snap encoded read back =
      let (done, files') = save codec env path s files in
      let (kept, replaced, others) = save_lem codec path env s files in
      elim (Bool-cases done) [
        | inl e ↦
            let (text', encoded', found) = replaced e in
            let same : text' ≡ text = cc in
            rw e (load-text s text snap files' (found ∙ ap some same) read back)
        | inr e ↦ rw e (same_file files' files (kept e))
      ]
