-- ===== src/Executor/HashCrack.antt =====
-- site/server/exec_hashcrack.go. `tried` is passed along as the pointer to it is.
use text.Mathlib.Text.{◌==◌ as str_eq}
use swarm_compute.Base.{
  ℕ, zero, suc, ◌+◌, ◌-◌, String, List, [], ◌∷◌, ◌++◌, Option, none, some, true, false, length,
  Result, ok, err, panic, errorf, ◌>>=◌, index, if◌then◌else◌,
}
use swarm_compute.Base.Int.{ℤ, pos, negsuc, pos_part, ltb_ℤ}
use swarm_compute.Base.Text.{bytes}
use swarm_compute.Base.Value.{Value, bool, num, str, obj, Fields, end, field, get, as_num, as_str}
use swarm_compute.Base.Float64.{Float64, const_f, lt_f}
use swarm_compute.Executor.GoLibrary.{Runtime}
use swarm_compute.Splitter.Charset.{charset_of}

-- The found bytes, if any, and `tried` after the search.
abbrev pub Search : Type 0
Search = Option (List ℕ) × ℕ

-- `for i := lo; i < hi; i++ { buf[pos] = chars[i]; ... }`, with `left` rounds to go. `deeper` is the
-- recursive call with the byte put in the buffer.
unfoldable pub try_bytes : (ℕ → ℕ → Result Search) → List ℕ → ℕ → ℕ → ℕ → Result Search
try_bytes deeper chars zero i tried = ok (none, tried)
try_bytes deeper chars (suc left) i tried = index chars i >>= λ c.
    deeper c tried >>= λ (found, tried'). elim found [
      | some val ↦ ok (some val, tried')
      | none ↦ try_bytes deeper chars left (i + 1) tried'
    ]

-- The loop from `lo` to `hi`: a negative index panics in the first round.
unfoldable pub try_range : (ℕ → ℕ → Result Search) → List ℕ → ℤ → ℤ → ℕ → Result Search
unfolding try_bytes
try_range deeper chars (negsuc lo) hi tried =
    if ltb_ℤ (negsuc lo) hi then panic else ok (none, tried)
try_range deeper chars (pos lo) hi tried = try_bytes deeper chars (pos_part hi - lo) lo tried

module _ {N : Type 0} (rt : Runtime N) (chars : List ℕ) (start_idx end_idx : ℤ)
    (target_hash : String) where
  -- `len(buf) - pos` is `left`, and `prefix` is buf[:pos].
  unfoldable pub search_depth : ℕ → List ℕ → ℕ → Result Search
  unfolding try_range
  search_depth zero prefix tried =
      ok (if str_eq (rt.md5_hex prefix) target_hash then some prefix else none, tried + 1)
  search_depth (suc left) [] tried =
      try_range (λ c. search_depth left (c ∷ [])) chars start_idx end_idx tried
  search_depth (suc left) (p ∷ prefix) tried =
      try_range (λ c. search_depth left (p ∷ prefix ++ c ∷ [])) chars (pos 0) (pos (length chars))
        tried

  -- `for length := 1; length <= maxLen; length++`, with `left` rounds to go
  unfoldable pub search_lengths : ℕ → ℕ → ℕ → Result Search
  unfolding search_depth
  search_lengths zero len tried = ok (none, tried)
  search_lengths (suc left) len tried = search_depth len [] tried >>= λ (found, tried').
      elim found [ some val ↦ ok (some val, tried') | none ↦ search_lengths left (len + 1) tried' ]

module _ {N : Type 0} ⦃fl : Float64 N⦄ where
  abbrev pub max_len_int : Option N → ℤ
  max_len_int none = pos 4
  max_len_int (some ml) = if lt_f (const_f 0) ml then fl.to_int ml else pos 4

  abbrev pub int_or : ℤ → Option N → ℤ
  int_or d none = d
  int_or d (some x) = fl.to_int x

  abbrev pub crack_output : Runtime N → Search → Value N
  crack_output rt (some val, tried) = obj (
      field "found" (bool true)
        (field "value" (str (rt.string_of val)) (field "tried" (num (const_f tried)) end)))
  crack_output rt (none, tried) =
      obj (field "found" (bool false) (field "tried" (num (const_f tried)) end))

  unfoldable pub execute_hash_crack : Runtime N → Fields N → Result (Value N)
  unfolding search_lengths
  execute_hash_crack rt input = elim (as_str (get "hash" input)) [
    | none ↦ err (errorf "input.hash must be a string")
    | some hash_raw ↦
        let hash = rt.to_lower (rt.trim_space hash_raw) in
        let chars = bytes (charset_of (as_str (get "charset" input))) in
        let max_len = max_len_int (as_num (get "maxLen" input)) in
        let start_idx = int_or (pos 0) (as_num (get "startIdx" input)) in
        let end_idx = int_or (pos (length chars)) (as_num (get "endIdx" input)) in
        let search = search_lengths rt chars start_idx end_idx hash (pos_part max_len) 1 0 >>= λ s.
        ok (crack_output rt s) in
        if ltb_ℤ (pos 6) max_len then err (errorf "maxLen too large (max 6)") else search
  ]
