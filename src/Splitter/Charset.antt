-- ===== src/Splitter/Charset.antt =====
-- splitHashCrack of center/server/splitter.go.
use text.Mathlib.Text.{◌==◌ as str_eq}
use swarm_compute.Base.{
  ℕ, zero, suc, ◌+◌, ◌-◌, ◌*◌, ◌/◌, String, List, [], ◌∷◌, map, Option, none, some, Result, ok, err,
  panic, errorf, ltb, length, ◌==◌, if◌then◌else◌,
}
use swarm_compute.Base.Text.{bytes}
use swarm_compute.Base.Value.{num, str, Fields, end, field, get, as_str, as_num}
use swarm_compute.Base.Float64.{Float64, const_f, lt_f}

-- The index range of worker `i`: the last one ends at the end of the charset.
abbrev pub index_range : ℕ → ℕ → ℕ → ℕ × ℕ
index_range char_count n i =
    let per_worker = char_count / n in
    (i * per_worker, if i == n - 1 then char_count else (i + 1) * per_worker)

-- `for i := 0; i < n; i++`, with `left` rounds to go
unfoldable pub index_ranges_from : ℕ → ℕ → ℕ → ℕ → List (ℕ × ℕ)
index_ranges_from char_count n zero i = []
index_ranges_from char_count n (suc left) i =
    index_range char_count n i ∷ index_ranges_from char_count n left (i + 1)

unfoldable pub index_ranges : ℕ → ℕ → List (ℕ × ℕ)
unfolding index_ranges_from
index_ranges char_count n =
    let n : ℕ = if ltb char_count n then char_count else n in index_ranges_from char_count n n 0

abbrev pub default_charset : String
default_charset = "abcdefghijklmnopqrstuvwxyz"

-- `charset` unless it is given and not empty
abbrev pub charset_of : Option String → String
charset_of (some cs) = if str_eq cs "" then default_charset else cs
charset_of none = default_charset

module _ {N : Type 0} ⦃fl : Float64 N⦄ where
  abbrev pub max_len_of : Option N → N
  max_len_of (some ml) = if lt_f (const_f 0) ml then ml else const_f 4
  max_len_of none = const_f 4

  abbrev pub hash_chunk : String → String → N → ℕ × ℕ → Fields N
  hash_chunk hash charset max_len (start_idx, end_idx) = field "hash" (str hash) (
      field "charset" (str charset) (
        field "maxLen" (num max_len) (
          field "startIdx" (num (const_f start_idx)) (field "endIdx" (num (const_f end_idx)) end))))

  -- `charCount / n` panics at n = 0
  unfoldable pub split_hash_crack : Fields N → ℕ → Result (List (Fields N))
  unfolding index_ranges
  split_hash_crack input n = elim (as_str (get "hash" input)) [
    | none ↦ err (errorf "input.hash must be a string")
    | some hash ↦
        let charset = charset_of (as_str (get "charset" input)) in
        let max_len = max_len_of (as_num (get "maxLen" input)) in
        if n == 0
        then panic
        else ok (map (hash_chunk hash charset max_len) (index_ranges (length (bytes charset)) n))
  ]
