-- ===== src/Splitter/Lines.antt =====
-- The splitters of center/server/splitter.go that cut a text at its newlines.
use swarm_compute.Base.{
  ℕ, ◌+◌, String, List, [], ◌∷◌, map, none, some, length, Result, ok, err, errorf,
}
use swarm_compute.Base.Text.{split_lines, join_lines}
use swarm_compute.Base.Value.{num, str, Fields, end, field, get, as_str}
use swarm_compute.Base.Float64.{Float64, const_f}
use swarm_compute.Splitter.Slices.{split_slice}

module _ {N : Type 0} where
  abbrev pub word_chunk : List String → Fields N
  word_chunk chunk = field "text" (str (join_lines chunk)) end

  unfoldable pub split_word_count : Fields N → ℕ → Result (List (Fields N))
  split_word_count input n = elim (as_str (get "text" input)) [
    | none ↦ err (errorf "input.text must be a string")
    | some text ↦ ok (map word_chunk (split_slice (split_lines text) n))
  ]

module _ {N : Type 0} ⦃fl : Float64 N⦄ where
  abbrev pub grep_chunk : String → ℕ → List String → Fields N
  grep_chunk pattern offset chunk =
      field "text" (str (join_lines chunk))
        (field "pattern" (str pattern) (field "startLine" (num (const_f offset)) end))

  -- the loop over the chunks, with `lineOffset`
  unfoldable pub grep_chunks : String → ℕ → List (List String) → List (Fields N)
  grep_chunks pattern offset [] = []
  grep_chunks pattern offset (chunk ∷ rest) =
      grep_chunk pattern offset chunk ∷ grep_chunks pattern (offset + length chunk) rest

  unfoldable pub split_grep : Fields N → ℕ → Result (List (Fields N))
  split_grep input n = elim (as_str (get "text" input)) [
    | none ↦ err (errorf "input.text must be a string")
    | some text ↦ elim (as_str (get "pattern" input)) [
      | none ↦ err (errorf "input.pattern must be a string")
      | some pattern ↦ ok (grep_chunks pattern 0 (split_slice (split_lines text) n))
    ]
  ]
