-- ===== src/Executor/Grep.antt =====
-- site/server/exec_grep.go.
use swarm_compute.Base.{
  ℕ, ◌+◌, String, List, [], ◌∷◌, map, Option, none, some, Bool, inl, inr, length, Result, ok, err,
  errorf, errorf_wrap, if◌then◌else◌,
}
use swarm_compute.Base.Int.{ℤ, pos, ◌+ℤ◌, int64}
use swarm_compute.Base.Text.{split_lines}
use swarm_compute.Base.Value.{Value, num, str, obj, Fields, end, field, array, get, as_num, as_str}
use swarm_compute.Base.Float64.{Float64, const_f}
use swarm_compute.Executor.GoLibrary.{Runtime}

module _ {N : Type 0} ⦃fl : Float64 N⦄ where
  abbrev pub start_line_of : Option N → ℤ
  start_line_of none = pos 0
  start_line_of (some sl) = fl.to_int sl

  abbrev pub match_at : ℤ → String → Fields N
  match_at line content = field "line" (num (fl.of_int line)) (field "content" (str content) end)

  -- `for i, line := range lines`, from index `i` on
  unfoldable pub grep_loop : (String → Bool) → ℤ → ℕ → List String → List (Fields N)
  unfolding int64 ◌+ℤ◌
  grep_loop matches start_line i [] = []
  grep_loop matches start_line i (line ∷ lines) =
      let rest = grep_loop matches start_line (i + 1) lines in
      if matches line then match_at (int64 (start_line +ℤ pos (i + 1))) line ∷ rest else rest

  abbrev pub grep_output : List (Fields N) → Value N
  grep_output matches = obj (
      field "matches" (array (map obj matches))
        (field "count" (num (const_f (length matches))) end))

  unfoldable pub execute_grep : Runtime N → Fields N → Result (Value N)
  unfolding grep_loop
  execute_grep rt input = elim (as_str (get "text" input)) [
    | none ↦ err (errorf "input.text must be a string")
    | some text ↦ elim (as_str (get "pattern" input)) [
      | none ↦ err (errorf "input.pattern must be a string")
      | some pattern ↦ elim (rt.compile pattern) [
        | inl e ↦ err (errorf_wrap "invalid regex: " e)
        | inr matches ↦ ok (
            grep_output (
              grep_loop matches (start_line_of (as_num (get "startLine" input))) 0
                (split_lines text)))
      ]
    ]
  ]
