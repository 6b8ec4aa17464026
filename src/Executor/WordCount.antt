-- ===== src/Executor/WordCount.antt =====
-- site/server/exec_wordcount.go.
use Prim.Native.Char.{Char}
use text.Mathlib.Text.{◌==◌ as str_eq}
use swarm_compute.Base.{
  ℕ, ◌+◌, String, List, [], ◌∷◌, none, some, Bool, not, ◌&&◌, Result, ok, err, errorf,
  if◌then◌else◌,
}
use swarm_compute.Base.Value.{Value, num, obj, Fields, end, field, get, as_str}
use swarm_compute.Base.Float64.{Float64, const_f}
use swarm_compute.Executor.GoLibrary.{Runtime}

module _ (sep : Char → Bool) where
  -- an empty field is left out
  abbrev pub emit : String → List String → List String
  emit w ws = if str_eq w "" then ws else w ∷ ws

  -- the characters up to the first separator, and the fields behind it
  unfoldable pub scan_fields : String → String × List String
  scan_fields String.[] = ("", [])
  scan_fields (String.◌∷◌ c s) =
      let (w, ws) = scan_fields s in if sep c then ("", emit w ws) else (String.◌∷◌ c w, ws)

  -- `strings.FieldsFunc(s, sep)`
  unfoldable pub fields_func : String → List String
  unfolding scan_fields
  fields_func s = let (w, ws) = scan_fields s in emit w ws

-- `counts[k]++`
unfoldable pub increment : String → List (String × ℕ) → List (String × ℕ)
increment k [] = (k, 1) ∷ []
increment k ((j, n) ∷ rest) = if str_eq j k then (j, n + 1) ∷ rest else (j, n) ∷ increment k rest

module _ {N : Type 0} where
  abbrev pub is_separator : Runtime N → Char → Bool
  is_separator rt c = not (rt.is_letter c) && not (rt.is_digit c)

  -- `for _, w := range words`
  unfoldable pub count_words : Runtime N → List String → List (String × ℕ) → List (String × ℕ)
  unfolding increment
  count_words rt [] counts = counts
  count_words rt (w ∷ ws) counts = count_words rt ws (increment (rt.to_lower w) counts)

module _ {N : Type 0} ⦃fl : Float64 N⦄ where
  -- a `map[string]int` as it is sent
  unfoldable pub count_fields : List (String × ℕ) → Fields N
  count_fields [] = end
  count_fields ((k, n) ∷ counts) = field k (num (const_f n)) (count_fields counts)

  unfoldable pub execute_word_count : Runtime N → Fields N → Result (Value N)
  unfolding fields_func count_words count_fields
  execute_word_count rt input = elim (as_str (get "text" input)) [
    | none ↦ err (errorf "input.text must be a string")
    | some text ↦ ok (obj (count_fields (count_words rt (fields_func (is_separator rt) text) [])))
  ]
