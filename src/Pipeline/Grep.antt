-- ===== src/Pipeline/Grep.antt =====
-- The grep job: splitGrep, executeGrep and aggregateGrep together.
use mathlib.Core.List.{append-nil, append_assoc}
use swarm_compute.Base.{
  ℕ, suc, ◌+◌, ◌^◌, ◌≤◌, ◌<◌, ◌≡◌, refl, ap, ◌∙◌, String, List, [], ◌∷◌, ◌++◌, map, some, Bool,
  true, Bool-cases, inl, inr, length, length-append, concat, All, All-++, ok, map_m, if◌then◌else◌,
  arith,
}
use swarm_compute.Base.Int.{pos, ◌+ℤ◌, int64, int64-small, int_laws, eq_of_parts}
use swarm_compute.Base.Text.{split_lines, IsLine, split_lines-IsLine, split_lines-join_lines}
use swarm_compute.Base.Value.{Value, Fields, str, obj, get, elements-items}
use swarm_compute.Base.Float64.{Float64, FloatLaws, const_f}
use swarm_compute.Base.Sort.{sort_by, insert_by}
use swarm_compute.Splitter.Slices.{split_slice}
use swarm_compute.Splitter.SliceLaws.{split_slice_lem}
use swarm_compute.Splitter.Lines.{split_grep, grep_chunk, grep_chunks}
use swarm_compute.Executor.GoLibrary.{Runtime}
use swarm_compute.Executor.Grep.{execute_grep, grep_loop, grep_output, match_at}
use swarm_compute.Aggregator.Matches.{grep_totals, aggregate_grep, line_less, maps}
use swarm_compute.Pipeline.{map_reduce}

module _ {N : Type 0} ⦃fl : Float64 N⦄ (matches : String → Bool) where
  -- The lines that match, with their numbers; line `m + 1` is the first of the list.
  abbrev pub hits : ℕ → List String → List (Fields N)
  hits m [] = []
  hits m (line ∷ lines) =
      if matches line then match_at (pos (m + 1)) line ∷ hits (m + 1) lines else hits (m + 1) lines

  hits-append :
      (m : ℕ) (xs ys : List String) → hits m (xs ++ ys) ≡ hits m xs ++ hits (m + length xs) ys
  hits-append m [] ys = let same : m ≡ m + 0 = omega arith in ap (λ (k : ℕ). hits k ys) same
  hits-append m (x ∷ xs) ys =
      let shift : m + 1 + length xs ≡ m + suc (length xs) = omega arith in
      elim (Bool-cases (matches x)) [
        | inl e ↦ rw (e, ← shift) (ap (◌∷◌ (match_at (pos (m + 1)) x)) (hits-append (m + 1) xs ys))
        | inr e ↦ rw (e, ← shift) (hits-append (m + 1) xs ys)
      ]

module _ (N : Type 0) ⦃fl : Float64 N⦄ (matches : String → Bool) where
  length-hits : (m : ℕ) (xs : List String) → length (hits {N = N} matches m xs) ≤ length xs
  length-hits m [] = omega arith
  length-hits m (x ∷ xs) = elim (Bool-cases (matches x)) [
    | inl e ↦ rw e (omega (arith, length-hits (m + 1) xs))
    | inr e ↦ rw e (omega (arith, length-hits (m + 1) xs))
  ]

module _ {N : Type 0} ⦃fl : Float64 N⦄ (matches : String → Bool) where
  grep_loop-hits :
      (o i : ℕ) (lines : List String)
      → o + i + length lines ≤ 2 ^ 53
      → grep_loop {N = N} matches (pos o) i lines ≡ hits matches (o + i) lines
  unfolding grep_loop
  grep_loop-hits o i [] h = refl
  grep_loop-hits o i (line ∷ lines) h =
      let number : int64 (pos o +ℤ pos (i + 1)) ≡ pos (o + i + 1) =
        int64-small (pos o +ℤ pos (i + 1)) (omega int_laws, omega int_laws)
        ∙ eq_of_parts _ _ (omega int_laws) in
      let shift : o + (i + 1) ≡ o + i + 1 = omega arith in
      rw (number, grep_loop-hits o (i + 1) lines (omega arith), shift)

module _ {N : Type 0} ⦃fl : Float64 N⦄ where
  maps-obj : (ms : List (Fields N)) → maps {N = N} (map obj ms) ≡ ms
  maps-obj [] = refl
  maps-obj (m ∷ ms) = ap (◌∷◌ m) (maps-obj ms)

module _ {N : Type 0} ⦃fl : Float64 N⦄ (laws : FloatLaws N) (matches : String → Bool) where
  insert-hits :
      (k m : ℕ) (content : String) (lines : List String)
      → k ≤ m
      → m + length lines ≤ 2 ^ 53
      → insert_by (line_less {N = N}) (match_at (pos k) content) (hits matches (m) lines)
        ≡ match_at (pos k) content ∷ hits matches m lines
  unfolding insert_by
  insert-hits k m content [] h l = refl
  insert-hits k m content (x ∷ lines) h l = elim (Bool-cases (matches x)) [
    | inl e ↦
        let later : fl.le_f (const_f k) (const_f (m + 1)) ≡ true =
          laws.le_exact (pos k) (pos (m + 1)) (omega arith, omega arith) (omega arith, omega arith)
          ∙ ground arith in
        rw (e, later)
    | inr e ↦ rw e (insert-hits k (m + 1) content lines (omega arith) (omega arith))
  ]

  sort_by-hits :
      (m : ℕ) (lines : List String)
      → m + length lines ≤ 2 ^ 53
      → sort_by (line_less {N = N}) (hits matches m lines) ≡ hits matches m lines
  unfolding sort_by
  sort_by-hits m [] h = refl
  sort_by-hits m (x ∷ lines) h = elim (Bool-cases (matches x)) [
    | inl e ↦
        rw (e, sort_by-hits (m + 1) lines (omega arith))
          (insert-hits (m + 1) (m + 1) x lines (omega arith) (omega arith))
    | inr e ↦ rw e (sort_by-hits (m + 1) lines (omega arith))
  ]

  -- the outputs of the workers for chunks that start at line `o + 1`
  abbrev outputs : ℕ → List (List String) → List (Value N)
  outputs o [] = []
  outputs o (chunk ∷ chunks) =
      grep_output (hits matches o chunk) ∷ outputs (o + length chunk) chunks

  grep_totals-outputs :
      (chunks : List (List String)) (o k : ℕ) (ms : List (Fields N))
      → k ≤ o
      → o + length (concat chunks) ≤ 2 ^ 53
      → grep_totals {N = N} (outputs o chunks) ms (pos k) ≡ (
        ms ++ hits matches o (concat chunks),
        pos (k + length (hits {N = N} matches o (concat chunks))),
      )
  unfolding grep_totals
  grep_totals-outputs [] o k ms le h = let same : k ≡ k + 0 = omega arith in rw (append-nil, ← same)
  grep_totals-outputs (chunk ∷ chunks) o k ms le h =
      let mine = hits {N = N} matches o chunk in
      let theirs = hits {N = N} matches (o + length chunk) (concat chunks) in
      let few : length mine ≤ length chunk = length-hits N matches o chunk in
      let room : o + length chunk + length (concat chunks) ≤ 2 ^ 53 =
        omega (arith, length-append chunk (concat chunks)) in
      let exact : fl.to_int (const_f (length mine)) ≡ pos (length mine) =
        laws.int_exact (pos (length mine)) (omega arith, omega arith) in
      let counted : int64 (pos k +ℤ pos (length mine)) ≡ pos (k + length mine) =
        int64-small (pos k +ℤ pos (length mine)) (omega int_laws, omega int_laws)
        ∙ eq_of_parts _ _ (omega int_laws) in
      let total : k + length mine + length theirs ≡ k + length (mine ++ theirs) =
        omega (arith, length-append mine theirs) in
      rw (
        elements-items (map obj mine),
        maps-obj mine,
        exact,
        counted,
        grep_totals-outputs chunks (o + length chunk) (k + length mine) (ms ++ mine) (omega arith)
            room,
        hits-append matches o chunk (concat chunks),
        append_assoc,
        total,
      )

  module _ (rt : Runtime N) (pattern : String) (compiles : rt.compile pattern ≡ inr matches) where
    execute_grep-chunk :
        (o : ℕ) (chunk : List String)
        → 0 < length chunk
        → All IsLine chunk
        → o + length chunk ≤ 2 ^ 53
        → execute_grep rt (grep_chunk pattern o chunk) ≡ ok (grep_output (hits matches o chunk))
    unfolding execute_grep
    execute_grep-chunk o [] some_lines lines h = absurd (omega arith)
    execute_grep-chunk o (l ∷ chunk) some_lines lines h =
        let same : o + 0 ≡ o = omega arith in
        rw (
          compiles,
          laws.int_exact (pos o) (omega arith, omega arith),
          split_lines-join_lines (l ∷ chunk) (λ e. cc) lines,
          grep_loop-hits {N = N} matches o 0 (l ∷ chunk) (omega arith),
          same,
        )

    execute_grep-chunks :
        (o : ℕ) (chunks : List (List String))
        → All (λ chunk. 0 < length chunk) chunks
        → All IsLine (concat chunks)
        → o + length (concat chunks) ≤ 2 ^ 53
        → map_m (execute_grep rt) (grep_chunks pattern o chunks) ≡ ok (outputs o chunks)
    unfolding grep_chunks
    execute_grep-chunks o [] some_lines lines h = refl
    execute_grep-chunks o (chunk ∷ chunks) some_lines lines h =
        let (now, later) = All-++ IsLine chunk (concat chunks) lines in
        let room : o + length chunk + length (concat chunks) ≤ 2 ^ 53 =
          omega (arith, length-append chunk (concat chunks)) in
        rw (
          execute_grep-chunk o chunk some_lines.0 now (omega arith),
          execute_grep-chunks (o + length chunk) chunks some_lines.1 later room,
        )

    -- For any number of workers, a grep job on a text of at most 2^53 lines, with a pattern that
    -- compiles, returns the lines that match, in order and numbered from 1 in the whole text, and
    -- their number. Whole numbers up to 2^53 are exact as float64.
    pub grep_job_lem :
        (input : Fields N) (text : String) (n : ℕ)
        → get "text" input ≡ some (str text)
        → get "pattern" input ≡ some (str pattern)
        → length (split_lines text) ≤ 2 ^ 53
        → map_reduce split_grep (execute_grep rt) aggregate_grep input n
          ≡ ok (grep_output (hits matches 0 (split_lines text)))
    unfolding split_grep aggregate_grep
    grep_job_lem input text n ht hp h =
        let chunks = split_slice (split_lines text) n in
        let (whole, pieces, _) = split_slice_lem (split_lines text) n in
        let lines : All IsLine (concat chunks) = rw whole (split_lines-IsLine text) in
        let room : 0 + length (concat chunks) ≤ 2 ^ 53 = rw whole (omega arith) in
        let count : 0 + length (hits {N = N} matches 0 (split_lines text))
            ≡ length (hits {N = N} matches 0 (split_lines text)) =
          omega arith in
        rw (
          ht,
          hp,
          split_grep,
          execute_grep-chunks 0 chunks pieces lines room,
          grep_totals-outputs chunks 0 0 [] (omega arith) room,
          whole,
          sort_by-hits 0 (split_lines text) (omega arith),
          count,
        )
