-- ===== src/Splitter/Slices.antt =====
-- splitSlice and splitSliceGeneric of center/server/splitter.go: one generic function, since the
-- two differ in the element type alone.
use swarm_compute.Base.{
  ℕ, zero, suc, ◌+◌, ◌-◌, ◌/◌, List, [], ◌∷◌, length, take, drop, ltb, leb, ◌==◌, if◌then◌else◌,
}

-- `int(math.Ceil(float64(a) / float64(b)))` for lengths, which are far below 2^53
abbrev pub ceil_div : ℕ → ℕ → ℕ
ceil_div a b = (a + b - 1) / b

module _ {ℓ} {A : Type ℓ} where
  -- `s[i:j]`
  unfoldable pub slice : List A → ℕ → ℕ → List A
  slice s i j = take (j - i) (drop i s)

  -- `for i := 0; i < len(s); i += size`, from round `i` on; the length of `s` is enough fuel
  unfoldable pub chunks_from : ℕ → ℕ → ℕ → List A → List (List A)
  chunks_from zero size i s = []
  chunks_from (suc fuel) size i s =
      let rest = chunks_from fuel size (i + size) s in
      let end : ℕ = if ltb (length s) (i + size) then length s else i + size in
      if ltb i (length s) then slice s i end ∷ rest else []

  unfoldable pub split_slice : List A → ℕ → List (List A)
  split_slice s n =
      let n : ℕ = if leb n 0 then 1 else n in
      let n : ℕ = if ltb (length s) n then length s else n in
      if n == 0 then [] else chunks_from (length s) (ceil_div (length s) n) 0 s
