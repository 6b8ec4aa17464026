-- ===== src/Base/Text.antt =====
-- Strings as the code walks them: `strings.Split` and `strings.Join` at "\n". A string is its
-- sequence of characters.
use Prim.Native.Nat.{ℕ, ◌<◌, ◌+◌, ◌/◌, ◌%◌}
use Prim.Native.Char.{Char, code}
use Prim.Native.String.{String, ◌++◌, count}
use text.Mathlib.Text.{◌==◌ as str_eq}
use text.Mathlib.TextEquality.{eq_iff}
use native.Mathlib.Omega.{arith}
use mathlib.Core.Path.{◌≡◌, refl, ap, ◌∙◌}
use mathlib.Core.Logic.{◌≢◌, inl, inr}
use mathlib.Core.List.{List, [], ◌∷◌, ◌++◌ as ◌⊕◌}
use mathlib.Core.Bool.{Bool, false}
use text.Mathlib.TextLemmas.{nil-append, cons-append}
use swarm_compute.Base.Tests.{ltb, ◌==◌, if◌then◌else◌, Bool-cases}
use swarm_compute.Base.Lists.{All}

abbrev pub newline : Char
newline = "\n"

abbrev pub is_newline : Char → Bool
is_newline c = code c == 10

-- The UTF-8 bytes of a character and of a string: `[]byte(s)`. `len(s)` is their number.
utf8 : ℕ → List ℕ
utf8 c =
    if ltb c 0x80
    then c ∷ []
    else if ltb c 0x800
    then (0xC0 + c / 64) ∷ (0x80 + c % 64) ∷ []
    else if ltb c 0x10000
    then (0xE0 + c / 4096) ∷ (0x80 + c / 64 % 64) ∷ (0x80 + c % 64) ∷ []
    else (0xF0 + c / 262144) ∷ (0x80 + c / 4096 % 64) ∷ (0x80 + c / 64 % 64) ∷ (0x80 + c % 64) ∷ []

unfoldable pub bytes : String → List ℕ
unfolding utf8
bytes String.[] = []
bytes (String.◌∷◌ c s) = utf8 (code c) ⊕ bytes s

-- A character goes in front of the first line.
abbrev push : Char → List String → List String
push c [] = String.◌∷◌ c "" ∷ []
push c (l ∷ ls) = String.◌∷◌ c l ∷ ls

-- `strings.Split(s, "\n")`
unfoldable pub split_lines : String → List String
split_lines String.[] = "" ∷ []
split_lines (String.◌∷◌ c s) =
    let rest = split_lines s in if is_newline c then "" ∷ rest else push c rest

-- `strings.Join(lines, "\n")`
unfoldable pub join_lines : List String → String
join_lines [] = ""
join_lines (l ∷ []) = l
join_lines (l ∷ m ∷ ls) = l ++ String.◌∷◌ newline (join_lines (m ∷ ls))

-- No character of the text is a newline.
abbrev pub IsLine : String → Type 0
IsLine String.[] = Unit
IsLine (String.◌∷◌ c s) = (is_newline c ≡ false) × IsLine s

All-IsLine-push :
    (c : Char) (ls : List String) → is_newline c ≡ false → All IsLine ls → All IsLine (push c ls)
All-IsLine-push c [] h hs = ((h, tt), tt)
All-IsLine-push c (l ∷ ls) h hs = ((h, hs.0), hs.1)

pub split_lines-IsLine : (s : String) → All IsLine (split_lines s)
unfolding split_lines
split_lines-IsLine String.[] = (tt, tt)
split_lines-IsLine (String.◌∷◌ c s) = elim (Bool-cases (is_newline c)) [
  | inl e ↦ rw e (tt, split_lines-IsLine s)
  | inr e ↦ rw e (All-IsLine-push c (split_lines s) e (split_lines-IsLine s))
]

split_lines-line : (l : String) → IsLine l → split_lines l ≡ l ∷ []
unfolding split_lines
split_lines-line String.[] h = refl
split_lines-line (String.◌∷◌ c s) h = rw (h.0, split_lines-line s h.1)

split_lines-append :
    (l s : String) → IsLine l → split_lines (l ++ String.◌∷◌ newline s) ≡ l ∷ split_lines s
unfolding split_lines
split_lines-append String.[] s h = rw nil-append
split_lines-append (String.◌∷◌ c l) s h = rw (cons-append, h.0, split_lines-append l s h.1)

-- Joined lines are split again into the same lines.
pub split_lines-join_lines :
    (ls : List String) → ls ≢ [] → All IsLine ls → split_lines (join_lines ls) ≡ ls
unfolding join_lines
split_lines-join_lines [] n h = absurd (n refl)
split_lines-join_lines (l ∷ []) n h = split_lines-line l h.0
split_lines-join_lines (l ∷ m ∷ ls) n h =
    split_lines-append l (join_lines (m ∷ ls)) h.0
    ∙ ap (◌∷◌ l) (split_lines-join_lines (m ∷ ls) (λ e. cc) h.1)

-- A string is not equal to a shorter one.
pub str_eq-longer : (a b : String) → count b < count a → str_eq a b ≡ false
str_eq-longer a b h = elim (Bool-cases (str_eq a b)) [
  | inl e ↦
      let same : a ≡ b = ground (eq_iff a b, arith) in
      let lengths = ap count same in absurd (omega (arith, lengths))
  | inr e ↦ e
]
