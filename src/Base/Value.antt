-- ===== src/Base/Value.antt =====
-- The dynamic values of package encoding/json: what a Go `interface{}` holds after decoding. `N`
-- stands for float64. An `int` in a value that is sent is the number that encoding/json writes.
use Prim.Native.String.{String}
use text.Mathlib.Text.{◌==◌ as str_eq}
use mathlib.Core.Path.{◌≡◌, refl, ap}
use mathlib.Core.Bool.{Bool}
use mathlib.Core.Option.{Option, none, some}
use mathlib.Core.List.{List, [], ◌∷◌}
use swarm_compute.Base.Tests.{if◌then◌else◌}
use swarm_compute.Base.Errors.{Result, ok, panic}

mutual
  pub data Value (N : Type 0) : Type 0 where
    null : Value N
    bool : Bool → Value N
    num : N → Value N
    str : String → Value N
    arr : Items N → Value N
    obj : Fields N → Value N

  -- `[]interface{}`
  pub data Items (N : Type 0) : Type 0 where
    nil : Items N
    cons : Value N → Items N → Items N

  -- `map[string]interface{}`, each key once
  pub data Fields (N : Type 0) : Type 0 where
    end : Fields N
    field : String → Value N → Fields N → Fields N

module _ {N : Type 0} where
  abbrev pub elements : Items N → List (Value N)
  elements nil = []
  elements (cons v vs) = v ∷ elements vs

  abbrev pub items : List (Value N) → Items N
  items [] = nil
  items (v ∷ vs) = cons v (items vs)

  -- `[]interface{}` and `[]map[string]interface{}` as values
  abbrev pub array : List (Value N) → Value N
  array vs = arr (items vs)

  pub elements-items : (vs : List (Value N)) → elements (items vs) ≡ vs
  elements-items [] = refl
  elements-items (v ∷ vs) = ap (◌∷◌ v) (elements-items vs)

  -- `v, ok := m[k]`
  abbrev pub get : String → Fields N → Option (Value N)
  get k end = none
  get k (field j v m) = if str_eq j k then some v else get k m

  -- `x, ok := m[k].(T)`: a missing key gives the nil interface, which fails the assertion too.
  abbrev pub as_num : Option (Value N) → Option N
  as_num (some (num x)) = some x
  as_num _ = none

  abbrev pub as_str : Option (Value N) → Option String
  as_str (some (str s)) = some s
  as_str _ = none

  abbrev pub as_bool : Option (Value N) → Option Bool
  as_bool (some (bool b)) = some b
  as_bool _ = none

  abbrev pub as_arr : Option (Value N) → Option (List (Value N))
  as_arr (some (arr vs)) = some (elements vs)
  as_arr _ = none

  abbrev pub as_obj : Option (Value N) → Option (Fields N)
  as_obj (some (obj m)) = some m
  as_obj _ = none

  -- `v.(float64)` without `ok`: any other type panics.
  abbrev pub must_num : Value N → Result N
  must_num (num x) = ok x
  must_num _ = panic
