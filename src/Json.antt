-- ===== src/Json.antt =====
-- The values of JSON columns and of `dict[str, Any]`, with Python's `get` and truth value.
pub mod Lookup
use cliff.Common.{
  ℕ, String, ◌≡◌, refl, Bool, true, false, not, Option, none, some, List, [], ◌∷◌, ◌==◌,
  if◌then◌else◌,
}
use cliff.Common.Int.{ℤ, pos, is_zero}
use cliff.Common.Text.{Text, codes, lower}

-- `float m e` is m / 10 ^ e, as JSON writes it.
mutual
  pub data Value : Type 0 where
    null : Value
    bool : Bool → Value
    int : ℤ → Value
    float : ℤ → ℕ → Value
    str : String → Value
    obj : Fields → Value
    arr : Items → Value

  pub data Fields : Type 0 where
    end : Fields
    field : String → Value → Fields → Fields

  pub data Items : Type 0 where
    nil : Items
    cons : Value → Items → Items

abbrev pub items : Items → List Value
items nil = []
items (cons v vs) = v ∷ items vs

-- d.get(k): `None` and a missing key give the same answer.
unfoldable pub get : Fields → String → Value
get end k = null
get (field j v d) k = if j == k then v else get d k

-- d[k] = v keeps the place of a key that is there.
unfoldable pub set : Fields → String → Value → Fields
set end k v = field k v end
set (field j w d) k v = if j == k then field j v d else field j w (set d k v)

-- bool(v)
unfoldable pub truthy : Value → Bool
truthy null = false
truthy (bool b) = b
truthy (int n) = not (is_zero n)
truthy (float m e) = not (is_zero m)
truthy (str s) = not (s == "")
truthy (arr nil) = false
truthy (arr (cons _ _)) = true
truthy (obj end) = false
truthy (obj (field _ _ _)) = true

unfoldable pub is_null : Value → Bool
is_null null = true
is_null _ = false

-- `v is True`
unfoldable pub is_true : Value → Bool
is_true (bool b) = b
is_true _ = false

-- isinstance(v, dict), with the dict
abbrev pub as_obj : Value → Option Fields
as_obj (obj d) = some d
as_obj _ = none

-- isinstance(v, list), with the list
abbrev pub as_arr : Value → Option (List Value)
as_arr (arr vs) = some (items vs)
as_arr _ = none

-- isinstance(v, str), with the text
abbrev pub as_str : Value → Option String
as_str (str s) = some s
as_str _ = none

-- v or {}
abbrev pub obj_or_empty : Value → Value
obj_or_empty v = if truthy v then v else obj end

-- v == "…"
unfoldable pub is_str : Value → String → Bool
is_str (str s) t = s == t
is_str _ t = false

sample : Fields
sample = field "a" (int (pos 0)) (field "b" (str "x") end)

get-sample : get (set sample "a" (bool true)) "a" ≡ bool true
unfolding get set sample
get-sample = refl

-- `(v or "").lower()`; `none` where the value has no such method
unfoldable pub lower_or_empty : Value → Option Text
unfolding truthy
lower_or_empty (str s) = some (lower (codes s))
lower_or_empty v = if truthy v then none else some []
