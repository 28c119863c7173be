-- ===== src/Json.antt =====
-- JSON documents as Go's encoding/json decodes them into `interface{}` values. A float64 is its
-- 64-bit pattern; the operations on it are a parameter, `FloatOps`.
use quarkgate.Prelude.{
  Bool, Option, Text, arith, if◌then◌else◌, none, refl, some, text_beq_iff, ℕ, ℤ, ◌==◌, ◌≡◌, nat_eq,
  text_eq, int_eq,
}

abbrev pub Float64 : Type 0
Float64 = ℕ

-- A `json.RawMessage`, by what it decodes to at the type that the code decodes it at; `none` is a
-- text that `json.Unmarshal` refuses there.
abbrev pub Raw : Type 0 → Type 0
Raw A = Option A

-- `int` and `int64` are values that Go code puts into a map; decoding gives `num` only.
mutual
  pub data Value : Type 0 where
    null : Value
    bool : Bool → Value
    num : Float64 → Value
    int : ℤ → Value
    int64 : ℤ → Value
    str : Text → Value
    arr : Items → Value
    obj : Fields → Value

  pub data Items : Type 0 where
    nil : Items
    cons : Value → Items → Items

  -- `map[string]interface{}`
  pub data Fields : Type 0 where
    empty : Fields
    field : Text → Value → Fields → Fields

-- `m[k]`
unfoldable pub get : Text → Fields → Option Value
get k empty = none
get k (field j v m) = if j == k then some v else get k m

-- `m[k] = v`
unfoldable pub put : Text → Value → Fields → Fields
put k v empty = field k v empty
put k v (field j w m) = if j == k then field k v m else field j w (put k v m)

-- `delete(m, k)`
unfoldable pub remove : Text → Fields → Fields
remove k empty = empty
remove k (field j w m) = let rest = remove k m in if j == k then rest else field j w rest

-- `for k, v := range patch { m[k] = v }`
unfoldable pub put_all : Fields → Fields → Fields
put_all m empty = m
put_all m (field k v patch) = put_all (put k v m) patch

-- `v.(string)`, `v.(bool)`, `v.(map[string]interface{})`
abbrev pub as_string : Option Value → Option Text
as_string (some (str t)) = some t
as_string _ = none

abbrev pub as_bool : Option Value → Option Bool
as_bool (some (bool b)) = some b
as_bool _ = none

abbrev pub as_map : Option Value → Option Fields
as_map (some (obj m)) = some m
as_map _ = none

pub get-put :
    (k j : Text) (v : Value) (m : Fields) → get j (put k v m) ≡ (if k == j then some v else get j m)
unfolding get put
get-put k j v empty = refl
get-put k j v (field i w m) =
    ground (arith, text_beq_iff k j, text_beq_iff i k, text_beq_iff i j, get-put k j v m)
