-- ===== src/Rest/Json.antt =====
-- JSON values as Go decodes them into `map[string]interface{}`, and GetMapString of
-- internal/maidenlaneutils/maputils.go.
use zeroxyz.Prelude.{
  String, Option, none, some, Bool, ◌≡◌, refl, arith, ◌==◌, string_key, eq_iff, if◌then◌else◌,
}
use zeroxyz.Prelude.Int.{ℤ}

mutual
  pub data Json : Type 0 where
    null : Json
    boolean : Bool → Json
    number : ℤ → Json
    text : String → Json
    array : Values → Json
    object : Fields → Json

  pub data Values : Type 0 where
    no_values : Values
    value : Json → Values → Values

  -- An object, or a Go map with text keys.
  pub data Fields : Type 0 where
    no_fields : Fields
    field : String → Json → Fields → Fields

-- v, exists := m[key]
unfoldable pub get_field : String → Fields → Option Json
get_field key no_fields = none
get_field key (field k v m) = let rest = get_field key m in if k == key then some v else rest

-- m[key] = v
unfoldable pub set_field : String → Json → Fields → Fields
set_field key v no_fields = field key v no_fields
set_field key v (field k w m) =
    let rest = set_field key v m in if k == key then field key v m else field k w rest

-- none is the panic on a null, whose reflect.TypeOf is a nil Type.
unfoldable pub get_map_string : Fields → String → Option String
get_map_string m key = elim (get_field key m) [
  | some (text s) ↦ some s
  | some null ↦ none
  | some _ ↦ some ""
  | none ↦ some ""
]

pub get_field-set_field :
    (key k : String) (v : Json) (m : Fields)
    → get_field k (set_field key v m) ≡ (if key == k then some v else get_field k m)
unfolding get_field set_field
get_field-set_field key k v no_fields = refl
get_field-set_field key k v (field j w m) =
    ground (arith, eq_iff key k, eq_iff j key, eq_iff j k, get_field-set_field key k v m)
