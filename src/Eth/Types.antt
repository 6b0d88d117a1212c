-- ===== src/Eth/Types.antt =====
-- What txn.go works on: ABI types, the JSON values supplied for them, and Go values with their types
-- as `reflect` sees them. Lists inside of a type are types of their own.
use zeroxyz.Prelude.{ℕ, ◌+◌, String, List, Bool, true, false, ◌&&◌, ◌==◌, string_key, eqb}
use zeroxyz.Prelude.Int.{ℤ}
use zeroxyz.Errors.{Error, ErrorId, errorf}
use zeroxyz.Auth.{Result}

-- abi.Type: the kind `T` with its size, element type, or tuple fields. `other_ty` is any kind that
-- the code has no case for.
mutual
  pub data AbiType : Type 0 where
    int_ty uint_ty fixed_bytes_ty : ℕ → AbiType
    bool_ty string_ty address_ty bytes_ty other_ty : AbiType
    slice_ty : AbiType → AbiType
    array_ty : ℕ → AbiType → AbiType
    tuple_ty : Elems → AbiType

  -- TupleRawNames and TupleElems
  pub data Elems : Type 0 where
    no_elems : Elems
    elem : String → AbiType → Elems → Elems

-- A float64 that JSON can hold: sign, integer part, and whether there is a fraction.
pub record Float64 : Type 0 where
  pub negative : Bool
  pub whole : ℕ
  pub fraction : Bool

-- A value that JSON was decoded into.
mutual
  pub data Param : Type 0 where
    nil : Param
    boolean : Bool → Param
    float : Float64 → Param
    text : String → Param
    items : Params → Param
    members : Members → Param

  pub data Params : Type 0 where
    no_params : Params
    param : Param → Params → Params

  pub data Members : Type 0 where
    no_members : Members
    member : String → Param → Members → Members

-- reflect.Type of the values below; `go_address` is the named type of 20 bytes.
mutual
  pub data GoType : Type 0 where
    go_int go_uint : ℕ → GoType
    go_big go_bool go_string go_address : GoType
    go_slice : GoType → GoType
    go_array : ℕ → GoType → GoType
    go_struct : GoFields → GoType

  pub data GoFields : Type 0 where
    no_go_fields : GoFields
    go_field : String → GoType → GoFields → GoFields

-- Go values of these types; slices and arrays with their element type. `nil_big` is a nil *big.Int.
mutual
  pub data Value : Type 0 where
    int_val : ℕ → ℤ → Value
    uint_val : ℕ → ℕ → Value
    big_val : ℤ → Value
    bool_val : Bool → Value
    string_val : String → Value
    address_val : List ℕ → Value
    slice_val array_val : GoType → Values → Value
    struct_val : GoType → Values → Value
    nil_big : Value

  pub data Values : Type 0 where
    no_values : Values
    value : Value → Values → Values

unfoldable pub count_values : Values → ℕ
count_values no_values = 0
count_values (value v vs) = count_values vs + 1

-- reflect.TypeOf
unfoldable pub type_of : Value → GoType
unfolding count_values
type_of (int_val n z) = go_int n
type_of (uint_val n k) = go_uint n
type_of (big_val z) = go_big
type_of (bool_val b) = go_bool
type_of (string_val s) = go_string
type_of (address_val bs) = go_address
type_of (slice_val t vs) = go_slice t
type_of (array_val t vs) = go_array (count_values vs) t
type_of (struct_val t vs) = t
type_of nil_big = go_big

unfoldable mutual
  pub same_type : GoType → GoType → Bool
  same_type (go_int m) (go_int n) = eqb m n
  same_type (go_uint m) (go_uint n) = eqb m n
  same_type go_big go_big = true
  same_type go_bool go_bool = true
  same_type go_string go_string = true
  same_type go_address go_address = true
  same_type (go_slice s) (go_slice t) = same_type s t
  same_type (go_array m s) (go_array n t) = eqb m n && same_type s t
  same_type (go_struct fs) (go_struct gs) = same_fields fs gs
  same_type _ _ = false

  pub same_fields : GoFields → GoFields → Bool
  same_fields no_go_fields no_go_fields = true
  same_fields (go_field n s fs) (go_field m t gs) = n == m && same_type s t && same_fields fs gs
  same_fields _ _ = false

-- AssignableTo: the same type, or one the underlying type of the other.
unfoldable pub assignable : GoType → GoType → Bool
unfolding same_type
assignable (go_array n (go_uint k)) go_address = eqb n 20 && eqb k 8
assignable go_address (go_array n (go_uint k)) = eqb n 20 && eqb k 8
assignable s t = same_type s t

-- What a function of txn.go ends with; a Go panic is a result of its own.
pub data Run {ℓ} (A : Type ℓ) : Type ℓ where
  done : A → Run A
  fails : Error → Run A
  panicked : Run A

infixl 5 ◌>>=◌
abbrev pub ◌>>=◌ : {A B : Type 0} → Run A → (A → Run B) → Run B
done a >>= f = f a
fails e >>= f = fails e
panicked >>= f = panicked

abbrev pub refuse : {A : Type 0} → ErrorId → Run A
refuse id = fails (errorf id)

-- An argument of a method: its name and its type.
pub record Argument : Type 0 where
  pub name : String
  pub type : AbiType

-- What go-ethereum and Go's libraries do for txn.go: GetType, IsHexAddress, HexToAddress, FromHex,
-- ToHex, NewType and ToLower, the zero value of abi.Type, and the conversion of a float64 that an integer type does not hold.
pub record Library : Type 0 where
  pub get_type : AbiType → GoType
  pub is_hex_address : String → Bool
  pub hex_to_address : String → List ℕ
  pub from_hex : String → List ℕ
  pub to_hex : List ℕ → String
  pub new_type : String → Result AbiType
  pub to_lower : String → String
  pub zero_type : AbiType
  pub int64_overflow : Float64 → ℤ
  pub uint64_overflow : Float64 → ℕ
