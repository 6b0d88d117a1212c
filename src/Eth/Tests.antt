-- ===== src/Eth/Tests.antt =====
-- A simple library that meets what is documented of go-ethereum, and runs of the code of txn.go and send.go.
use zeroxyz.Prelude.{
  ℕ, ◌%◌, ◌^◌, All, length, ◌<◌, ◌*◌, String, List, [], ◌∷◌, none, some, true, false, ◌≡◌, ◌≢◌,
  refl, ap, arith, ◌↔◌, if◌then◌else◌,
}
use zeroxyz.Prelude.Int.{pos, negsuc}
use zeroxyz.Prelude.ParseInt.{parse_int, parse_big}
use zeroxyz.Txn.Reply.{uint64_of_int64}
use zeroxyz.Auth.{ok}
use zeroxyz.Eth.Types.{
  AbiType, int_ty, uint_ty, fixed_bytes_ty, bool_ty, string_ty, address_ty, bytes_ty, other_ty,
  slice_ty, array_ty, tuple_ty, Elems, no_elems, elem, Param, boolean, text, items, members, Params,
  no_params, param, Members, no_members, member, GoType, go_int, go_uint, go_big, go_bool,
  go_string, go_address, go_slice, go_array, go_struct, GoFields, no_go_fields, go_field, Value,
  int_val, bool_val, big_val, slice_val, no_values, value, Argument, done, panicked, Library,
}
use zeroxyz.Eth.Numbers.{is_word}
use zeroxyz.Eth.Args.{generate_typed_arg, count_params, find_member}
use zeroxyz.Eth.Params.{inline_object, generate_typed_args}
use zeroxyz.Eth.Outputs.{map_output}
use zeroxyz.Eth.Fits.{IsDocumented, go_field_types, Fits, IsTyped}
use zeroxyz.Eth.Sound.{generate_typed_arg-IsTyped}
use zeroxyz.Eth.Panics.{IsSafe, generate_typed_arg-IsSafe, Converts, generate_typed_arg-array}
use zeroxyz.Eth.HexText.{byte_texts, text_bytes, text_bytes-byte_texts}
use zeroxyz.Eth.RoundTrip.{IsByte, IsHexLibrary, IsValue, generate_typed_arg-map_output}
use zeroxyz.Eth.Arguments.{Matches, generate_typed_args_iff, generate_typed_args_behind}
use zeroxyz.Eth.Send.{
  Txn, Request, eth_send_transaction, Node, tx_args, is_revert, error_string_len, call_reply,
  request_of,
}
use zeroxyz.Eth.Submit.{IsKept, request_of-IsKept}
use zeroxyz.Eth.Revert.{Overflows, call_reply_panics}
use zeroxyz.Eth.Build.{str_to_bytes, new_tx, new_nil_tx}
use zeroxyz.Eth.NilTx.{new_nil_tx-decimal_ℤ}

unfoldable mutual
  go_type_of : AbiType → GoType
  go_type_of (int_ty n) = if is_word n then go_int n else go_big
  go_type_of (uint_ty n) = if is_word n then go_uint n else go_big
  go_type_of bool_ty = go_bool
  go_type_of string_ty = go_string
  go_type_of address_ty = go_address
  go_type_of bytes_ty = go_slice (go_uint 8)
  go_type_of (fixed_bytes_ty n) = go_array n (go_uint 8)
  go_type_of (slice_ty t) = go_slice (go_type_of t)
  go_type_of (array_ty n t) = go_array n (go_type_of t)
  go_type_of (tuple_ty fs) = go_struct (go_types_of fs)
  go_type_of other_ty = go_string

  go_types_of : Elems → GoFields
  go_types_of no_elems = no_go_fields
  go_types_of (elem n t fs) = go_field n (go_type_of t) (go_types_of fs)

go_types_of-map : (fs : Elems) → go_types_of fs ≡ go_field_types go_type_of fs
unfolding go_type_of
go_types_of-map no_elems = refl
go_types_of-map (elem n t fs) = ap (go_field n (go_type_of t)) (go_types_of-map fs)

-- It knows one type by name, and reads hexadecimal texts of bytes.
abbrev lib : Library
lib = record {
  get_type = go_type_of;
  is_hex_address = λ s. true;
  hex_to_address = text_bytes;
  from_hex = text_bytes;
  to_hex = byte_texts;
  new_type = λ s. ok (uint_ty 256);
  to_lower = λ s. s;
  zero_type = int_ty 0;
  int64_overflow = λ f. pos 0;
  uint64_overflow = λ f. 0;
}

lib-IsDocumented : IsDocumented lib
unfolding go_type_of
lib-IsDocumented = record {
  int_word = λ n w. simp (w, if◌then◌else◌) refl;
  int_other = λ n w. simp (w, if◌then◌else◌) refl;
  uint_word = λ n w. simp (w, if◌then◌else◌) refl;
  uint_other = λ n w. simp (w, if◌then◌else◌) refl;
  bools = refl;
  strings = refl;
  addresses = refl;
  bytes = refl;
  fixed_bytes = λ n. refl;
  slices = λ t. refl;
  arrays = λ n t. refl;
  tuples = λ fs. ap go_struct (go_types_of-map fs);
}

address_bytes : (bs : List ℕ) → length bs ≡ 20 → All IsByte bs → text_bytes (byte_texts bs) ≡ bs
address_bytes [] l y = absurd (omega (arith, l))
address_bytes (b ∷ bs) l y = text_bytes-byte_texts b bs y

lib-IsHexLibrary : IsHexLibrary lib
lib-IsHexLibrary = record {
  from_to = text_bytes-byte_texts;
  is_address = λ bs l. refl;
  address = address_bytes;
}

-- 300 does not fit into an int8 and is wrapped.
abbrev wrapped : Value
wrapped = slice_val (go_int 8) (value (int_val 8 (pos 44)) no_values)

wrapped_typed :
    generate_typed_arg lib (slice_ty (int_ty 8)) (items (param (text "300") no_params))
    ≡ done wrapped
unfolding generate_typed_arg go_type_of parse_int
wrapped_typed = refl

generate_typed_arg-IsTyped_example : Fits lib (slice_ty (int_ty 8)) wrapped × IsTyped wrapped
generate_typed_arg-IsTyped_example =
    generate_typed_arg-IsTyped lib (slice_ty (int_ty 8)) (items (param (text "300") no_params))
      wrapped lib-IsDocumented wrapped_typed

abbrev pairs : AbiType
pairs = slice_ty (tuple_ty (elem "to" address_ty (elem "amount" (uint_ty 256) no_elems)))

pairs-IsSafe : IsSafe pairs
unfolding IsSafe
pairs-IsSafe = (refl, (tt, (tt, tt)))

generate_typed_arg-IsSafe_example :
    generate_typed_arg lib pairs (items (param (boolean true) no_params)) ≢ panicked
generate_typed_arg-IsSafe_example =
    generate_typed_arg-IsSafe lib pairs (items (param (boolean true) no_params)) lib-IsDocumented
      pairs-IsSafe

abbrev two_flags : Params
two_flags = param (boolean true) (param (boolean false) no_params)

two_flags-Converts : Converts lib bool_ty two_flags
unfolding Converts generate_typed_arg
two_flags-Converts = ((bool_val true, refl), ((bool_val false, refl), tt))

two_flags_count : 1 < count_params two_flags
unfolding count_params
two_flags_count = omega arith

generate_typed_arg-array_example :
    generate_typed_arg lib (array_ty 1 bool_ty) (items two_flags) ≡ panicked
generate_typed_arg-array_example =
    generate_typed_arg-array lib 1 bool_ty two_flags lib-IsDocumented two_flags-Converts
      two_flags_count

abbrev small_numbers : Value
small_numbers =
    slice_val (go_int 8) (value (int_val 8 (negsuc 4)) (value (int_val 8 (pos 127)) no_values))

small_numbers-IsValue : IsValue lib (slice_ty (int_ty 8)) small_numbers
unfolding IsValue go_type_of
small_numbers-IsValue = (refl, ((refl, refl, omega arith), ((refl, refl, omega arith), tt)))

generate_typed_arg-map_output_example :
    (p : Param) × (map_output lib (slice_ty (int_ty 8)) small_numbers ≡ done p)
    × (generate_typed_arg lib (slice_ty (int_ty 8)) p ≡ done small_numbers)
generate_typed_arg-map_output_example =
    generate_typed_arg-map_output lib (slice_ty (int_ty 8)) small_numbers lib-IsDocumented
      lib-IsHexLibrary small_numbers-IsValue

abbrev amount : List Argument
amount = record { name = "amount"; type = uint_ty 256 } ∷ []

seven_plain : inline_object 0 amount (text "7") ≡ none
unfolding inline_object
seven_plain = refl

generate_typed_args_iff_example :
    (generate_typed_args lib (text "7" ∷ []) amount ≡ done (big_val (pos 7) ∷ [], amount))
    ↔ ((amount ≡ amount) × Matches lib amount (text "7" ∷ []) (big_val (pos 7) ∷ []))
generate_typed_args_iff_example =
    generate_typed_args_iff lib (text "7" ∷ []) amount amount (big_val (pos 7) ∷ [])
      (seven_plain, tt)

abbrev nine : Members
nine = member "value" (text "9") (member "type" (text "uint256") no_members)

nine_value : find_member "value" nine ≡ some (text "9")
unfolding find_member
nine_value = refl

nine_type : find_member "type" nine ≡ some (text "uint256")
unfolding find_member
nine_type = refl

big_typed : generate_typed_arg lib (uint_ty 256) (text "9") ≡ done (big_val (pos 9))
unfolding generate_typed_arg parse_big
big_typed = refl

seven-Matches : Matches lib amount (text "7" ∷ []) (big_val (pos 7) ∷ [])
unfolding Matches generate_typed_arg parse_big
seven-Matches = (refl, tt)

generate_typed_args_behind_example :
    generate_typed_args lib (text "7" ∷ members nine ∷ []) amount
    ≡ done (
      big_val (pos 7) ∷ big_val (pos 9) ∷ [],
      record { name = "amount"; type = uint_ty 256 }
          ∷ record { name = ""; type = uint_ty 256 }
          ∷ [],
    )
generate_typed_args_behind_example =
    generate_typed_args_behind lib (text "7" ∷ []) amount (big_val (pos 7) ∷ []) nine (text "9")
      "uint256" (uint_ty 256) (big_val (pos 9)) (seven_plain, tt) seven-Matches nine_value nine_type
      refl big_typed

abbrev private_tx : Txn
private_tx = record {
  node_assign_nonce = false;
  from = [];
  eth_tx = record {
    nonce = 3;
    to = none;
    value = pos 0;
    gas = 100;
    gas_price = pos 0;
    data_bytes = [];
  };
  hash = "";
  private_from = "a";
  private_for = "b" ∷ [];
  privacy_group_id = "";
  signer = none;
}

abbrev private_request : Request
private_request = eth_send_transaction (record {
  nonce = some 3;
  from = [];
  to = none;
  gas = none;
  gas_price = pos 0;
  value = pos 0;
  data_bytes = [];
  private_from = "a";
  private_for = "b" ∷ [];
  privacy_group_id = "";
  restriction = "";
})

private_requested : request_of private_tx (tx_args private_tx) ≡ ok private_request
unfolding request_of tx_args
private_requested = refl

no_recipients : (tx_args private_tx).private_for ≡ []
unfolding tx_args
no_recipients = refl

request_of-IsKept_example : IsKept private_tx private_request
request_of-IsKept_example =
    request_of-IsKept private_tx (tx_args private_tx) private_request no_recipients
      private_requested

abbrev node : Node
node = record {
  submit = λ r. ("", none);
  estimate_gas = λ a. ok 21000;
  call = λ a b. ok "0x";
  scale_gas = λ g. g * 6;
  undefined_length = λ s. 0;
}

-- A revert that declares a message of 2 ^ 63 - 1 bytes.
abbrev long_revert : String
long_revert =
    "0x08c379a000000000000000000000000000000000000000000000000000000000000000200000000000000000000000000000000000000000000000007fffffffffffffff6161"

long_revert_panics : call_reply lib node long_revert ≡ panicked
unfolding call_reply
long_revert_panics = refl

call_reply_panics_example :
    (call_reply lib node long_revert ≡ panicked)
    ↔ ((is_revert long_revert ≡ true) × Overflows (error_string_len node long_revert % 2 ^ 64))
call_reply_panics_example = call_reply_panics lib node long_revert

address_read : str_to_bytes lib "0x0a" ≡ done (10 ∷ [])
unfolding str_to_bytes text_bytes
address_read = refl

new_nil_tx-decimal_ℤ_example :
    new_nil_tx lib "0x0a" (pos 5) none
    ≡ done (
        new_tx none (
          10 ∷ [],
          record {
            nonce = 5;
            to = some (10 ∷ []);
            value = pos 0;
            gas = 90000;
            gas_price = pos 0;
            data_bytes = [];
          },
        ))
unfolding uint64_of_int64
new_nil_tx-decimal_ℤ_example =
    new_nil_tx-decimal_ℤ lib "0x0a" (pos 5) none (10 ∷ []) (omega arith) (omega arith) (λ e. cc)
      address_read
