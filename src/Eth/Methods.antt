-- ===== src/Eth/Methods.antt =====
-- The ABI of a message and that of go-ethereum: internal/maidenlanebind/typeutils.go.
use Prim.Native.String.{String}
use zeroxyz.Prelude.{ℕ, List, [], ◌∷◌, Option, Bool, string_key}
use zeroxyz.Prelude.Int.{ℤ}
use zeroxyz.Errors.{Error}
use zeroxyz.Auth.{Result, ok, err}
use zeroxyz.Eth.Types.{AbiType, Value, Argument, Run, done, fails, ◌>>=◌}

-- ABIArgumentMarshaling, with its components.
mutual
  pub data ArgumentMarshaling : Type 0 where
    argument : (name type internal : String) (indexed : Bool) → Components → ArgumentMarshaling

  pub data Components : Type 0 where
    no_components : Components
    component : ArgumentMarshaling → Components → Components

-- ABIElementMarshaling, as far as a method is built from it.
pub record ElementMarshaling : Type 0 where
  pub name : String
  pub inputs : List ArgumentMarshaling
  pub outputs : List ArgumentMarshaling

pub record Method : Type 0 where
  pub raw_name : String
  pub id : List ℕ
  pub inputs : List Argument
  pub outputs : List Argument

-- What go-ethereum and the compiler do here: NewType, the identifier of a method by NewMethod, Pack,
-- UnpackValues, EncodeBig, and the byte code with the inputs of the constructor, from the message's
-- own parts or from Solidity.
pub record Abi (Source : Type 0) : Type 0 where
  pub new_type_of : ArgumentMarshaling → Result AbiType
  pub method_id : String → List Argument → List ℕ
  pub pack : List Argument → List Value → Result (List ℕ)
  pub unpack_values : List Argument → List ℕ → Option (List Value) × Option Error
  pub encode_big : ℤ → String
  pub compile : Source → Result (List ℕ × List ElementMarshaling)
  pub constructor_inputs : List ElementMarshaling → Result (List Argument)

module _ {Source : Type 0} where
  -- ABIArgumentsMarshalingToABIArguments
  unfoldable pub abi_arguments : Abi Source → List ArgumentMarshaling → Run (List Argument)
  abi_arguments abi [] = done []
  abi_arguments abi (argument name type internal indexed cs ∷ ms) =
      let rest = abi_arguments abi ms in
      elim (abi.new_type_of (argument name type internal indexed cs)) [
        | err e ↦ fails e
        | ok t ↦ do args ← rest; done (record { name = name; type = t } ∷ args)
      ]

  -- ABIElementMarshalingToABIMethod
  unfoldable pub abi_method : Abi Source → ElementMarshaling → Run Method
  unfolding abi_arguments
  abi_method abi m = do
    inputs ← abi_arguments abi m.inputs
    outputs ← abi_arguments abi m.outputs
    done (record {
      raw_name = m.name;
      id = abi.method_id m.name inputs;
      inputs = inputs;
      outputs = outputs;
    })
