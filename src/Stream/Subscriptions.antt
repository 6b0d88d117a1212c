-- ===== src/Stream/Subscriptions.antt =====
-- newSubscription and restoreSubscription of subscription.go, and what submanager.go stores.
use Prim.Native.String.{◌++◌ as append}
use zeroxyz.Prelude.{
  String, List, [], ◌∷◌, Option, none, some, true, false, ◌||◌, ◌==◌, string_key, if◌then◌else◌,
}
use zeroxyz.Prelude.Int.{ℤ, pos}
use zeroxyz.Prelude.Decimal.{decimal_ℤ}
use zeroxyz.Prelude.Maps.{Map, lookup}
use zeroxyz.Errors.{ErrorId, errorf}
use zeroxyz.Auth.{Result, ok, err}
use zeroxyz.Stream.Spec.{StreamInfo}
use zeroxyz.Stream.Poll.{SubscriptionInfo, Subscription}

-- What is stored, as JSON keeps it.
pub data Stored (E : Type 0) : Type 0 where
  stored_stream : StreamInfo → Stored E
  stored_subscription : SubscriptionInfo E → Stored E
  stored_checkpoint : Map String ℤ → Stored E

-- An event of an ABI: its signature, its name and its topic.
pub record EventInfo : Type 0 where
  pub signature : String
  pub name : String
  pub topic : String

-- ABIElementMarshalingToABIEvent with ABIEventSignature, and SetString of big.Int in any base.
pub record EventAbi (E : Type 0) : Type 0 where
  pub event_of : E → Result EventInfo
  pub read_block : String → Option ℤ

abbrev address_of : Option String → String
address_of none = "*"
address_of (some a) = a

abbrev addresses_of : Option String → List String → List String
addresses_of none old = old
addresses_of (some a) old = a ∷ []

module _ {E : Type 0} where
  -- The JSON of a subscription leaves out its summary.
  unfoldable pub persisted : SubscriptionInfo E → SubscriptionInfo E
  persisted info = record info { summary = "" }

  unfoldable pub set_initial_block :
      EventAbi E → String → SubscriptionInfo E → Result (SubscriptionInfo E)
  set_initial_block abi initial info =
      if (initial == "") || (initial == "latest")
      then ok (record info { from_block = "latest" })
      else elim (abi.read_block initial) [
        | none ↦ err (errorf ErrorId.event_streams_subscribe_bad_block)
        | some n ↦ ok (record info { from_block = decimal_ℤ n })
      ]

  -- The runtime of a subscription: stale, with no mark.
  unfoldable pub runtime : SubscriptionInfo E → Subscription E
  runtime info = record {
    info = info;
    filter_id = 0;
    filtered_once = false;
    filter_stale = true;
    deleting = false;
    reset_requested = false;
    block_hwm = pos 0;
  }

  unfoldable pub summarised :
      Option String → SubscriptionInfo E → EventInfo → Result (Subscription E)
  unfolding runtime
  summarised addr info event =
      let summary = append (append (address_of addr) ":") event.signature in
      if event.name == ""
      then err (errorf ErrorId.event_streams_subscribe_no_event)
      else ok (
          runtime (record info {
            summary = summary;
            name = if info.name == "" then summary else info.name;
            addresses = addresses_of addr info.addresses;
            topics = event.topic ∷ [];
          }))

  unfoldable pub new_subscription :
      EventAbi E
      → Map String StreamInfo
      → Option String
      → SubscriptionInfo E
      → Result (Subscription E)
  unfolding summarised
  new_subscription abi streams addr info = elim (lookup info.stream streams) [
    | none ↦ err (errorf ErrorId.event_streams_stream_not_found)
    | some s ↦ elim (abi.event_of info.event) [
      | err e ↦ err e
      | ok event ↦ summarised addr info event
    ]
  ]

  unfoldable pub restore_subscription :
      EventAbi E → Map String StreamInfo → SubscriptionInfo E → Result (Subscription E)
  unfolding runtime
  restore_subscription abi streams info =
      if info.id == ""
      then err (errorf ErrorId.event_streams_no_id)
      else elim (lookup info.stream streams) [
        | none ↦ err (errorf ErrorId.event_streams_stream_not_found)
        | some s ↦ elim (abi.event_of info.event) [ err e ↦ err e | ok event ↦ ok (runtime info) ]
      ]
