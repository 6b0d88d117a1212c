-- ===== src/Stream/Manager.antt =====
-- subscriptionMGR of submanager.go, over a key-value store.
use Prim.Native.String.{◌++◌ as append}
use text.Mathlib.Text.{starts_with}
use zeroxyz.Prelude.{String, List, [], ◌∷◌, Option, none, some, ◌==◌, string_key, if◌then◌else◌}
use zeroxyz.Prelude.Int.{ℤ}
use zeroxyz.Prelude.Maps.{Map, lookup, put, delete}
use zeroxyz.Errors.{ErrorId, Error, errorf, external}
use zeroxyz.Auth.{Result, ok, err}
use zeroxyz.Stream.Spec.{StreamInfo, Texts, new_event_stream}
use zeroxyz.Stream.Poll.{SubscriptionInfo, Subscription, request_reset}
use zeroxyz.Stream.Kv.{KvStore}
use zeroxyz.Stream.Subscriptions.{
  Stored, stored_stream, stored_subscription, stored_checkpoint, EventAbi, persisted,
  set_initial_block, new_subscription, restore_subscription,
}

pub record Manager (S E : Type 0) : Type 0 where
  pub db : S
  pub subscriptions : Map String (Subscription E)
  pub streams : Map String StreamInfo

module _ {S E : Type 0} where
  -- An error leaves the manager as it is.
  unfoldable pub if_ok :
      {A : Type 0}
      → Manager S E
      → Result A
      → (A → Manager S E × Option Error)
      → Manager S E × Option Error
  if_ok m (err e) f = (m, some e)
  if_ok m (ok a) f = f a

  unfoldable pub if_found :
      {A : Type 0}
      → Manager S E
      → ErrorId
      → Option A
      → (A → Manager S E × Option Error)
      → Manager S E × Option Error
  if_found m id none f = (m, some (errorf id))
  if_found m id (some a) f = f a

  unfoldable pub if_stored :
      Manager S E × Option Error → (Manager S E → Manager S E) → Manager S E × Option Error
  if_stored (m, some e) f = (m, some e)
  if_stored (m, none) f = (f m, none)

module _ {S E : Type 0} (kv : KvStore S (Stored E)) (abi : EventAbi E) where
  unfoldable pub store_subscription : SubscriptionInfo E → Manager S E → Manager S E × Option Error
  unfolding persisted
  store_subscription info m =
      let put_ = kv.store info.id (stored_subscription (persisted info)) m.db in
      (
        record m { db = put_.0 },
        elim put_.1 [
          | none ↦ none
          | some e ↦ some (errorf ErrorId.event_streams_subscribe_store_failed)
        ],
      )

  -- AddSubscription under a new identifier; it is kept in memory before it is stored.
  unfoldable pub keep_new : Result (Subscription E) → Manager S E → Manager S E × Option Error
  unfolding store_subscription
  keep_new (err e) m = (m, some e)
  keep_new (ok sub) m =
      store_subscription sub.info (record m { subscriptions = put sub.info.id sub m.subscriptions })

  unfoldable pub add_subscription :
      (id : String)
      → Option String
      → E
      → (stream initial name : String) → Manager S E
      → Manager S E × Option Error
  unfolding set_initial_block new_subscription keep_new
  add_subscription id addr event stream initial name m =
      let info : SubscriptionInfo E = record {
        id = id;
        path = append "/subscriptions/" id;
        summary = "";
        name = name;
        stream = stream;
        addresses = [];
        topics = [];
        event = event;
        from_block = "";
      } in
      if_ok m (set_initial_block abi initial info)
        (λ info. keep_new (new_subscription abi m.streams addr info) m)

  -- The object of a subscription is changed where it stands in the map.
  unfoldable pub set_subscription : Subscription E → Manager S E → Manager S E
  set_subscription sub m = record m { subscriptions = put sub.info.id sub m.subscriptions }

  unfoldable pub reset_found :
      Subscription E → Result (SubscriptionInfo E) → Manager S E → Manager S E × Option Error
  unfolding store_subscription set_subscription
  reset_found sub (err e) m = (m, some e)
  reset_found sub (ok info) m =
      let changed = record sub { info = info } in
      let stored = store_subscription info (set_subscription changed m) in
      if_stored stored (set_subscription (request_reset changed))

  unfoldable pub reset_subscription :
      String → (initial : String) → Manager S E → Manager S E × Option Error
  unfolding set_initial_block reset_found
  reset_subscription id initial m =
      if_found m ErrorId.event_streams_subscription_not_found (lookup id m.subscriptions)
        (λ sub. reset_found sub (set_initial_block abi initial sub.info) m)

  unfoldable pub delete_found : Subscription E → Manager S E → Manager S E × Option Error
  delete_found sub m =
      let removed = kv.remove sub.info.id m.db in
      (record m { db = removed.0; subscriptions = delete sub.info.id m.subscriptions }, removed.1)

  unfoldable pub delete_subscription : String → Manager S E → Manager S E × Option Error
  unfolding delete_found
  delete_subscription id m =
      if_found m ErrorId.event_streams_subscription_not_found (lookup id m.subscriptions)
        (λ sub. delete_found sub m)

  unfoldable pub subscriptions_for_stream :
      String → Map String (Subscription E) → List (Subscription E)
  subscriptions_for_stream id [] = []
  subscriptions_for_stream id ((k, sub) ∷ subs) =
      let rest = subscriptions_for_stream id subs in
      if sub.info.stream == id then sub ∷ rest else rest

  unfoldable pub delete_all : List (Subscription E) → Manager S E → Manager S E
  unfolding delete_found
  delete_all [] m = m
  delete_all (sub ∷ subs) m = delete_all subs (delete_found sub m).0

  abbrev pub checkpoint_id : String → String
  checkpoint_id stream = append "cp-" stream

  -- DeleteStream; the errors of its subscriptions and of its checkpoint are not looked at.
  unfoldable pub delete_stream : String → Manager S E → Manager S E × Option Error
  unfolding subscriptions_for_stream delete_all
  delete_stream id m = elim (lookup id m.streams) [
    | none ↦ (m, some (errorf ErrorId.event_streams_stream_not_found))
    | some spec ↦
        let cleared = delete_all (subscriptions_for_stream spec.id m.subscriptions) m in
        let removed = kv.remove spec.id cleared.db in
        let left : Manager S E = record cleared {
          db = removed.0;
          streams = delete spec.id cleared.streams;
        } in
        elim removed.1 [
          | some e ↦ (left, some e)
          | none ↦ (record left { db = (kv.remove (checkpoint_id spec.id) left.db).0 }, none)
        ]
  ]

  unfoldable pub load_checkpoint : String → Manager S E → Result (Map String ℤ)
  load_checkpoint stream m = elim (kv.load (checkpoint_id stream) m.db) [
    | err e ↦ err e
    | ok none ↦ ok []
    | ok (some (stored_checkpoint cp)) ↦ ok cp
    | ok (some _) ↦ err (external "json")
  ]

  unfoldable pub store_checkpoint : String → Map String ℤ → Manager S E → Manager S E × Option Error
  store_checkpoint stream cp m =
      let stored = kv.store (checkpoint_id stream) (stored_checkpoint cp) m.db in
      (record m { db = stored.0 }, stored.1)

  -- recoverSubscriptions, over what the iterator goes through.
  unfoldable pub recover_subscriptions : List (String × Stored E) → Manager S E → Manager S E
  unfolding restore_subscription
  recover_subscriptions [] m = m
  recover_subscriptions ((k, stored_subscription info) ∷ rows) m =
      let kept : Manager S E = elim (restore_subscription abi m.streams info) [
        | err e ↦ m
        | ok sub ↦ record m { subscriptions = put info.id sub m.subscriptions }
      ] in
      let skipped = recover_subscriptions rows m in
      let recovered = recover_subscriptions rows kept in
      if starts_with k "sb-" then recovered else skipped
  recover_subscriptions ((k, _) ∷ rows) m = recover_subscriptions rows m

  -- recoverStreams
  unfoldable pub recover_streams : Texts → List (String × Stored E) → Manager S E → Manager S E
  unfolding new_event_stream
  recover_streams texts [] m = m
  recover_streams texts ((k, stored_stream info) ∷ rows) m =
      let kept : Manager S E = elim (new_event_stream texts (some info)) [
        | err e ↦ m
        | ok spec ↦ record m { streams = put info.id spec m.streams }
      ] in
      let skipped = recover_streams texts rows m in
      let recovered = recover_streams texts rows kept in
      if starts_with k "es-" then recovered else skipped
  recover_streams texts ((k, _) ∷ rows) m = recover_streams texts rows m

  -- What a client may ask of the subscriptions.
  pub data Change : Type 0 where
    add : (id : String) → Option String → E → (stream initial name : String) → Change
    reset : (id initial : String) → Change
    remove_subscription : (id : String) → Change

  unfoldable pub change : Change → Manager S E → Manager S E × Option Error
  unfolding add_subscription reset_subscription delete_subscription
  change (add id addr event stream initial name) m =
      add_subscription id addr event stream initial name m
  change (reset id initial) m = reset_subscription id initial m
  change (remove_subscription id) m = delete_subscription id m
