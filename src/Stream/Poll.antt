-- ===== src/Stream/Poll.antt =====
-- eventPoller of eventstream.go for the subscriptions of a stream, with subscription.go: filters at
-- the node, where they start, and the checkpoint of the high water marks.
use zeroxyz.Prelude.{
  ℕ, String, List, [], ◌∷◌, ◌++◌, Option, none, some, Bool, true, false, not, ◌&&◌, ◌==◌,
  string_key, if◌then◌else◌,
}
use zeroxyz.Prelude.Int.{ℤ, pos, leb_ℤ}
use zeroxyz.Prelude.ParseInt.{parse_big}
use zeroxyz.Prelude.Maps.{Map, lookup, put, delete}
use zeroxyz.Errors.{ErrorId, Error, errorf}
use zeroxyz.Auth.{Result, ok, err}

-- SubscriptionInfo, as far as the poller and the manager read it. `E` is the event of an ABI.
pub record SubscriptionInfo (E : Type 0) : Type 0 where
  pub id : String
  pub path : String
  pub summary : String
  pub name : String
  pub stream : String
  pub addresses : List String
  pub topics : List String
  pub event : E
  pub from_block : String

-- `subscription`, with `blockHWM` of its log processor.
pub record Subscription (E : Type 0) : Type 0 where
  pub info : SubscriptionInfo E
  pub filter_id : ℕ
  pub filtered_once : Bool
  pub filter_stale : Bool
  pub deleting : Bool
  pub reset_requested : Bool
  pub block_hwm : ℤ

-- What the node answers: eth_blockNumber, eth_newFilter from a block, and eth_getFilterLogs, or
-- eth_getFilterChanges where the argument is true. `not_found` says whether the text of an error
-- contains "filter not found".
pub record FilterNode (L : Type 0) : Type 0 where
  pub block_number : Result ℤ
  pub new_filter : List String → List String → ℤ → Result ℕ
  pub filter_logs : Bool → ℕ → Result (List L)
  pub not_found : Error → Bool

-- What one round leaves of a subscription: it, the checkpoint, and the logs that are processed.
pub record Polled (E L : Type 0) : Type 0 where
  pub subscription : Subscription E
  pub checkpoint : Map String ℤ
  pub logs : List L

unfoldable pub logs_of : {L : Type 0} → Result (List L) → List L
logs_of (err e) = []
logs_of (ok logs) = logs

module _ {E : Type 0} where
  unfoldable pub init_block_hwm : ℤ → Subscription E → Subscription E
  init_block_hwm n sub = record sub { block_hwm = n }

  -- unsubscribe; its error is not looked at.
  unfoldable pub unsubscribe : Bool → Subscription E → Subscription E
  unsubscribe deleting sub = record sub {
    deleting = deleting;
    reset_requested = false;
    filter_stale = true;
  }

  unfoldable pub request_reset : Subscription E → Subscription E
  request_reset sub = record sub { reset_requested = true }

  -- The marks of the subscriptions, as the checkpoint that is stored at the end of a round.
  unfoldable pub record_marks : List (Subscription E) → Map String ℤ → Map String ℤ
  record_marks [] checkpoint = checkpoint
  record_marks (sub ∷ subs) checkpoint =
      record_marks subs (put sub.info.id sub.block_hwm checkpoint)

module _ {E L : Type 0} where
  -- setInitialBlockHeight: an explicit block leaves the mark as it is.
  unfoldable pub set_initial_block_height :
      FilterNode L → Subscription E → Subscription E × Result ℤ
  unfolding init_block_hwm
  set_initial_block_height node sub =
      if not (sub.info.from_block == "") && not (sub.info.from_block == "latest")
      then elim (parse_big sub.info.from_block) [
        | none ↦ (sub, err (errorf ErrorId.event_streams_subscribe_bad_block))
        | some n ↦ (sub, ok n)
      ]
      else elim node.block_number [
        | err e ↦ (sub, err (errorf ErrorId.rpc_call_returned_error))
        | ok n ↦ (init_block_hwm n sub, ok n)
      ]

  unfoldable pub restart_filter : FilterNode L → ℤ → Subscription E → Subscription E × Option Error
  restart_filter node since sub = elim (node.new_filter sub.info.addresses sub.info.topics since) [
    | err e ↦ (sub, some (errorf ErrorId.rpc_call_returned_error))
    | ok id ↦ (record sub { filter_id = id; filtered_once = false; filter_stale = false }, none)
  ]

  -- processNewEvents, up to processLogEntry: the logs that it is called with.
  unfoldable pub process_new_events :
      FilterNode L → Subscription E → Subscription E × Result (List L)
  process_new_events node sub = elim (node.filter_logs sub.filtered_once sub.filter_id) [
    | err e ↦
        (record sub { filter_stale = if node.not_found e then true else sub.filter_stale }, err e)
    | ok logs ↦ (record sub { filtered_once = true }, ok logs)
  ]

  -- Where a filter starts: at the checkpoint if it is positive, or else at the initial block.
  unfoldable pub start_block : FilterNode L → Option ℤ → Subscription E → Subscription E × Result ℤ
  unfolding set_initial_block_height init_block_hwm
  start_block node none sub = set_initial_block_height node sub
  start_block node (some n) sub =
      if leb_ℤ n (pos 0) then set_initial_block_height node sub else (init_block_hwm n sub, ok n)

  unfoldable pub restart_from :
      FilterNode L → Subscription E × Result ℤ → Subscription E × Option Error
  unfolding restart_filter
  restart_from node (sub, err e) = (sub, some e)
  restart_from node (sub, ok since) = restart_filter node since sub

  -- A stale filter is made again, unless the subscription is being deleted.
  unfoldable pub refresh : FilterNode L → Option ℤ → Subscription E → Subscription E × Option Error
  unfolding start_block restart_from
  refresh node checkpoint sub =
      if sub.filter_stale && not sub.deleting
      then restart_from node (start_block node checkpoint sub)
      else (sub, none)

  unfoldable pub collect_logs :
      FilterNode L → Map String ℤ → Subscription E × Option Error → Polled E L
  unfolding process_new_events logs_of
  collect_logs node checkpoint (sub, some e) = record {
    subscription = sub;
    checkpoint = checkpoint;
    logs = [];
  }
  collect_logs node checkpoint (sub, none) =
      let got = process_new_events node sub in
      record { subscription = got.0; checkpoint = checkpoint; logs = logs_of got.1 }

  unfoldable pub poll_from : FilterNode L → Map String ℤ → Subscription E → Polled E L
  unfolding refresh collect_logs
  poll_from node checkpoint sub =
      collect_logs node checkpoint (refresh node (lookup sub.info.id checkpoint) sub)

  -- One subscription in a round of eventPoller.
  unfoldable pub poll : FilterNode L → Map String ℤ → Subscription E → Polled E L
  unfolding unsubscribe poll_from
  poll node checkpoint sub =
      if sub.reset_requested
      then poll_from node (delete sub.info.id checkpoint) (unsubscribe false sub)
      else poll_from node checkpoint sub

  -- All subscriptions of a round, in the order in which they are visited.
  unfoldable pub poll_all :
      FilterNode L
      → Map String ℤ
      → List (Subscription E)
      → List (Subscription E) × (Map String ℤ × List L)
  unfolding poll
  poll_all node checkpoint [] = ([], (checkpoint, []))
  poll_all node checkpoint (sub ∷ subs) =
      let p = poll node checkpoint sub in
      let rest = poll_all node p.checkpoint subs in
      (p.subscription ∷ rest.0, (rest.1.0, p.logs ++ rest.1.1))
