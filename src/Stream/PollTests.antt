-- ===== src/Stream/PollTests.antt =====
-- Runs of the poller and of the subscription manager on concrete subscriptions.
use zeroxyz.Prelude.{String, [], ◌∷◌, none, some, true, false, ◌≡◌, refl, string_key}
use zeroxyz.Prelude.Int.{pos}
use zeroxyz.Prelude.ParseInt.{parse_big}
use zeroxyz.Prelude.Maps.{lookup}
use zeroxyz.Errors.{external}
use zeroxyz.Auth.{ok, err}
use zeroxyz.Stream.Spec.{StreamInfo}
use zeroxyz.Stream.Poll.{Subscription, FilterNode, record_marks, start_block, poll}
use zeroxyz.Stream.Kv.{MockKv, mock_kv, mock_kv-IsStore}
use zeroxyz.Stream.Subscriptions.{Stored, EventAbi}
use zeroxyz.Stream.Manager.{Manager, Change, add, change, if_ok}
use zeroxyz.Stream.Mirrors.{Mirrors, change-Mirrors}
use zeroxyz.Stream.Resets.{poll_reset_keeps_mark, poll_after_lost_filter}

abbrev transfers : Subscription String
transfers = record {
  info = record {
    id = "sb-1";
    path = "/subscriptions/sb-1";
    summary = "";
    name = "transfers";
    stream = "es-1";
    addresses = [];
    topics = [];
    event = "Transfer";
    from_block = "5";
  };
  filter_id = 7;
  filtered_once = true;
  filter_stale = false;
  deleting = false;
  reset_requested = true;
  block_hwm = pos 100;
}

abbrev node : FilterNode String
node = record {
  block_number = ok (pos 120);
  new_filter = λ addresses topics since. ok 8;
  filter_logs = λ once id. ok ("a" ∷ "b" ∷ []);
  not_found = λ e. true;
}

from_five : parse_big "5" ≡ some (pos 5)
unfolding parse_big
from_five = refl

poll_reset_keeps_mark_example :
    let p = poll node [] transfers in
    let stored = record_marks (p.subscription ∷ []) p.checkpoint in
    (p.logs ≡ "a" ∷ "b" ∷ [])
    × (p.subscription.reset_requested ≡ false)
    × (lookup "sb-1" stored ≡ some (pos 100))
    × ((start_block node (lookup "sb-1" stored) transfers).1 ≡ ok (pos 100))
poll_reset_keeps_mark_example =
    poll_reset_keeps_mark node node [] transfers transfers (pos 5) 8 ("a" ∷ "b" ∷ []) refl (λ e. cc)
      (λ e. cc) from_five refl refl refl

abbrev running : Subscription String
running = record transfers { reset_requested = false }

-- A node that has lost its filters.
abbrev restarted : FilterNode String
restarted = record node { filter_logs = λ once id. err (external "filter not found") }

poll_after_lost_filter_example :
    let first = poll restarted [] running in
    let second =
      poll node (record_marks (first.subscription ∷ []) first.checkpoint) first.subscription in
    (first.logs ≡ [])
    × (second.logs ≡ "a" ∷ "b" ∷ [])
    × (second.subscription.filter_stale ≡ false)
    × (second.subscription.block_hwm ≡ pos 100)
poll_after_lost_filter_example =
    poll_after_lost_filter restarted node [] running (external "filter not found") 8
      ("a" ∷ "b" ∷ []) refl refl refl refl refl refl refl refl

abbrev abi : EventAbi String
abi = record {
  event_of = λ e. ok (record { signature = e; name = e; topic = e });
  read_block = parse_big;
}

abbrev stream : StreamInfo
stream = record {
  id = "es-1";
  name = "";
  path = "";
  suspended = false;
  action_type = "webhook";
  batch_size = 1;
  batch_timeout_ms = 5000;
  error_handling = "skip";
  retry_timeout_sec = 0;
  blocked_retry_delay_sec = 30;
  webhook = none;
  timestamps = false;
}

abbrev manager : Manager (MockKv (Stored String)) String
manager = record {
  db = record { kvs = []; store_err = none; load_err = none; delete_err = none };
  subscriptions = [];
  streams = ("es-1", stream) ∷ [];
}

abbrev added : Change mock_kv abi
added = add "sb-1" none "Transfer" "es-1" "0" ""

manager-Mirrors : Mirrors mock_kv manager
unfolding Mirrors lookup
manager-Mirrors id sub h = absurd (cc)

added_right : (change mock_kv abi added manager).1 ≡ none
unfolding change if_ok lookup mock_kv parse_big
added_right = refl

change-Mirrors_example : Mirrors mock_kv (change mock_kv abi added manager).0
change-Mirrors_example =
    change-Mirrors mock_kv abi added manager (mock_kv-IsStore (Stored String)) manager-Mirrors
      added_right
