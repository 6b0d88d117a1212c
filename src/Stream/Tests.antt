-- ===== src/Stream/Tests.antt =====
-- An event stream on concrete events.
use zeroxyz.Prelude.{
  ℕ, ◌+◌, ◌%◌, ◌^◌, List, [], ◌∷◌, ◌++◌, none, some, true, false, ◌≡◌, refl, length, string_key,
}
use zeroxyz.Prelude.Maps.{lookup, put}
use zeroxyz.Errors.{ErrorId, errorf}
use zeroxyz.Auth.{ok}
use zeroxyz.Stream.Spec.{Texts, StreamInfo, WebhookAction, new_event_stream, update_spec}
use zeroxyz.Stream.State.{EventData, waiting, EventStream}
use zeroxyz.Stream.Steps.{
  waits_with_lock, Action, work, resume, start_update, finish_update, step, acknowledge, hwm_of,
}
use zeroxyz.Stream.Holds.{Move, takes, works, held, counted_events, IsRunning, IsCounted}
use zeroxyz.Stream.Order.{run, all_arrived, all_settled, deliver_in_order, count_in_flight}
use zeroxyz.Stream.Sound.{IsSound, new_event_stream-IsSound, update_spec-IsSound}
use zeroxyz.Stream.Marks.{raised, last_of, hwm_of-acknowledge}
use zeroxyz.Stream.Updates.{start_update_loses, steps, IsIdle, failed_update_locks}

abbrev texts : Texts
texts = record { to_lower = λ s. s; url_parses = λ s. true }

abbrev hook : WebhookAction
hook = record {
  url = "http://hook";
  headers = [];
  tls_skip_host_verify = false;
  request_timeout_sec = 5;
}

abbrev spec : StreamInfo
spec = record {
  id = "es-1";
  name = "";
  path = "/es-1";
  suspended = false;
  action_type = "webhook";
  batch_size = 2;
  batch_timeout_ms = 5000;
  error_handling = "block";
  retry_timeout_sec = 0;
  blocked_retry_delay_sec = 30;
  webhook = some hook;
  timestamps = false;
}

abbrev fresh : EventStream
fresh = record {
  spec = spec;
  stopped = false;
  update_in_progress = false;
  interrupted = false;
  dispatching = true;
  in_flight = 0;
  batch_queue = [];
  batch_count = 0;
  current_batch = [];
  phase = waiting;
  block_hwm = [];
}

abbrev event : ℕ → EventData
event n = record { sub_id = "sb-1"; block_number = n; log_index = "0" }

fresh-IsRunning : IsRunning fresh
fresh-IsRunning = record { active = refl; undisturbed = refl; dispatched = refl }

fresh-IsCounted : IsCounted fresh
unfolding counted_events
fresh-IsCounted = record { counts = refl }

-- Three events arrive, the first two fill a batch that the receiver first refuses, then takes.
abbrev moves : List Move
moves =
    takes (event 7)
    ∷ takes (event 8)
    ∷ works none
    ∷ takes (event 9)
    ∷ works (some (errorf ErrorId.event_streams_webhook_failed_http_status))
    ∷ works none
    ∷ works none
    ∷ works none
    ∷ []

abbrev after : EventStream
after = record fresh {
  in_flight = 1;
  batch_count = 1;
  current_batch = event 9 ∷ [];
  block_hwm = ("sb-1", 9) ∷ [];
}

runs : run moves fresh ≡ some after
unfolding step lookup put
runs = refl

deliver_in_order_example : held fresh ++ all_arrived moves ≡ all_settled moves fresh ++ held after
deliver_in_order_example = deliver_in_order moves fresh after fresh-IsRunning runs

count_in_flight_example : IsCounted after
count_in_flight_example = count_in_flight moves fresh after fresh-IsRunning fresh-IsCounted runs

starts : new_event_stream texts (some spec) ≡ ok spec
unfolding new_event_stream
starts = refl

new_event_stream-IsSound_example : IsSound spec
new_event_stream-IsSound_example = new_event_stream-IsSound texts (some spec) spec starts

update_spec-IsSound_example : IsSound (update_spec texts spec (record spec { batch_size = 9 })).0
update_spec-IsSound_example =
    update_spec-IsSound texts spec (record spec { batch_size = 9 })
      (new_event_stream-IsSound texts (some spec) spec starts)

hwm_of-acknowledge_example :
    hwm_of "sb-1" (acknowledge (event 7 ∷ event 8 ∷ []) fresh).block_hwm
    ≡ raised (last_of "sb-1" (event 7 ∷ event 8 ∷ []) none) (hwm_of "sb-1" [])
hwm_of-acknowledge_example = hwm_of-acknowledge (event 7 ∷ event 8 ∷ []) fresh "sb-1" refl

start_update_loses_example :
    (b : EventStream) × (step start_update after ≡ some b)
    × (held after ≡ held b ++ event 9 ∷ [])
    × (b.in_flight ≡ (length (counted_events b) + 1) % 2 ^ 64)
unfolding counted_events waits_with_lock
start_update_loses_example = start_update_loses after refl refl (record { counts = refl })

abbrev wrong : StreamInfo
wrong = record spec { webhook = some (record hook { url = "" }) }

fresh-IsIdle : IsIdle fresh
fresh-IsIdle = record {
  waits = refl;
  empty = refl;
  active = refl;
  open_ = refl;
  settled = refl;
  whole = refl;
}

failed_update_locks_example :
    (b : EventStream) × (steps
        (start_update ∷ work none ∷ finish_update texts wrong ∷ resume ∷ [])
        fresh
      ≡ some b)
    × ((x : Action) → step x b ≡ none)
unfolding update_spec
failed_update_locks_example =
    failed_update_locks texts wrong fresh none (errorf ErrorId.event_streams_webhook_no_url)
      fresh-IsIdle refl
