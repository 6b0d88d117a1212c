-- ===== src/Kafka/Tests.antt =====
-- Runs of kafkabridge.go on small inputs.
use zeroxyz.Prelude.{
  ℕ, ◌≤◌, String, [], ◌∷◌, none, some, Bool, true, false, ◌≡◌, refl, inl, inr, length, arith,
  string_key, keep,
}
use zeroxyz.Prelude.Maps.{lookup, put, delete}
use zeroxyz.Prelude.Decimal.{decimal}
use zeroxyz.Auth.{ok, with_auth_context}
use zeroxyz.Kafka.Sort.{Message, MsgContext, CommonHeaders, insert, less, sort_by_offset}
use zeroxyz.Kafka.{
  consume, add_inflight_msg, producer_success, set_in_flight_complete, req_offset_of,
}
use zeroxyz.Kafka.Runs.{System, Step, takes, confirms, Reach, begin, next, start, known}
use zeroxyz.Kafka.Runs.AtLeastOnce.{mark_after_replies}
use zeroxyz.Kafka.Runs.Capacity.{in_flight-le-max}

abbrev msg : ℕ → Message
msg o = record { topic = "in"; partition = 3; offset = o; value = ""; headers = [] }

abbrev hdr : CommonHeaders
hdr = record { id = "a"; msg_type = "SendTransaction"; account = "" }

abbrev ctx : ℕ → String → Bool → MsgContext ℕ
ctx o key done = record {
  req_offset = key;
  sarama_msg = msg o;
  key = "a";
  headers = hdr;
  ctx = some (record { system_auth = false; access_token = none; auth_context = none });
  complete = done;
}

abbrev one : System ℕ
one = record {
  bridge = record { max_in_flight = 2; in_flight = ("in:3:10", ctx 10 "in:3:10" false) ∷ [] };
  accepted = msg 10 ∷ [];
  confirmed = [];
}

abbrev two : System ℕ
two = record {
  bridge = record {
    max_in_flight = 2;
    in_flight = ("in:3:10", ctx 10 "in:3:10" false) ∷ ("in:3:12", ctx 12 "in:3:12" false) ∷ [];
  };
  accepted = msg 12 ∷ msg 10 ∷ [];
  confirmed = [];
}

-- The later message is confirmed first, and its offset is held back.
abbrev three : System ℕ
three = record {
  bridge = record {
    max_in_flight = 2;
    in_flight = ("in:3:10", ctx 10 "in:3:10" false) ∷ ("in:3:12", ctx 12 "in:3:12" true) ∷ [];
  };
  accepted = msg 12 ∷ msg 10 ∷ [];
  confirmed = "in:3:12" ∷ [];
}

take_first : Step (start {A = ℕ} 2) one
unfolding consume add_inflight_msg req_offset_of decimal lookup put with_auth_context
take_first = takes none "u" (ok hdr) (msg 10) _ _ refl refl

take_second : Step one two
unfolding consume add_inflight_msg req_offset_of decimal lookup put with_auth_context
take_second = takes none "u" (ok hdr) (msg 12) _ _ refl refl

confirm_second : Step two three
unfolding producer_success set_in_flight_complete lookup put keep sort_by_offset insert less
confirm_second = confirms "in:3:12" _ none refl refl

Reach-three : Reach (start {A = ℕ} 2) three
Reach-three = next (next (next begin take_first) take_second) confirm_second

confirm_first :
    producer_success "in:3:10" three.bridge
    ≡ some (record { max_in_flight = 2; in_flight = [] }, some (msg 12))
unfolding producer_success set_in_flight_complete lookup put delete keep sort_by_offset insert less
confirm_first = refl

mark_after_replies_example : known (req_offset_of (msg 10)) ("in:3:10" ∷ "in:3:12" ∷ []) ≡ true
mark_after_replies_example =
    mark_after_replies 2 three "in:3:10" (record { max_in_flight = 2; in_flight = [] }) (msg 12)
      (msg 10) Reach-three confirm_first (inr (inl refl)) refl (omega arith)

in_flight-le-max_example : length three.bridge.in_flight ≤ 2
in_flight-le-max_example = in_flight-le-max 2 three Reach-three
