-- ===== src/Rest/PostingTests.antt =====
-- A request sent to Kafka while another one fails.
use zeroxyz.Prelude.{String, List, [], ◌∷◌, none, some, true, ◌≡◌, refl, string_key}
use zeroxyz.Prelude.Int.{pos}
use zeroxyz.Prelude.Decimal.{decimal_ℤ}
use zeroxyz.Prelude.Maps.{lookup, put, delete}
use zeroxyz.Auth.{Result, ok}
use zeroxyz.Rest.Json.{Fields, no_fields}
use zeroxyz.Rest.Posting.{
  ProducerMessage, Report, failed, delivered, WebhooksKafka, new_webhooks_kafka, on_report,
  producer_loops, fail_pending, deliver_pending, start_send, set_msg_pending, answer_of,
  finish_send,
}
use zeroxyz.Rest.Traces.{trace, first_report}
use zeroxyz.Rest.Acknowledged.{remains, finish_send-first_report}

abbrev message : String → ProducerMessage
message id = record {
  topic = "requests";
  key = "0xaa";
  value = "{}";
  headers = [];
  metadata = some id;
  partition = pos 3;
  offset = pos 41;
}

abbrev reports : List Report
reports =
    failed (record { msg = some (message "other"); cause = "pop" })
    ∷ delivered (message "m-1")
    ∷ failed (record { msg = some (message "m-1"); cause = "late" })
    ∷ []

abbrev marshal : Fields → Result String
marshal m = ok "{}"

abbrev idle : WebhooksKafka
idle = new_webhooks_kafka "requests"

abbrev sent : WebhooksKafka
sent = record idle {
  pending_msgs = ("m-1", true) ∷ [];
  input = record (message "m-1") { partition = pos 0; offset = pos 0 } ∷ [];
}

abbrev reported : WebhooksKafka
reported = record sent { pending_msgs = []; success_msgs = ("m-1", message "m-1") ∷ [] }

started : start_send marshal "" "0xaa" "m-1" no_fields true idle ≡ (none, sent)
unfolding start_send set_msg_pending put
started = refl

handled : producer_loops reports sent ≡ some reported
unfolding producer_loops on_report fail_pending deliver_pending lookup put delete
handled = refl

answered :
    answer_of (first_report "m-1" reports)
    ≡ some (record { msg_ack = "requests:3:41"; status = 200; error = none })
unfolding first_report decimal_ℤ
answered = refl

finish_send-first_report_example :
    ((finish_send "m-1" reported).0 ≡ answer_of (first_report "m-1" reports))
    × (trace "m-1" (finish_send "m-1" reported).1 ≡ remains (first_report "m-1" reports))
unfolding start_send producer_loops on_report fail_pending deliver_pending set_msg_pending lookup
    put
finish_send-first_report_example =
    finish_send-first_report marshal "" "0xaa" "m-1" no_fields reports idle reported refl refl
      handled
