-- ===== src/Rest/Posting.antt =====
-- webhookskafka.go of internal/maidenlanerest: the requests that are sent to Kafka, and how each
-- learns of its delivery. The channels of the producer hand over a list of reports.
use zeroxyz.Prelude.{
  ℕ, String, List, [], ◌∷◌, Option, none, some, Bool, true, if◌then◌else◌, ◌++◌, ◌==◌, string_key,
}
use zeroxyz.Prelude.Int.{ℤ, pos}
use zeroxyz.Prelude.Decimal.{decimal_ℤ}
use zeroxyz.Prelude.Maps.{Map, lookup, put, delete}
use zeroxyz.Errors.{ErrorId, Error, errorf}
use zeroxyz.Auth.{Result, ok, err}
use zeroxyz.Rest.Json.{Fields}
use Prim.Native.String.{◌++◌ as ◌<>◌}

-- sarama's ProducerMessage: `metadata` is none for nil, and the broker fills in the last two.
pub record ProducerMessage : Type 0 where
  pub topic : String
  pub key : String
  pub value : String
  pub headers : List (String × String)
  pub metadata : Option String
  pub partition : ℤ
  pub offset : ℤ

pub record ProducerError : Type 0 where
  pub msg : Option ProducerMessage
  pub cause : String

-- What comes from Errors() and from Successes().
pub data Report : Type 0 where
  failed : ProducerError → Report
  delivered : ProducerMessage → Report

-- `input` is what went into the channel of the producer, the oldest first.
pub record WebhooksKafka : Type 0 where
  pub topic_out : String
  pub pending_msgs : Map String Bool
  pub success_msgs : Map String ProducerMessage
  pub failed_msgs : Map String ProducerError
  pub input : List ProducerMessage

abbrev pub new_webhooks_kafka : String → WebhooksKafka
new_webhooks_kafka topic = record {
  topic_out = topic;
  pending_msgs = [];
  success_msgs = [];
  failed_msgs = [];
  input = [];
}

unfoldable pub set_msg_pending : String → WebhooksKafka → WebhooksKafka
set_msg_pending msg_id w = record w { pending_msgs = put msg_id true w.pending_msgs }

-- waitForSend on the maps as they are; none where it goes on waiting.
unfoldable pub wait_for_send : String → WebhooksKafka → Option Report × WebhooksKafka
wait_for_send msg_id w = elim (lookup msg_id w.failed_msgs) [
  | some e ↦ (some (failed e), record w { failed_msgs = delete msg_id w.failed_msgs })
  | none ↦ elim (lookup msg_id w.success_msgs) [
    | some m ↦ (some (delivered m), record w { success_msgs = delete msg_id w.success_msgs })
    | none ↦ (none, w)
  ]
]

-- The body of ProducerErrorLoop, for an error whose metadata is the id.
unfoldable pub fail_pending : String → ProducerError → WebhooksKafka → WebhooksKafka
fail_pending msg_id e w = elim (lookup msg_id w.pending_msgs) [
  | none ↦ w
  | some _ ↦ record w {
    pending_msgs = delete msg_id w.pending_msgs;
    failed_msgs = put msg_id e w.failed_msgs;
  }
]

-- The body of ProducerSuccessLoop, for a message whose metadata is the id.
unfoldable pub deliver_pending : String → ProducerMessage → WebhooksKafka → WebhooksKafka
deliver_pending msg_id m w = elim (lookup msg_id w.pending_msgs) [
  | none ↦ w
  | some _ ↦ record w {
    pending_msgs = delete msg_id w.pending_msgs;
    success_msgs = put msg_id m w.success_msgs;
  }
]

abbrev pub metadata_of : Option ProducerMessage → Option String
metadata_of none = none
metadata_of (some m) = m.metadata

-- One round of either loop; none where it panics.
unfoldable pub on_report : Report → WebhooksKafka → Option WebhooksKafka
on_report (failed e) w = elim (metadata_of e.msg) [
  | none ↦ none
  | some msg_id ↦ some (fail_pending msg_id e w)
]
on_report (delivered m) w = elim m.metadata [
  | none ↦ none
  | some msg_id ↦ some (deliver_pending msg_id m w)
]

-- The two loops, in the order in which they take the lock.
unfoldable pub producer_loops : List Report → WebhooksKafka → Option WebhooksKafka
producer_loops [] w = some w
producer_loops (r ∷ rs) w = elim (on_report r w) [ none ↦ none | some w' ↦ producer_loops rs w' ]

pub record SendResult : Type 0 where
  pub msg_ack : String
  pub status : ℕ
  pub error : Option Error

abbrev pub access_headers : String → List (String × String)
access_headers token = if token == "" then [] else ("maidenlaned-accesstoken", token) ∷ []

-- sendWebhookMsg up to its wait, with the access token of the context; none where it then waits.
unfoldable pub start_send :
    (Fields → Result String)
    → String
    → String
    → String
    → Fields
    → Bool
    → WebhooksKafka
    → Option SendResult × WebhooksKafka
unfolding set_msg_pending
start_send marshal token key msg_id msg ack w = elim (marshal msg) [
  | err _ ↦
      let failure : SendResult = record {
        msg_ack = "";
        status = 500;
        error = some (errorf ErrorId.webhooks_kafka_yaml_to_json);
      } in
      (some failure, w)
  | ok payload ↦
      let sent : ProducerMessage = record {
        topic = w.topic_out;
        key = key;
        value = payload;
        headers = access_headers token;
        metadata = some msg_id;
        partition = pos 0;
        offset = pos 0;
      } in
      let marked = if ack then set_msg_pending msg_id w else w in
      let accepted : SendResult = record { msg_ack = ""; status = 200; error = none } in
      (if ack then none else some accepted, record marked { input = w.input ++ (sent ∷ []) })
]

abbrev pub ack_of : ProducerMessage → String
ack_of m = m.topic <> ":" <> decimal_ℤ m.partition <> ":" <> decimal_ℤ m.offset

abbrev pub result_of : Report → SendResult
result_of (failed e) = record {
  msg_ack = "";
  status = 502;
  error = some (errorf ErrorId.webhooks_kafka_err);
}
result_of (delivered m) = record { msg_ack = ack_of m; status = 200; error = none }

abbrev pub answer_of : Option Report → Option SendResult
answer_of none = none
answer_of (some r) = some (result_of r)

-- The rest of sendWebhookMsg, once the lock is free; none where it goes on waiting.
unfoldable pub finish_send : String → WebhooksKafka → Option SendResult × WebhooksKafka
finish_send msg_id w = let (report, w') = wait_for_send msg_id w in (answer_of report, w')
