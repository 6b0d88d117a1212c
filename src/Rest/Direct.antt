-- ===== src/Rest/Direct.antt =====
-- webhooks.go and webhooksdirect.go of internal/maidenlanerest: which requests are passed on, and the
-- messages in flight when there is no Kafka between.
use zeroxyz.Prelude.{
  ℕ, String, Option, none, some, Bool, ◌||◌, ◌==◌, string_key, if◌then◌else◌, length,
}
use zeroxyz.Prelude.Int.{ℤ, pos, ltb_ℤ, leb_ℤ}
use zeroxyz.Prelude.Maps.{Map, put, delete}
use zeroxyz.Errors.{ErrorId, Error, errorf}
use zeroxyz.Auth.{Result, ok, err}
use zeroxyz.Kafka.Sort.{CommonHeaders}
use zeroxyz.Rest.Json.{Json, null, text, object, Fields, get_field, set_field}

-- What becomes of a message: a status with its error, or the key, the id and the message to pass on.
-- A null where an object or a text is asked for panics: its reflect.TypeOf is a nil Type.
pub data Checked : Type 0 where
  panicked : Checked
  refused : ℕ → Error → Checked
  passed : String → String → Fields → Checked

-- What is read of a value that has to be of one kind.
pub data Read (A : Type 0) : Type 0 where
  nil : Read A
  unfit : Read A
  found : A → Read A

abbrev pub headers_of : Option Json → Read Fields
headers_of none = unfit
headers_of (some null) = nil
headers_of (some (object h)) = found h
headers_of (some _) = unfit

abbrev pub text_in : Option Json → Read String
text_in none = unfit
text_in (some null) = nil
text_in (some (text s)) = found s
text_in (some _) = unfit

abbrev pub known_type : String → Bool
known_type t = (t == "DeployContract") || (t == "SendTransaction")

-- `pre_deploy` is contractGWHandler, where there is a gateway.
unfoldable pub gateway :
    Option (Fields → Result Fields) → String → String → String → Fields → Checked
gateway none msg_type key id msg = passed key id msg
gateway (some pre_deploy) msg_type key id msg =
    if msg_type == "DeployContract"
    then elim (pre_deploy msg) [ err e ↦ refused 500 e | ok msg' ↦ passed key id msg' ]
    else passed key id msg

-- processMsg up to its handler; `id` is the UUID that it generates.
unfoldable pub process_msg : Option (Fields → Result Fields) → String → Fields → Checked
unfolding gateway
process_msg pre_deploy id msg = elim (headers_of (get_field "headers" msg)) [
  | nil ↦ panicked
  | unfit ↦ refused 400 (errorf ErrorId.webhooks_invalid_msg_headers)
  | found headers ↦ elim (text_in (get_field "type" headers)) [
    | nil ↦ panicked
    | unfit ↦ refused 400 (errorf ErrorId.webhooks_invalid_msg_type_missing)
    | found msg_type ↦
        if known_type msg_type
        then elim (text_in (get_field "from" msg)) [
          | nil ↦ panicked
          | unfit ↦ refused 400 (errorf ErrorId.webhooks_invalid_msg_from_missing)
          | found key ↦
              gateway pre_deploy msg_type key id
                (set_field "headers" (object (set_field "id" (text id) headers)) msg)
        ]
        else refused 400 (errorf ErrorId.webhooks_invalid_msg_type)
  ]
]

pub record WebhooksDirectConf : Type 0 where
  pub rpc_url : String
  pub max_in_flight : ℤ
  pub max_tx_wait_time : ℤ

unfoldable pub validate : WebhooksDirectConf → Result WebhooksDirectConf
validate conf =
    if conf.rpc_url == ""
    then err (errorf ErrorId.config_webhooks_direct_rpc)
    else ok (record conf {
      max_tx_wait_time =
          if ltb_ℤ conf.max_tx_wait_time (pos 10) then pos 10 else conf.max_tx_wait_time;
      max_in_flight = if leb_ℤ conf.max_in_flight (pos 0) then pos 10 else conf.max_in_flight;
    })

pub record MsgContext : Type 0 where
  pub key : String
  pub msg_id : String
  pub msg : Fields
  pub headers : CommonHeaders

pub record WebhooksDirect : Type 0 where
  pub conf : WebhooksDirectConf
  pub in_flight : Map String MsgContext

pub data Sent : Type 0 where
  too_many : Sent
  bad_headers : Sent
  accepted : MsgContext → Sent

-- sendWebhookMsg up to the call of the processor; `decoded` is what the headers decode to.
unfoldable pub send_webhook_msg :
    Result CommonHeaders → String → String → Fields → WebhooksDirect → Sent × WebhooksDirect
send_webhook_msg decoded key msg_id msg w =
    if leb_ℤ w.conf.max_in_flight (pos (length w.in_flight)) then (too_many, w) else elim decoded [
      | err e ↦ (bad_headers, w)
      | ok headers ↦
          let ctx : MsgContext = record {
            key = key;
            msg_id = msg_id;
            msg = msg;
            headers = headers;
          } in
          (accepted ctx, record w { in_flight = put msg_id ctx w.in_flight })
    ]

-- What Reply does to the messages in flight.
unfoldable pub reply_to : MsgContext → WebhooksDirect → WebhooksDirect
reply_to ctx w = record w { in_flight = delete ctx.msg_id w.in_flight }
