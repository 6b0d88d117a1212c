-- ===== src/Stream/Spec.antt =====
-- `StreamInfo` of eventstream.go: the defaults that newEventStream sets, the specification that
-- update leaves, and isAddressUnsafe.
use zeroxyz.Prelude.{
  ℕ, String, Option, none, some, Bool, not, ◌&&◌, ◌||◌, eqb, ltb, leb, ◌==◌, string_key,
  if◌then◌else◌,
}
use zeroxyz.Prelude.Maps.{Map}
use zeroxyz.Errors.{ErrorId, Error, errorf}
use zeroxyz.Auth.{Result, ok, err}

pub record WebhookAction : Type 0 where
  pub url : String
  pub headers : Map String String
  pub tls_skip_host_verify : Bool
  pub request_timeout_sec : ℕ

pub record StreamInfo : Type 0 where
  pub id : String
  pub name : String
  pub path : String
  pub suspended : Bool
  pub action_type : String
  pub batch_size : ℕ
  pub batch_timeout_ms : ℕ
  pub error_handling : String
  pub retry_timeout_sec : ℕ
  pub blocked_retry_delay_sec : ℕ
  pub webhook : Option WebhookAction
  pub timestamps : Bool

-- strings.ToLower, and whether url.Parse takes a text.
pub record Texts : Type 0 where
  pub to_lower : String → String
  pub url_parses : String → Bool

abbrev pub max_batch_size : ℕ
max_batch_size = 1000

abbrev pub default_if_zero : ℕ → ℕ → ℕ
default_if_zero n d = if eqb n 0 then d else n

abbrev pub bounded_batch_size : ℕ → ℕ
bounded_batch_size n = if eqb n 0 then 1 else if ltb max_batch_size n then max_batch_size else n

-- An error strategy: "block" in any case, and else "skip".
abbrev pub strategy : Texts → String → String
strategy texts s = if texts.to_lower s == "block" then "block" else "skip"

-- The webhook with its default timeout, or what is wrong with its address.
unfoldable pub check_webhook : Texts → Option WebhookAction → Result WebhookAction
check_webhook texts none = err (errorf ErrorId.event_streams_webhook_no_url)
check_webhook texts (some w) =
    if w.url == ""
    then err (errorf ErrorId.event_streams_webhook_no_url)
    else if not (texts.url_parses w.url)
    then err (errorf ErrorId.event_streams_webhook_invalid_url)
    else ok (record w { request_timeout_sec = default_if_zero w.request_timeout_sec 30000 })

-- What newEventStream makes of a specification.
unfoldable pub new_event_stream : Texts → Option StreamInfo → Result StreamInfo
unfolding check_webhook
new_event_stream texts none = err (errorf ErrorId.event_streams_no_id)
new_event_stream texts (some spec) =
    if spec.id == ""
    then err (errorf ErrorId.event_streams_no_id)
    else if texts.to_lower spec.action_type == "webhook"
    then elim (check_webhook texts spec.webhook) [
      | err e ↦ err e
      | ok w ↦ ok (record spec {
        action_type = texts.to_lower spec.action_type;
        batch_size = bounded_batch_size spec.batch_size;
        batch_timeout_ms = default_if_zero spec.batch_timeout_ms 5000;
        error_handling = strategy texts spec.error_handling;
        blocked_retry_delay_sec = default_if_zero spec.blocked_retry_delay_sec 30;
        webhook = some w;
      })
    ]
    else err (errorf ErrorId.event_streams_invalid_action_type)

-- The fields that update changes before it looks at the webhook.
unfoldable pub update_fields : Texts → StreamInfo → StreamInfo → StreamInfo
update_fields texts spec new = record spec {
  batch_size =
      if not (eqb spec.batch_size new.batch_size)
        && not (eqb new.batch_size 0)
        && ltb new.batch_size max_batch_size
      then new.batch_size
      else spec.batch_size;
  batch_timeout_ms =
      if not (eqb spec.batch_timeout_ms new.batch_timeout_ms) && not (eqb new.batch_timeout_ms 0)
      then new.batch_timeout_ms
      else spec.batch_timeout_ms;
  blocked_retry_delay_sec =
      if not (eqb spec.blocked_retry_delay_sec new.blocked_retry_delay_sec)
        && not (eqb new.blocked_retry_delay_sec 0)
      then new.blocked_retry_delay_sec
      else spec.blocked_retry_delay_sec;
  error_handling = strategy texts new.error_handling;
  name = new.name;
  timestamps = new.timestamps;
}

-- The specification that update leaves, and its error; the fields stay changed when it fails.
unfoldable pub update_spec : Texts → StreamInfo → StreamInfo → StreamInfo × Option Error
unfolding update_fields check_webhook
update_spec texts spec new = elim new.webhook [
  | none ↦ (update_fields texts spec new, none)
  | some w ↦ elim (check_webhook texts (some w)) [
    | err e ↦ (update_fields texts spec new, some e)
    | ok w' ↦ (record (update_fields texts spec new) { webhook = some w' }, none)
  ]
]

-- The four numbers of an address that the stream may not send to.
unfoldable pub is_address_unsafe : Bool → ℕ → ℕ → Bool
is_address_unsafe allow_private_ips a b =
    not allow_private_ips
    && (eqb a 0
        || leb 224 a
        || eqb a 127
        || eqb a 10
        || (eqb a 172 && leb 16 b && ltb b 32)
        || (eqb a 192 && eqb b 168))
