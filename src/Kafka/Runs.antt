-- ===== src/Kafka/Runs.antt =====
-- The bridge of kafkabridge.go over a whole run: the consumer and producer loops take turns, and
-- every message accepted and every reply confirmed so far is remembered.
pub mod AtLeastOnce
pub mod Capacity
use zeroxyz.Prelude.{
  ℕ, String, List, [], ◌∷◌, Option, some, Bool, false, ◌≡◌, if◌then◌else◌, ◌==◌, string_key, true,
}
use zeroxyz.Auth.{Result, SecurityModule}
use zeroxyz.Kafka.Sort.{Message, MsgContext, CommonHeaders}
use zeroxyz.Kafka.{Bridge, Dispatch, duplicate, process, error_reply, consume, producer_success}

pub record System (A : Type 0) : Type 0 where
  pub bridge : Bridge A
  pub accepted : List Message
  pub confirmed : List String

module _ {A : Type 0} where
  abbrev pub start : ℕ → System A
  start max = record {
    bridge = record { max_in_flight = max; in_flight = [] };
    accepted = [];
    confirmed = [];
  }

  -- A redelivered message is not accepted again.
  abbrev pub accepted_by : Dispatch A → List Message → List Message
  accepted_by duplicate ms = ms
  accepted_by (process c) ms = c.sarama_msg ∷ ms
  accepted_by (error_reply c e) ms = c.sarama_msg ∷ ms

  pub data Step (s : System A) (t : System A) : Type 0 where
    takes :
        (sm : Option (SecurityModule A)) (uuid : String) (parsed : Result CommonHeaders)
        (m : Message) (k : Bridge A) (d : Dispatch A)
        → consume sm uuid parsed m s.bridge ≡ some (k, d)
        → t ≡ record s { bridge = k; accepted = accepted_by d s.accepted }
        → Step s t
    confirms :
        (key : String) (k : Bridge A) (mark : Option Message)
        → producer_success key s.bridge ≡ some (k, mark)
        → t ≡ record s { bridge = k; confirmed = key ∷ s.confirmed }
        → Step s t

  pub data Reach (s : System A) : System A → Type 0 where
    begin : Reach s s
    next : {t u : System A} → Reach s t → Step t u → Reach s u

-- Whether the reply to a message was confirmed.
unfoldable pub known : String → List String → Bool
known j [] = false
known j (k ∷ ks) = if k == j then true else known j ks
