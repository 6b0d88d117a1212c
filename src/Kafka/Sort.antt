-- ===== src/Kafka/Sort.antt =====
-- The contexts of in-flight messages, and sort.Sort over `ctxByOffset`, of kafkabridge.go.
use zeroxyz.Prelude.{ℕ, String, List, [], ◌∷◌, Option, Bool, ltb, if◌then◌else◌}
use zeroxyz.Auth.{Context}

pub record Message : Type 0 where
  pub topic : String
  pub partition : ℕ
  pub offset : ℕ
  pub value : String
  pub headers : List (String × String)

pub record CommonHeaders : Type 0 where
  pub id : String
  pub msg_type : String
  pub account : String

pub record MsgContext (A : Type 0) : Type 0 where
  pub req_offset : String
  pub sarama_msg : Message
  pub key : String
  pub headers : CommonHeaders
  pub ctx : Option (Context A)
  pub complete : Bool

module _ {A : Type 0} where
  -- ctxByOffset.Less
  unfoldable pub less : MsgContext A → MsgContext A → Bool
  less a b = ltb a.sarama_msg.offset b.sarama_msg.offset

  unfoldable pub insert : MsgContext A → List (MsgContext A) → List (MsgContext A)
  insert c [] = c ∷ []
  insert c (d ∷ ds) = if less c d then c ∷ d ∷ ds else d ∷ insert c ds

  unfoldable pub sort_by_offset : List (MsgContext A) → List (MsgContext A)
  sort_by_offset [] = []
  sort_by_offset (c ∷ cs) = insert c (sort_by_offset cs)
