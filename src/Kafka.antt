-- ===== src/Kafka.antt =====
-- The bridge from Kafka to Ethereum, internal/maidenlanekafka/kafkabridge.go: which messages are in
-- flight, and which offsets are acknowledged. Each function runs under the bridge's mutex, so it
-- is one step. What JSON decoding and the security plugin answer are arguments.
pub mod Sort
pub mod Acks
pub mod Runs
mod Tests
use Prim.Native.String.{◌++◌ as append}
use zeroxyz.Prelude.{
  ℕ, String, List, [], ◌∷◌, Option, none, some, Bool, true, false, ◌==◌, leb, eqb, if◌then◌else◌,
  string_key, keep, length, map,
}
use zeroxyz.Prelude.Maps.{Map, lookup, put, delete}
use zeroxyz.Prelude.Decimal.{decimal}
use zeroxyz.Errors.{ErrorId, Error, errorf}
use zeroxyz.Auth.{Result, ok, err, SecurityModule, Context, background, with_auth_context}
use Sort.{Message, MsgContext, CommonHeaders, sort_by_offset}

pub record Bridge (A : Type 0) : Type 0 where
  pub max_in_flight : ℕ
  pub in_flight : Map String (MsgContext A)

-- What the consumer loop does with a message once the lock is dropped.
pub data Dispatch (A : Type 0) : Type 0 where
  duplicate : Dispatch A
  process : MsgContext A → Dispatch A
  error_reply : MsgContext A → Error → Dispatch A

-- fmt.Sprintf("%s:%d:%d", topic, partition, offset)
unfoldable pub req_offset_of : Message → String
req_offset_of m =
    append m.topic (append ":" (append (decimal m.partition) (append ":" (decimal m.offset))))

-- The last record header of that name wins.
unfoldable pub access_token_of : String → List (String × String) → String
access_token_of token [] = token
access_token_of token ((key, value) ∷ rest) =
    access_token_of (if key == "maidenlaned-accesstoken" then value else token) rest

module _ {A : Type 0} where
  unfoldable pub new_context : Message → MsgContext A
  new_context m = record {
    req_offset = req_offset_of m;
    sarama_msg = m;
    key = "";
    headers = record { id = ""; msg_type = ""; account = "" };
    ctx = none;
    complete = false;
  }

  -- The headers with the generated ID where the message has none, and the partitioning key.
  identify : String → CommonHeaders → MsgContext A → MsgContext A
  identify uuid h c =
      let id = if h.id == "" then uuid else h.id in
      record c { headers = record h { id = id }; key = if h.account == "" then id else h.account }

  authenticated :
      String → CommonHeaders → MsgContext A → Result (Context A) → MsgContext A × Dispatch A
  unfolding identify
  authenticated uuid h c (err e) =
      let c' = record c { headers = h } in (c', error_reply c' (errorf ErrorId.unauthorized))
  authenticated uuid h c (ok ctx) =
      let c' = identify uuid h (record c { ctx = some ctx }) in (c', process c')

  pub read_headers :
      Option (SecurityModule A)
      → String
      → Result CommonHeaders
      → MsgContext A
      → MsgContext A × Dispatch A
  unfolding authenticated
  read_headers sm uuid (err e) c = (c, error_reply c e)
  read_headers sm uuid (ok h) c =
      authenticated uuid h c
        (with_auth_context sm background (access_token_of "" c.sarama_msg.headers))

  -- `parsed` is what decoding the headers from the message's JSON gives.
  unfoldable pub add_inflight_msg :
      Option (SecurityModule A)
      → String
      → Result CommonHeaders
      → Message
      → Bridge A
      → Bridge A × Dispatch A
  unfolding read_headers new_context
  add_inflight_msg sm uuid parsed m k = elim (lookup (req_offset_of m) k.in_flight) [
    | some c ↦ (k, duplicate)
    | none ↦
        let (c, d) = read_headers sm uuid parsed (new_context m) in
        (record k { in_flight = put (req_offset_of m) c k.in_flight }, d)
  ]

  -- One round of ConsumerMessagesLoop; `none` means that it waits for room.
  unfoldable pub consume :
      Option (SecurityModule A)
      → String
      → Result CommonHeaders
      → Message
      → Bridge A
      → Option (Bridge A × Dispatch A)
  consume sm uuid parsed m k =
      if leb k.max_in_flight (length k.in_flight)
      then none
      else some (add_inflight_msg sm uuid parsed m k)

  abbrev pub contexts : Map String (MsgContext A) → List (MsgContext A)
  contexts = map (λ (entry : String × MsgContext A). entry.1)

  -- Go forwards until the first that is not complete.
  unfoldable pub ready_to_ack : List (MsgContext A) → List (MsgContext A)
  ready_to_ack [] = []
  ready_to_ack (c ∷ cs) = let rest = ready_to_ack cs in if c.complete then c ∷ rest else []

  unfoldable pub delete_all :
      List (MsgContext A) → Map String (MsgContext A) → Map String (MsgContext A)
  delete_all [] m = m
  delete_all (c ∷ cs) m = delete_all cs (delete c.req_offset m)

  unfoldable pub last_msg : List (MsgContext A) → Option Message
  last_msg [] = none
  last_msg (c ∷ []) = some c.sarama_msg
  last_msg (c ∷ d ∷ cs) = last_msg (d ∷ cs)

  unfoldable pub same_partition : ℕ → Map String (MsgContext A) → List (MsgContext A)
  same_partition p m = keep (λ c. eqb c.sarama_msg.partition p) (contexts m)

  -- `ctx` is a pointer into the map, so completing it changes its entry. The second part is the
  -- message that consumer.MarkOffset is called with.
  unfoldable pub set_in_flight_complete : MsgContext A → Bridge A → Bridge A × Option Message
  unfolding ready_to_ack delete_all last_msg same_partition
  set_in_flight_complete ctx k =
      let in_flight = put ctx.req_offset (record ctx { complete = true }) k.in_flight in
      let ready =
        ready_to_ack (sort_by_offset (same_partition ctx.sarama_msg.partition in_flight)) in
      (record k { in_flight = delete_all ready in_flight }, last_msg ready)

  -- One round of ProducerSuccessLoop; `none` is its panic on an unknown message.
  unfoldable pub producer_success : String → Bridge A → Option (Bridge A × Option Message)
  producer_success req_offset k = elim (lookup req_offset k.in_flight) [
    | some ctx ↦ some (set_in_flight_complete ctx k)
    | none ↦ none
  ]
