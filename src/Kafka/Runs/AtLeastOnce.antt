-- ===== src/Kafka/Runs/AtLeastOnce.antt =====
-- No offset is acknowledged before the replies to all earlier messages are confirmed.
use zeroxyz.Prelude.{
  ℕ, ◌<◌, String, List, [], ◌∷◌, Option, none, some, true, ◌≡◌, refl, ap, sym, ◌∙◌, ◌⊎◌, inl, inr,
  arith, All, Any, All-Any, All-mono, ◌==◌, string_key, eq_iff, Bool-cases, Option-cases,
  if◌then◌else◌, length,
}
use zeroxyz.Prelude.Maps.{Map, lookup, put, delete, lookup-put, put-All, delete-All, lookup-All}
use zeroxyz.Auth.{Result, ok, err, SecurityModule, Context}
use zeroxyz.Kafka.Sort.{Message, MsgContext, CommonHeaders, sort_by_offset}
use zeroxyz.Kafka.{
  Bridge, Dispatch, duplicate, req_offset_of, consume, add_inflight_msg, new_context, read_headers,
  authenticated, producer_success, set_in_flight_complete, ready_to_ack, delete_all, same_partition,
}
use zeroxyz.Kafka.Acks.{
  sort_by_offset-All, sort_by_offset-Any, sort_by_offset-IsSorted, last_msg-ready_to_ack-le,
  ready_to_ack-All, has_key, lookup-delete_all, has_key-Any, same_partition-All, same_partition-Any,
  same_partition_lem, last_msg-All, IsOpen,
}
use zeroxyz.Kafka.Runs.{
  System, Step, takes, confirms, Reach, begin, next, start, accepted_by, known,
}

known-cons : (j k : String) (ks : List String) → known j ks ≡ true → known j (k ∷ ks) ≡ true
unfolding known
known-cons j k ks h = ground arith

known_head : (k : String) (ks : List String) → known k (k ∷ ks) ≡ true
unfolding known
known_head k ks = ground (arith, eq_iff k k)

module _ {A : Type 0} where
  -- An entry of the in-flight map: it stands under its own key, and is complete only if confirmed.
  pub record IsEntry (confirmed : List String) (entry : String × MsgContext A) : Type 0 where
    pub keyed : entry.1.req_offset ≡ entry.0
    pub named : req_offset_of entry.1.sarama_msg ≡ entry.0
    pub earned : entry.1.complete ≡ true → known entry.0 confirmed ≡ true

  -- A message is confirmed, or it is in flight and waits.
  abbrev pub IsServed : List String → Map String (MsgContext A) → Message → Type 0
  IsServed confirmed in_flight m =
      (known (req_offset_of m) confirmed ≡ true)
      ⊎ ((c : MsgContext A) × (lookup (req_offset_of m) in_flight ≡ some c) × (c.sarama_msg ≡ m))

  pub record IsTracked (s : System A) : Type 0 where
    pub entries : All (IsEntry s.confirmed) s.bridge.in_flight
    pub served : All (IsServed s.confirmed s.bridge.in_flight) s.accepted

  -- What is accepted is the message, under its key and waiting.
  abbrev Fresh : MsgContext A → MsgContext A × Dispatch A → Type 0
  Fresh c r =
      (r.0.sarama_msg ≡ c.sarama_msg)
      × (r.0.req_offset ≡ c.req_offset)
      × (r.0.complete ≡ c.complete)
      × ((ms : List Message) → accepted_by r.1 ms ≡ c.sarama_msg ∷ ms)

  authenticated-Fresh :
      (uuid : String) (h : CommonHeaders) (c : MsgContext A) (r : Result (Context A))
      → Fresh c (authenticated uuid h c r)
  unfolding authenticated
  authenticated-Fresh uuid h c (err e) = (refl, refl, refl, λ ms. refl)
  authenticated-Fresh uuid h c (ok ctx) = (refl, refl, refl, λ ms. refl)

  read_headers-Fresh :
      (sm : Option (SecurityModule A)) (uuid : String) (parsed : Result CommonHeaders)
      (c : MsgContext A)
      → Fresh c (read_headers sm uuid parsed c)
  unfolding read_headers
  read_headers-Fresh sm uuid (err e) c = (refl, refl, refl, λ ms. refl)
  read_headers-Fresh sm uuid (ok h) c = authenticated-Fresh uuid h c _

  serve_more :
      (conf : List String) (m : Message) (c : MsgContext A) (f : Map String (MsgContext A))
      → lookup (req_offset_of m) f ≡ none
      → (m' : Message) → IsServed conf f m'
      → IsServed conf (put (req_offset_of m) c f) m'
  serve_more conf m c f free m' (inl h) = inl h
  serve_more conf m c f free m' (inr (d, e, q)) =
      inr (d, rw lookup-put (ground (arith, eq_iff (req_offset_of m) (req_offset_of m'))), q)

  takes-IsTracked :
      (s : System A) (sm : Option (SecurityModule A)) (uuid : String)
      (parsed : Result CommonHeaders) (m : Message)
      → lookup (req_offset_of m) s.bridge.in_flight ≡ none
      → IsTracked s
      → let r = read_headers sm uuid parsed (new_context m) in
        IsTracked (record s {
          bridge = record s.bridge { in_flight = put (req_offset_of m) r.0 s.bridge.in_flight };
          accepted = accepted_by r.1 s.accepted;
        })
  unfolding new_context
  takes-IsTracked s sm uuid parsed m free v =
      let f = read_headers-Fresh sm uuid parsed (new_context m) in
      let r = read_headers sm uuid parsed (new_context m) in
      record {
        entries =
            put-All (IsEntry s.confirmed) (req_offset_of m) r.0 s.bridge.in_flight
              (record {
                keyed = f.1;
                named = ap req_offset_of f.0;
                earned = λ done. absurd (ground (arith, f.2, done));
              })
              v.entries;
        served = rw (f.3 s.accepted) (
          inr (
            r.0,
            rw lookup-put (ground (arith, eq_iff (req_offset_of m) (req_offset_of m))),
            f.0,
          ),
          All-mono _ _ s.accepted (serve_more s.confirmed m r.0 s.bridge.in_flight free) v.served,
        );
      }

  -- The map after the contexts that are ready have been deleted, and what `ready` is.
  abbrev completed : MsgContext A → Bridge A → Map String (MsgContext A)
  completed c k = put c.req_offset (record c { complete = true }) k.in_flight

  abbrev ready : MsgContext A → Bridge A → List (MsgContext A)
  ready c k = ready_to_ack (sort_by_offset (same_partition c.sarama_msg.partition (completed c k)))

  delete_all-All :
      (P : String × MsgContext A → Type 0) (cs : List (MsgContext A))
      (m : Map String (MsgContext A))
      → All P m
      → All P (delete_all cs m)
  unfolding delete_all
  delete_all-All P [] m h = h
  delete_all-All P (c ∷ cs) m h =
      delete_all-All P cs (delete c.req_offset m) (delete-All P c.req_offset m h)

  IsEntry-cons :
      (key : String) (conf : List String) (entry : String × MsgContext A)
      → IsEntry conf entry
      → IsEntry (key ∷ conf) entry
  IsEntry-cons key conf entry v = record {
    keyed = v.keyed;
    named = v.named;
    earned = λ done. known-cons entry.0 key conf (v.earned done);
  }

  -- An entry, under the key that it carries.
  entry-self :
      {conf : List String} (e : String × MsgContext A)
      → IsEntry conf e
      → IsEntry conf (e.1.req_offset, e.1)
  entry-self e w = record {
    keyed = refl;
    named = w.named ∙ sym w.keyed;
    earned = λ done. rw w.keyed (w.earned done);
  }

  -- What a round of the consumer loop does when it does not wait.
  pub consume-cases :
      (sm : Option (SecurityModule A)) (uuid : String) (parsed : Result CommonHeaders) (m : Message)
      (b k : Bridge A) (d : Dispatch A)
      → consume sm uuid parsed m b ≡ some (k, d)
      → ((k ≡ b) × (d ≡ duplicate) × (length b.in_flight < b.max_in_flight))
        ⊎ ((lookup (req_offset_of m) b.in_flight ≡ none)
            × (k ≡ record b {
              in_flight =
                  put (req_offset_of m) (read_headers sm uuid parsed (new_context m)).0 b.in_flight;
            })
            × (d ≡ (read_headers sm uuid parsed (new_context m)).1)
            × (length b.in_flight < b.max_in_flight))
  unfolding consume add_inflight_msg
  consume-cases sm uuid parsed m b k d h =
      elim (Option-cases (lookup (req_offset_of m) b.in_flight)) [
        | inl free ↦ inr (free, ground arith, ground arith, ground arith)
        | inr (c, there) ↦ inl (ground arith, ground arith, ground arith)
      ]

  pub producer_success-cases :
      (key : String) (b k : Bridge A) (mark : Option Message)
      → producer_success key b ≡ some (k, mark)
      → (c : MsgContext A) × (lookup key b.in_flight ≡ some c)
        × (k ≡ (set_in_flight_complete c b).0)
        × (mark ≡ (set_in_flight_complete c b).1)
  unfolding producer_success
  producer_success-cases key b k mark h = elim (Option-cases (lookup key b.in_flight)) [
    | inl gone ↦ absurd (ground arith)
    | inr (c, there) ↦ (c, there, ground arith, ground arith)
  ]

  module _ (s : System A) (key : String) (c : MsgContext A)
      (found : lookup key s.bridge.in_flight ≡ some c) (v : IsTracked s) where
    pub entry : IsEntry s.confirmed (key, c)
    entry = lookup-All (IsEntry s.confirmed) key c s.bridge.in_flight v.entries found

    completed-entries : All (IsEntry (key ∷ s.confirmed)) (completed c s.bridge)
    completed-entries =
        put-All (IsEntry (key ∷ s.confirmed)) c.req_offset (record c { complete = true })
          s.bridge.in_flight
          (record {
            keyed = refl;
            named = entry.named ∙ sym entry.keyed;
            earned = λ done. rw entry.keyed (known_head key s.confirmed);
          })
          (All-mono _ _ s.bridge.in_flight (IsEntry-cons key s.confirmed) v.entries)

    -- All that is deleted has been confirmed.
    has_key-ready :
        (j : String) → has_key j (ready c s.bridge) ≡ true → known j (key ∷ s.confirmed) ≡ true
    has_key-ready j h =
        has_key-Any (λ d. (IsEntry (key ∷ s.confirmed) (d.req_offset, d)) × (d.complete ≡ true))
          (known j (key ∷ s.confirmed) ≡ true) j (ready c s.bridge)
          (λ d p q. rw (← q) (p.0.earned p.1))
          (ready_to_ack-All _ _ (
            sort_by_offset-All _ _ (
              same_partition-All _ c.sarama_msg.partition (completed c s.bridge)
                (All-mono _ _ (completed c s.bridge) (λ e w. entry-self e w) completed-entries))))
          h

    -- A message in flight under a key that was not just completed is still there.
    still_served :
        (m : Message)
        → IsServed s.confirmed s.bridge.in_flight m
        → (known (req_offset_of m) (key ∷ s.confirmed) ≡ true)
          ⊎ ((d : MsgContext A) × (lookup (req_offset_of m) (completed c s.bridge) ≡ some d)
              × (d.sarama_msg ≡ m))
    still_served m (inl h) = inl (known-cons (req_offset_of m) key s.confirmed h)
    still_served m (inr (d, e, q)) = elim (Bool-cases (c.req_offset == req_offset_of m)) [
      | inl same ↦ inl (
          rw (← (eq_iff c.req_offset (req_offset_of m)).0 same, entry.keyed)
            (known_head key s.confirmed))
      | inr other ↦ inr (d, rw (lookup-put, other, if◌then◌else◌) e, q)
    ]

    IsServed-after :
        (m : Message)
        → IsServed s.confirmed s.bridge.in_flight m
        → IsServed (key ∷ s.confirmed) (delete_all (ready c s.bridge) (completed c s.bridge)) m
    IsServed-after m h = elim (still_served m h) [
      | inl k ↦ inl k
      | inr (d, e, q) ↦ elim (Bool-cases (has_key (req_offset_of m) (ready c s.bridge))) [
        | inl gone ↦ inl (has_key-ready (req_offset_of m) gone)
        | inr stays ↦ inr (d, rw (lookup-delete_all, stays, if◌then◌else◌) e, q)
      ]
    ]

    pub confirms-IsTracked :
        IsTracked (record s {
          bridge = (set_in_flight_complete c s.bridge).0;
          confirmed = key ∷ s.confirmed;
        })
    unfolding set_in_flight_complete
    confirms-IsTracked = record {
      entries = delete_all-All _ (ready c s.bridge) (completed c s.bridge) completed-entries;
      served = All-mono _ _ s.accepted IsServed-after v.served;
    }

    -- The offset that is marked: every earlier message of its partition is confirmed.
    mark_safe :
        (msg m : Message)
        → (set_in_flight_complete c s.bridge).1 ≡ some msg
        → IsServed s.confirmed s.bridge.in_flight m
        → m.partition ≡ msg.partition
        → m.offset < msg.offset
        → known (req_offset_of m) (key ∷ s.confirmed) ≡ true
    unfolding set_in_flight_complete
    mark_safe msg m e h p o = elim (still_served m h) [
      | inl k ↦ k
      | inr (d, found', q) ↦ elim (Bool-cases d.complete) [
        | inl done ↦
            (lookup-All (IsEntry (key ∷ s.confirmed)) (req_offset_of m) d (completed c s.bridge)
                completed-entries found').earned
              done
        | inr waits ↦
            let part : msg.partition ≡ c.sarama_msg.partition =
              last_msg-All (λ x. x.partition ≡ c.sarama_msg.partition) (ready c s.bridge) msg
                (All-mono _ _ (ready c s.bridge) (λ x w. w.0)
                  (ready_to_ack-All _ _ (
                    sort_by_offset-All _ _
                      (same_partition_lem c.sarama_msg.partition (completed c s.bridge)))))
                e in
            let le =
              last_msg-ready_to_ack-le m.offset _ msg
                (sort_by_offset-IsSorted
                  (same_partition c.sarama_msg.partition (completed c s.bridge)))
                (sort_by_offset-Any (IsOpen m.offset) _ (
                  same_partition-Any (IsOpen m.offset) (req_offset_of m) c.sarama_msg.partition d
                    (completed c s.bridge) found'
                    (ground (arith, ap (λ (x : Message). x.partition) q, part, p))
                    (waits, ap (λ (x : Message). x.offset) q)))
                e in
            absurd (omega (arith, le))
      ]
    ]

  Step-IsTracked : (s t : System A) → Step s t → IsTracked s → IsTracked t
  Step-IsTracked s t (takes sm uuid parsed m k d e q) v =
      elim (consume-cases sm uuid parsed m s.bridge k d e) [
        | inl (same, dup, _) ↦ rw (q, same, dup) v
        | inr (free, new, made, _) ↦ rw (q, new, made) (takes-IsTracked s sm uuid parsed m free v)
      ]
  Step-IsTracked s t (confirms key k mark e q) v =
      let (c, found, new, _) = producer_success-cases key s.bridge k mark e in
      rw (q, new) (confirms-IsTracked s key c found v)

  pub Reach-IsTracked : (max : ℕ) {s : System A} → Reach (start max) s → IsTracked s
  Reach-IsTracked max begin = record { entries = tt; served = tt }
  Reach-IsTracked max (next {t = t} {u = u} r st) = Step-IsTracked t u st (Reach-IsTracked max r)

  -- In any run from an empty bridge, when the confirmation of a reply makes the bridge acknowledge
  -- an offset to Kafka, every accepted message of that partition with a lower offset has had its
  -- reply confirmed.
  pub mark_after_replies :
      (max : ℕ) (s : System A) (key : String) (k : Bridge A) (msg m : Message)
      → Reach (start max) s
      → producer_success key s.bridge ≡ some (k, some msg)
      → Any (λ (x : Message). x ≡ m) s.accepted
      → m.partition ≡ msg.partition
      → m.offset < msg.offset
      → known (req_offset_of m) (key ∷ s.confirmed) ≡ true
  mark_after_replies max s key k msg m r e a p o =
      let v = Reach-IsTracked max r in
      let (c, found, _, mark) = producer_success-cases key s.bridge k (some msg) e in
      mark_safe s key c found v msg m (sym mark)
        (All-Any _ _ _ s.accepted (λ x h q. rw q at h) v.served a) p o
