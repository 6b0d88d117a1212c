-- ===== src/Kafka/Runs/Capacity.antt =====
-- The bound on the messages in flight, and when a reply's confirmation is unknown.
use zeroxyz.Prelude.{ℕ, ◌≤◌, ◌≡◌, some, true, inl, inr, refl, string_key, arith, length}
use zeroxyz.Prelude.Maps.{lookup, put, length-put-le, length-put_of_some}
use zeroxyz.Kafka.Sort.{MsgContext, sort_by_offset}
use zeroxyz.Kafka.{
  Bridge, set_in_flight_complete, ready_to_ack, same_partition, req_offset_of, read_headers,
  new_context,
}
use zeroxyz.Kafka.Acks.{length-delete_all-le}
use zeroxyz.Kafka.Runs.{System, Step, takes, confirms, Reach, begin, next, start}
use zeroxyz.Kafka.Runs.AtLeastOnce.{
  consume-cases, producer_success-cases, Reach-IsTracked, IsTracked, entry,
}

module _ {A : Type 0} where
  set_in_flight_complete-length :
      (c : MsgContext A) (k : Bridge A) (d : MsgContext A)
      → lookup c.req_offset k.in_flight ≡ some d
      → length (set_in_flight_complete c k).0.in_flight ≤ length k.in_flight
  unfolding set_in_flight_complete
  set_in_flight_complete-length c k d h =
      let full = put c.req_offset (record c { complete = true }) k.in_flight in
      omega (
        arith,
        length-delete_all-le
            (ready_to_ack (sort_by_offset (same_partition c.sarama_msg.partition full))) full,
        length-put_of_some c.req_offset (record c { complete = true }) d k.in_flight h,
      )

  abbrev IsBounded : ℕ → System A → Type 0
  IsBounded max s = (length s.bridge.in_flight ≤ max) × (s.bridge.max_in_flight ≡ max)

  Step-IsBounded :
      (max : ℕ) (s t : System A) → Step s t → IsTracked s → IsBounded max s → IsBounded max t
  unfolding set_in_flight_complete
  Step-IsBounded max s t (takes sm uuid parsed m k d e q) v b =
      elim (consume-cases sm uuid parsed m s.bridge k d e) [
        | inl (same, _, _) ↦ rw (q, same) b
        | inr (_, new, _, room) ↦
            rw (q, new)
              (
                omega (
                  arith,
                  length-put-le (req_offset_of m) (read_headers sm uuid parsed (new_context m)).0
                      s.bridge.in_flight,
                ),
                b.1,
              )
      ]
  Step-IsBounded max s t (confirms key k mark e q) v b =
      let (c, found, new, _) = producer_success-cases key s.bridge k mark e in
      rw (q, new)
        (
          omega (
            arith,
            set_in_flight_complete-length c s.bridge c (rw (entry s key c found v).keyed found),
          ),
          b.1,
        )

  Reach-IsBounded : (max : ℕ) {s : System A} → Reach (start max) s → IsBounded max s
  Reach-IsBounded max begin = (omega arith, refl)
  Reach-IsBounded max (next {t = t} {u = u} r st) =
      Step-IsBounded max t u st (Reach-IsTracked max r) (Reach-IsBounded max r)

  -- In any run from an empty bridge no more messages are in flight than the configured maximum.
  pub in_flight-le-max :
      (max : ℕ) (s : System A) → Reach (start max) s → length s.bridge.in_flight ≤ max
  in_flight-le-max max s r = (Reach-IsBounded max r).0
