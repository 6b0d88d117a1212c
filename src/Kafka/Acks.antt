-- ===== src/Kafka/Acks.antt =====
-- Lemmas on the lists that `set_in_flight_complete` of kafkabridge.go builds.
use zeroxyz.Prelude.{
  ℕ, ◌≤◌, String, List, [], ◌∷◌, none, some, Bool, true, false, ◌≡◌, refl, ◌⊎◌, inl, inr, arith,
  All, Any, All-Any, All-mono, keep, length, ◌==◌, string_key, eqb, Bool-cases, if◌then◌else◌,
  eq_iff, eqb_iff,
}
use zeroxyz.Prelude.Maps.{Map, lookup, delete, lookup-delete, length-delete-le}
use zeroxyz.Kafka.Sort.{Message, MsgContext, less, insert, sort_by_offset}
use zeroxyz.Kafka.{ready_to_ack, delete_all, last_msg, same_partition}

module _ {A : Type 0} where
  abbrev pub offset : MsgContext A → ℕ
  offset c = c.sarama_msg.offset

  abbrev pub IsSorted : List (MsgContext A) → Type 0
  IsSorted [] = Unit {0}
  IsSorted (c ∷ cs) = All (λ (d : MsgContext A). offset c ≤ offset d) cs × IsSorted cs

  insert-All :
      (P : MsgContext A → Type 0) (c : MsgContext A) (cs : List (MsgContext A))
      → P c
      → All P cs
      → All P (insert c cs)
  unfolding insert
  insert-All P c [] p ps = (p, tt)
  insert-All P c (d ∷ ds) p ps = elim (Bool-cases (less c d)) [
    | inl e ↦ rw (e, if◌then◌else◌) (p, ps)
    | inr e ↦ rw (e, if◌then◌else◌) (ps.0, insert-All P c ds p ps.1)
  ]

  pub sort_by_offset-All :
      (P : MsgContext A → Type 0) (cs : List (MsgContext A)) → All P cs → All P (sort_by_offset cs)
  unfolding sort_by_offset
  sort_by_offset-All P [] ps = tt
  sort_by_offset-All P (c ∷ cs) ps =
      insert-All P c (sort_by_offset cs) ps.0 (sort_by_offset-All P cs ps.1)

  insert-Any :
      (P : MsgContext A → Type 0) (c : MsgContext A) (cs : List (MsgContext A))
      → P c ⊎ Any P cs
      → Any P (insert c cs)
  unfolding insert
  insert-Any P c [] h = h
  insert-Any P c (d ∷ ds) h = elim (Bool-cases (less c d)) [
    | inl e ↦ rw (e, if◌then◌else◌) h
    | inr e ↦
        rw (e, if◌then◌else◌)
          (elim h [
            | inl p ↦ inr (insert-Any P c ds (inl p))
            | inr (inl q) ↦ inl q
            | inr (inr q) ↦ inr (insert-Any P c ds (inr q))
          ])
  ]

  pub sort_by_offset-Any :
      (P : MsgContext A → Type 0) (cs : List (MsgContext A)) → Any P cs → Any P (sort_by_offset cs)
  unfolding sort_by_offset
  sort_by_offset-Any P [] h = h
  sort_by_offset-Any P (c ∷ cs) (inl p) = insert-Any P c (sort_by_offset cs) (inl p)
  sort_by_offset-Any P (c ∷ cs) (inr q) =
      insert-Any P c (sort_by_offset cs) (inr (sort_by_offset-Any P cs q))

  less-false : (c d : MsgContext A) → less c d ≡ false → offset d ≤ offset c
  unfolding less
  less-false c d h = ground arith

  less-true : (c d : MsgContext A) → less c d ≡ true → offset c ≤ offset d
  unfolding less
  less-true c d h = ground arith

  below :
      (o : ℕ) (c : MsgContext A) (cs : List (MsgContext A))
      → o ≤ offset c
      → All (λ (d : MsgContext A). offset c ≤ offset d) cs
      → All (λ (d : MsgContext A). o ≤ offset d) cs
  below o c cs h = All-mono _ _ cs (λ d k. omega arith)

  insert-IsSorted :
      (c : MsgContext A) (cs : List (MsgContext A)) → IsSorted cs → IsSorted (insert c cs)
  unfolding insert
  insert-IsSorted c [] s = (tt, tt)
  insert-IsSorted c (d ∷ ds) s = elim (Bool-cases (less c d)) [
    | inl e ↦
        rw (e, if◌then◌else◌) ((less-true c d e, below (offset c) d ds (less-true c d e) s.0), s)
    | inr e ↦
        rw (e, if◌then◌else◌) (insert-All _ c ds (less-false c d e) s.0, insert-IsSorted c ds s.1)
  ]

  pub sort_by_offset-IsSorted : (cs : List (MsgContext A)) → IsSorted (sort_by_offset cs)
  unfolding sort_by_offset
  sort_by_offset-IsSorted [] = tt
  sort_by_offset-IsSorted (c ∷ cs) =
      insert-IsSorted c (sort_by_offset cs) (sort_by_offset-IsSorted cs)

  -- A context that awaits its reply, at an offset.
  abbrev pub IsOpen : ℕ → MsgContext A → Type 0
  IsOpen o c = (c.complete ≡ false) × (offset c ≡ o)

  last_msg-cons :
      (c : MsgContext A) (cs : List (MsgContext A))
      → (last_msg (c ∷ cs) ≡ some c.sarama_msg) ⊎ (last_msg (c ∷ cs) ≡ last_msg cs)
  unfolding last_msg
  last_msg-cons c [] = inl refl
  last_msg-cons c (d ∷ ds) = inr refl

  -- The message that is marked does not lie behind one that awaits its reply.
  pub last_msg-ready_to_ack-le :
      (o : ℕ) (cs : List (MsgContext A)) (m : Message)
      → IsSorted cs
      → Any (IsOpen o) cs
      → last_msg (ready_to_ack cs) ≡ some m
      → m.offset ≤ o
  unfolding ready_to_ack
  last_msg-ready_to_ack-le o [] m s h e = absurd h
  last_msg-ready_to_ack-le o (c ∷ cs) m s (inl p) e = absurd (unfold last_msg in ground arith)
  last_msg-ready_to_ack-le o (c ∷ cs) m s (inr h) e = elim (Bool-cases c.complete) [
    | inr waits ↦ absurd (unfold last_msg in ground arith)
    | inl done ↦ elim (last_msg-cons c (ready_to_ack cs)) [
      | inl q ↦
          let first = All-Any _ _ (offset c ≤ o) cs (λ d le is. omega (arith, is.1)) s.0 h in
          ground arith
      | inr q ↦ last_msg-ready_to_ack-le o cs m s.1 h (ground arith)
    ]
  ]

  pub ready_to_ack-All :
      (P : MsgContext A → Type 0) (cs : List (MsgContext A))
      → All P cs
      → All (λ (c : MsgContext A). P c × (c.complete ≡ true)) (ready_to_ack cs)
  unfolding ready_to_ack
  ready_to_ack-All P [] ps = tt
  ready_to_ack-All P (c ∷ cs) ps = elim (Bool-cases c.complete) [
    | inl e ↦ simp e ((ps.0, refl), ready_to_ack-All P cs ps.1)
    | inr e ↦ rw (e, if◌then◌else◌) tt
  ]

  pub has_key : String → List (MsgContext A) → Bool
  has_key j [] = false
  has_key j (c ∷ cs) = if c.req_offset == j then true else has_key j cs

  pub lookup-delete_all :
      (j : String) (cs : List (MsgContext A)) (m : Map String (MsgContext A))
      → lookup j (delete_all cs m) ≡ (if has_key j cs then none else lookup j m)
  unfolding delete_all has_key
  lookup-delete_all j [] m = refl
  lookup-delete_all j (c ∷ cs) m =
      ground (arith, lookup-delete_all j cs (delete c.req_offset m), lookup-delete c.req_offset j m)

  -- A key that stands among contexts of which `P` holds has a context of which `P` holds.
  pub has_key-Any :
      (P : MsgContext A → Type 0) (R : Type 0) (j : String) (cs : List (MsgContext A))
      → ((c : MsgContext A) → P c → c.req_offset ≡ j → R)
      → All P cs
      → has_key j cs ≡ true
      → R
  unfolding has_key
  has_key-Any P R j [] f ps h = absurd (cc)
  has_key-Any P R j (c ∷ cs) f ps h = elim (Bool-cases (c.req_offset == j)) [
    | inl e ↦ f c ps.0 ((eq_iff c.req_offset j).0 e)
    | inr e ↦ has_key-Any P R j cs f ps.1 (ground arith)
  ]

  pub length-delete_all-le :
      (cs : List (MsgContext A)) (m : Map String (MsgContext A))
      → length (delete_all cs m) ≤ length m
  unfolding delete_all
  length-delete_all-le [] m = omega arith
  length-delete_all-le (c ∷ cs) m =
      omega
        (arith, length-delete_all-le cs (delete c.req_offset m), length-delete-le c.req_offset m)

  -- From the map to the contexts of a partition.
  pub same_partition-All :
      (P : MsgContext A → Type 0) (p : ℕ) (m : Map String (MsgContext A))
      → All (λ (entry : String × MsgContext A). P entry.1) m
      → All P (same_partition p m)
  unfolding same_partition keep
  same_partition-All P p [] ps = tt
  same_partition-All P p ((j, c) ∷ m) ps = elim (Bool-cases (eqb c.sarama_msg.partition p)) [
    | inl e ↦ rw (e, if◌then◌else◌) (ps.0, same_partition-All P p m ps.1)
    | inr e ↦ rw (e, if◌then◌else◌) (same_partition-All P p m ps.1)
  ]

  pub same_partition-Any :
      (P : MsgContext A → Type 0) (j : String) (p : ℕ) (c : MsgContext A)
      → (m : Map String (MsgContext A)) → lookup j m ≡ some c
      → c.sarama_msg.partition ≡ p
      → P c
      → Any P (same_partition p m)
  unfolding same_partition keep lookup
  same_partition-Any P j p c [] e q h = absurd (cc)
  same_partition-Any P j p c ((i, d) ∷ m) e q h = elim (Bool-cases (i == j)) [
    | inl hit ↦
        let here : d ≡ c = ground arith in
        rw (here, (eqb_iff c.sarama_msg.partition p).1 q, if◌then◌else◌) (inl h)
    | inr miss ↦
        let rest = same_partition-Any P j p c m (ground arith) q h in
        elim (Bool-cases (eqb d.sarama_msg.partition p)) [
          | inl e' ↦ rw (e', if◌then◌else◌) (inr rest)
          | inr e' ↦ rw (e', if◌then◌else◌) rest
        ]
  ]

  pub same_partition_lem :
      (p : ℕ) (m : Map String (MsgContext A))
      → All (λ (c : MsgContext A). c.sarama_msg.partition ≡ p) (same_partition p m)
  unfolding same_partition keep
  same_partition_lem p [] = tt
  same_partition_lem p ((j, c) ∷ m) = elim (Bool-cases (eqb c.sarama_msg.partition p)) [
    | inl e ↦ rw (e, if◌then◌else◌) ((eqb_iff c.sarama_msg.partition p).0 e, same_partition_lem p m)
    | inr e ↦ rw (e, if◌then◌else◌) (same_partition_lem p m)
  ]

  -- What holds of the message of every context holds of the last one.
  pub last_msg-All :
      (P : Message → Type 0) (cs : List (MsgContext A)) (m : Message)
      → All (λ (c : MsgContext A). P c.sarama_msg) cs
      → last_msg cs ≡ some m
      → P m
  unfolding last_msg
  last_msg-All P [] m ps e = absurd (cc)
  last_msg-All P (c ∷ []) m ps e = let same : c.sarama_msg ≡ m = ground arith in rw same at ps.0
  last_msg-All P (c ∷ d ∷ cs) m ps e = last_msg-All P (d ∷ cs) m ps.1 e
