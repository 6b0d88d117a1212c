-- ===== src/Rest/Checks.antt =====
-- What webhooks.go and webhooksdirect.go check of a message and of a configuration.
use zeroxyz.Prelude.{
  String, Option, none, some, false, ◌≡◌, refl, ap, sym, subst, ◌∙◌, inl, inr, arith, ◌==◌,
  string_key, if◌then◌else◌, Bool-cases, ◌⊎◌,
}
use zeroxyz.Prelude.Int.{ℤ, pos, ltb_ℤ, leb_ℤ, ◌≤ℤ◌}
use zeroxyz.Auth.{ok}
use zeroxyz.Rest.Json.{
  Json, null, boolean, number, text, array, object, Fields, get_field, set_field,
  get_field-set_field,
}
use zeroxyz.Rest.Direct.{
  Read, nil, unfit, found, headers_of, text_in, known_type, gateway, process_msg,
  WebhooksDirectConf, validate, passed,
}

text_in-text : (o : Option Json) (s : String) → text_in o ≡ found s → o ≡ some (text s)
text_in-text none s h = absurd (cc)
text_in-text (some null) s h = absurd (cc)
text_in-text (some (boolean b)) s h = absurd (cc)
text_in-text (some (number n)) s h = absurd (cc)
text_in-text (some (text t)) s h = cc
text_in-text (some (array vs)) s h = absurd (cc)
text_in-text (some (object m)) s h = absurd (cc)

-- To split on what was read and keep the equation; nothing is passed on but what was found.
Read-cases : {A : Type 0} (r : Read A) → ((r ≡ nil) ⊎ (r ≡ unfit)) ⊎ ((a : A) × (r ≡ found a))
Read-cases nil = inl (inl refl)
Read-cases unfit = inl (inr refl)
Read-cases (found a) = inr (a, refl)

passed_inj :
    (key key' id id' : String) (msg msg' : Fields)
    → passed key id msg ≡ passed key' id' msg'
    → (key ≡ key') × (id ≡ id') × (msg ≡ msg')
passed_inj key key' id id' msg msg' h = (cc (h), cc (h), cc (h))

-- The message with the id in its headers.
abbrev pub labelled : String → Fields → Fields → Fields
labelled id headers msg = set_field "headers" (object (set_field "id" (text id) headers)) msg

get_field-labelled :
    (id : String) (headers msg : Fields)
    → (get_field "headers" (labelled id headers msg)
        ≡ some (object (set_field "id" (text id) headers)))
      × (get_field "id" (set_field "id" (text id) headers) ≡ some (text id))
      × (get_field "from" (labelled id headers msg) ≡ get_field "from" msg)
get_field-labelled id headers msg = (
  get_field-set_field "headers" "headers" _ msg,
  get_field-set_field "id" "id" (text id) headers,
  get_field-set_field "headers" "from" _ msg,
)

-- A message that is passed on, with no gateway for contracts, is passed on under the generated id and
-- the text of its `from`, and carries them: the id in its headers, whatever id the user set.
pub process_msg-passed :
    (id key id' : String) (msg msg' : Fields)
    → process_msg none id msg ≡ passed key id' msg'
    → (headers : Fields) × (id' ≡ id)
      × (get_field "headers" msg' ≡ some (object headers))
      × (get_field "id" headers ≡ some (text id))
      × (get_field "from" msg' ≡ some (text key))
unfolding process_msg gateway
process_msg-passed id key id' msg msg' = elim (Read-cases (headers_of (get_field "headers" msg))) [
  | inl (inl q) ↦ simp (q, process_msg) (λ h. absurd (cc (h)))
  | inl (inr q) ↦ simp (q, process_msg) (λ h. absurd (cc (h)))
  | inr (headers, q) ↦
      simp (q, process_msg)
        (elim (Read-cases (text_in (get_field "type" headers))) [
          | inl (inl q') ↦ simp (q', process_msg) (λ h. absurd (cc (h)))
          | inl (inr q') ↦ simp (q', process_msg) (λ h. absurd (cc (h)))
          | inr (t, q') ↦
              simp (q', process_msg)
                (elim (Bool-cases (known_type t)) [
                  | inr unknown ↦ simp unknown (λ h. absurd (cc (h)))
                  | inl known ↦ simp known (elim (Read-cases (text_in (get_field "from" msg))) [
                    | inl (inl q'') ↦ simp (q'', process_msg) (λ h. absurd (cc (h)))
                    | inl (inr q'') ↦ simp (q'', process_msg) (λ h. absurd (cc (h)))
                    | inr (from, q'') ↦
                        simp (q'', process_msg)
                          (λ h.
                            let (same_key, same_id, same_msg) =
                              passed_inj from key id id' (labelled id headers msg) msg' h in
                            let (in_headers, in_id, in_from) = get_field-labelled id headers msg in
                            (
                              set_field "id" (text id) headers,
                              sym same_id,
                              ap (get_field "headers") (sym same_msg) ∙ in_headers,
                              in_id,
                              ap (get_field "from") (sym same_msg)
                                  ∙ in_from
                                  ∙ text_in-text _ from q''
                                  ∙ ap (λ s. some (text s)) same_key,
                            ))
                  ])
                ])
        ])
]

abbrev wait_time : ℤ → ℤ
wait_time n = if ltb_ℤ n (pos 10) then pos 10 else n

abbrev capacity : ℤ → ℤ
capacity n = if leb_ℤ n (pos 0) then pos 10 else n

abbrev defaults : WebhooksDirectConf → WebhooksDirectConf
defaults conf = record conf {
  max_tx_wait_time = wait_time conf.max_tx_wait_time;
  max_in_flight = capacity conf.max_in_flight;
}

wait_time-ge : (n : ℤ) → pos 10 ≤ℤ wait_time n
wait_time-ge n = ground arith

capacity-ge : (n : ℤ) → pos 1 ≤ℤ capacity n
capacity-ge n = ground arith

wait_time_of_ge : (n : ℤ) → pos 10 ≤ℤ n → wait_time n ≡ n
wait_time_of_ge n h = ground (arith, h)

capacity_of_ge : (n : ℤ) → pos 1 ≤ℤ n → capacity n ≡ n
capacity_of_ge n h = ground (arith, h)

validate-defaults :
    (conf : WebhooksDirectConf) → (conf.rpc_url == "") ≡ false → validate conf ≡ ok (defaults conf)
unfolding validate
validate-defaults conf e = simp e refl

defaults-defaults : (conf : WebhooksDirectConf) → defaults (defaults conf) ≡ defaults conf
defaults-defaults conf =
    ap (λ (p : ℤ × ℤ). record conf { max_tx_wait_time = p.0; max_in_flight = p.1 })
      (λ i. (
        wait_time_of_ge _ (wait_time-ge conf.max_tx_wait_time) i,
        capacity_of_ge _ (capacity-ge conf.max_in_flight) i,
      ))

ok_inj : {A : Type 0} {a b : A} → ok a ≡ ok b → a ≡ b
ok_inj h = ground (arith, h)

abbrev IsValid : WebhooksDirectConf → Type 0
IsValid conf =
    (pos 1 ≤ℤ conf.max_in_flight) × (pos 10 ≤ℤ conf.max_tx_wait_time) × (validate conf ≡ ok conf)

-- A configuration that passes has room for a message and waits ten seconds or more, and passes again
-- as it is.
pub validate_again :
    (conf conf' : WebhooksDirectConf)
    → validate conf ≡ ok conf'
    → (pos 1 ≤ℤ conf'.max_in_flight)
      × (pos 10 ≤ℤ conf'.max_tx_wait_time)
      × (validate conf' ≡ ok conf')
unfolding validate
validate_again conf conf' = elim (Bool-cases (conf.rpc_url == "")) [
  | inl e ↦ simp e (λ h. absurd (cc (h)))
  | inr e ↦ simp e (λ h. subst IsValid (ok_inj h) (
    capacity-ge conf.max_in_flight,
    wait_time-ge conf.max_tx_wait_time,
    validate-defaults (defaults conf) e ∙ ap ok (defaults-defaults conf),
  ))
]
