-- ===== src/Address/Cache.antt =====
-- What the address book remembers of endpoints and connections.
use Prim.Native.String.{◌++◌}
use zeroxyz.Prelude.{
  String, none, some, true, false, ◌≡◌, refl, sym, ◌∙◌, ap, inl, inr, ◌⊎◌, subst, if◌then◌else◌,
  ◌==◌, string_key, Bool-cases, Option-cases,
}
use zeroxyz.Prelude.Maps.{lookup, put, lookup-put, lookup-delete}
use zeroxyz.Errors.{Error}
use zeroxyz.Auth.{Result, ok, err, Result-cases}
use zeroxyz.Rest.Json.{null, boolean, number, text, array, object, Fields, get_field}
use zeroxyz.Address.Book.{
  Outside, AddressBook, resolve_host, connect, drop_stale, map_endpoint, known_endpoint,
  find_endpoint, get_response_string, use_endpoint, look_up,
}

same_text : (s : String) → (s == s) ≡ true
same_text s = (string_key.equal_iff s s).1 refl

module _ {C : Type 0} where
  -- What a new connection leaves in the book.
  abbrev pub Connected : String → AddressBook C → Result C × AddressBook C → Type 0
  Connected endpoint b (err e, b') = b' ≡ b
  Connected endpoint b (ok rpc, b') = b' ≡ record b { host_to_rpc = put endpoint rpc b.host_to_rpc }

  -- What the book holds after mapEndpoint: the client that is handed out, or none.
  abbrev pub Mapped : String → AddressBook C → Result C × AddressBook C → Type 0
  Mapped endpoint b (err e, b') = lookup endpoint b'.host_to_rpc ≡ none
  Mapped endpoint b (ok rpc, b') =
      (lookup endpoint b'.host_to_rpc ≡ some rpc) × (b'.addr_to_host ≡ b.addr_to_host)

  Connected-Mapped :
      (endpoint : String) (b b₀ : AddressBook C) (r : Result C × AddressBook C)
      → lookup endpoint b.host_to_rpc ≡ none
      → b.addr_to_host ≡ b₀.addr_to_host
      → Connected endpoint b r
      → Mapped endpoint b₀ r
  Connected-Mapped endpoint b b₀ (err e, b') h k c =
      ap (λ (x : AddressBook C). lookup endpoint x.host_to_rpc) c ∙ h
  Connected-Mapped endpoint b b₀ (ok rpc, b') h k c = (
    ap (λ (x : AddressBook C). lookup endpoint x.host_to_rpc) c
        ∙ simp (lookup-put, same_text endpoint) refl,
    ap (λ (x : AddressBook C). x.addr_to_host) c ∙ k,
  )

module _ {U C : Type 0} (out : Outside U C) where
  connect-Connected :
      (endpoint : String) (b : AddressBook C) → Connected endpoint b (connect out endpoint b)
  unfolding connect
  connect-Connected endpoint b = elim (Result-cases (resolve_host out b.conf endpoint)) [
    | inl (e, q) ↦ simp (q, connect) refl
    | inr (url, q) ↦ elim (Result-cases (out.rpc_connect (out.url_text url))) [
      | inl (e, q') ↦ simp (q, q', connect) refl
      | inr (rpc, q') ↦ simp (q, q', connect) refl
    ]
  ]

  map_endpoint_cached :
      (endpoint : String) (rpc : C) (b : AddressBook C)
      → lookup endpoint b.host_to_rpc ≡ some rpc
      → map_endpoint out endpoint b ≡ (
          if out.healthy rpc then (ok rpc, b) else connect out endpoint (drop_stale endpoint rpc b))
  unfolding map_endpoint
  map_endpoint_cached endpoint rpc b h = simp (h, map_endpoint) refl

  map_endpoint_new :
      (endpoint : String) (b : AddressBook C)
      → lookup endpoint b.host_to_rpc ≡ none
      → map_endpoint out endpoint b ≡ connect out endpoint b
  unfolding map_endpoint
  map_endpoint_new endpoint b h = simp (h, map_endpoint) refl

  pub map_endpoint-Mapped :
      (endpoint : String) (b : AddressBook C) → Mapped endpoint b (map_endpoint out endpoint b)
  map_endpoint-Mapped endpoint b = elim (Option-cases (lookup endpoint b.host_to_rpc)) [
    | inl q ↦
        rw (map_endpoint_new endpoint b q)
          (Connected-Mapped endpoint b b _ q refl (connect-Connected endpoint b))
    | inr (rpc, q) ↦ elim (Bool-cases (out.healthy rpc)) [
      | inl well ↦ rw (map_endpoint_cached endpoint rpc b q, well) (q, refl)
      | inr stale ↦
          rw (map_endpoint_cached endpoint rpc b q, stale)
            (Connected-Mapped endpoint (drop_stale endpoint rpc b) b _
              (simp (lookup-delete, same_text endpoint) refl) refl
              (connect-Connected endpoint (drop_stale endpoint rpc b)))
    ]
  ]

get_response_string-text :
    (p : String) (m : Fields) (s : String)
    → get_response_string p false m ≡ ok s
    → (s == "") ≡ false
unfolding get_response_string
get_response_string-text p m s = elim (Option-cases (get_field p m)) [
  | inl q ↦ simp (q, get_response_string) (λ h. absurd (cc (h)))
  | inr (boolean x, q) ↦ simp (q, get_response_string) (λ h. absurd (cc (h)))
  | inr (number x, q) ↦ simp (q, get_response_string) (λ h. absurd (cc (h)))
  | inr (array x, q) ↦ simp (q, get_response_string) (λ h. absurd (cc (h)))
  | inr (object x, q) ↦ simp (q, get_response_string) (λ h. absurd (cc (h)))
  | inr (null, q) ↦ simp (q, get_response_string) (λ h. absurd (cc (h)))
  | inr (text t, q) ↦ elim (Bool-cases (t == "")) [
    | inl e ↦ simp (q, e, get_response_string) (λ h. absurd (cc (h)))
    | inr e ↦
        simp (q, e, get_response_string)
          (λ h. let same : t ≡ s = cc (h) in ap (λ x. x == "") (sym same) ∙ e)
  ]
]

known_endpoint-put :
    {C : Type 0} (addr endpoint : String) (b : AddressBook C)
    → (endpoint == "") ≡ false
    → lookup addr b.addr_to_host ≡ some endpoint
    → known_endpoint addr b ≡ some endpoint
unfolding known_endpoint
known_endpoint-put addr endpoint b e h = simp (h, e, known_endpoint) refl

known_endpoint_same :
    {C : Type 0} (addr : String) (b b' : AddressBook C)
    → b'.addr_to_host ≡ b.addr_to_host
    → known_endpoint addr b' ≡ known_endpoint addr b
unfolding known_endpoint
known_endpoint_same addr b b' h = simp (h, known_endpoint) refl

module _ {U C : Type 0} (out : Outside U C) where
  find_endpoint_known :
      (addr endpoint : String) (b : AddressBook C)
      → known_endpoint addr b ≡ some endpoint
      → find_endpoint out addr b ≡ (ok endpoint, b)
  unfolding find_endpoint
  find_endpoint_known addr endpoint b h = simp (h, find_endpoint) refl

  -- An endpoint that the registry gave is known from then on.
  find_endpoint-known :
      (addr endpoint : String) (b b' : AddressBook C)
      → (out.do_request (b.conf.url_prefix ++ addr) ≡ ok none → ⊥)
      → find_endpoint out addr b ≡ (ok endpoint, b')
      → known_endpoint addr b' ≡ some endpoint
  unfolding find_endpoint
  find_endpoint-known addr endpoint b b' hit = elim (Option-cases (known_endpoint addr b)) [
    | inr (e, q) ↦
        simp (q, find_endpoint)
          (λ h.
            let same : b ≡ b' = cc (h) in
            let text : e ≡ endpoint = cc (h) in
            ap (known_endpoint addr) (sym same) ∙ q ∙ ap some text)
    | inl q ↦ elim (Result-cases (out.do_request (b.conf.url_prefix ++ addr))) [
      | inl (e, q') ↦ simp (q, q', find_endpoint) (λ h. absurd (cc (h)))
      | inr (none, q') ↦ absurd (hit q')
      | inr (some body, q') ↦
          elim (Result-cases (get_response_string b.conf.rpc_endpoint false body)) [
            | inl (e, q'') ↦ simp (q, q', q'', find_endpoint) (λ h. absurd (cc (h)))
            | inr (e, q'') ↦
                simp (q, q', q'', find_endpoint)
                  (λ h.
                    let same : record b { addr_to_host = put addr e b.addr_to_host } ≡ b' =
                      cc (h) in
                    let text : e ≡ endpoint = cc (h) in
                    ap (known_endpoint addr) (sym same)
                    ∙ known_endpoint-put addr e _
                        (get_response_string-text b.conf.rpc_endpoint body e q'')
                        (simp (lookup-put, same_text addr) refl)
                    ∙ ap some text)
          ]
    ]
  ]

found :
    {A B : Type 0} (p : Result A × B)
    → ((e : Error) × (b : B) × (p ≡ (err e, b))) ⊎ ((a : A) × (b : B) × (p ≡ (ok a, b)))
found (err e, b) = inl (e, b, refl)
found (ok a, b) = inr (a, b, refl)

-- A client that was found for an address, where the registry does not answer that it knows nothing of
-- the address, is found again, and the book stays as it is: whatever the registry, the hosts and the
-- nodes answer by then, as long as the client is healthy.
pub look_up_again :
    {U V C : Type 0} (out : Outside U C) (later : Outside V C) (addr : String) (rpc : C)
    (b b' : AddressBook C)
    → (out.do_request (b.conf.url_prefix ++ addr) ≡ ok none → ⊥)
    → look_up out addr b ≡ (ok rpc, b')
    → later.healthy rpc ≡ true
    → look_up later addr b' ≡ (ok rpc, b')
unfolding look_up
look_up_again out later addr rpc b b' hit h well = elim (found (find_endpoint out addr b)) [
  | inl (e, b₁, q) ↦
      let failure : Path (Result _ × AddressBook _) (err e, b₁) (ok rpc, b') =
        sym (ap (use_endpoint out) q) ∙ h in
      absurd (cc (failure))
  | inr (endpoint, b₁, q) ↦
      let mapped = sym (ap (use_endpoint out) q) ∙ h in
      let (cached, same) =
        subst (λ r. Mapped endpoint b₁ r) mapped (map_endpoint-Mapped out endpoint b₁) in
      let known =
        known_endpoint_same addr b₁ b' same ∙ find_endpoint-known out addr endpoint b b₁ hit q in
      ap (use_endpoint later) (find_endpoint_known later addr endpoint b' known)
      ∙ map_endpoint_cached later endpoint rpc b' cached
      ∙ ap (λ t. if t then (ok rpc, b') else connect later endpoint (drop_stale endpoint rpc b'))
          well
]
