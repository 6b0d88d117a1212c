-- ===== src/Address/Book.antt =====
-- addressbook.go of internal/maidenlanetx, with GetResponseString of
-- internal/maidenlaneutils/httprequester.go.
use Prim.Native.Char.{code}
use Prim.Native.String as Text
use Prim.Native.String.{◌++◌}
use zeroxyz.Prelude.{
  String, List, [], ◌∷◌, Option, none, some, Bool, false, not, ◌&&◌, eqb, if◌then◌else◌, ◌==◌,
  string_key,
}
use zeroxyz.Prelude.Maps.{Map, lookup, put, delete}
use zeroxyz.Errors.{ErrorId, errorf}
use zeroxyz.Auth.{Result, ok, err}
use zeroxyz.Rest.Json.{null, text, Fields, get_field}
use zeroxyz.Address.Hosts.{is_empty, split, parse_hosts}

-- What the book asks of Go's net/url (U), of the disk, of the registry and of the nodes (C), as it
-- is during one call. `do_request` gives none where the registry knows nothing.
pub record Outside (U C : Type 0) : Type 0 where
  pub parse_url : String → Option U
  pub host : U → String
  pub with_host : String → U → U
  pub url_text : U → String
  pub read_file : String → Result String
  pub do_request : String → Result (Option Fields)
  pub healthy : C → Bool
  pub rpc_connect : String → Result C

pub record AddressBookConf : Type 0 where
  pub url_prefix : String
  pub hosts_file : String
  pub rpc_endpoint : String

-- `closed` are the clients that the book has closed.
pub record AddressBook (C : Type 0) : Type 0 where
  pub conf : AddressBookConf
  pub fallback_rpc_endpoint : String
  pub addr_to_host : Map String String
  pub host_to_rpc : Map String C
  pub closed : List C

unfoldable pub ends_with_slash : String → Bool
ends_with_slash Text.[] = false
ends_with_slash (Text.◌∷◌ c s) =
    let rest = ends_with_slash s in if is_empty s then eqb (code c) b'/' else rest

-- NewAddressBook
unfoldable pub new_address_book : {C : Type 0} → AddressBookConf → String → AddressBook C
unfolding ends_with_slash
new_address_book conf fallback = record {
  conf = record conf {
    rpc_endpoint = if conf.rpc_endpoint == "" then "endpoint" else conf.rpc_endpoint;
    url_prefix =
        if not (conf.url_prefix == "") && not (ends_with_slash conf.url_prefix)
        then conf.url_prefix ++ "/"
        else conf.url_prefix;
  };
  fallback_rpc_endpoint = fallback;
  addr_to_host = [];
  host_to_rpc = [];
  closed = [];
}

-- GetResponseString
unfoldable pub get_response_string : String → Bool → Fields → Result String
get_response_string p empty_ok m = elim (get_field p m) [
  | none ↦ err (errorf ErrorId.http_requester_response_missing_field)
  | some (text s) ↦
      if not empty_ok && (s == "")
      then err (errorf ErrorId.http_requester_response_null_field)
      else ok s
  | some null ↦ if empty_ok then ok "" else err (errorf ErrorId.http_requester_response_null_field)
  | some _ ↦ err (errorf ErrorId.http_requester_response_non_string_field)
]

abbrev pub with_port : String → List String → String
with_port mapped [] = mapped
with_port mapped (port ∷ _) = mapped ++ (":" ++ port)

module _ {C : Type 0} where
  abbrev pub drop_stale : String → C → AddressBook C → AddressBook C
  drop_stale endpoint rpc b = record b {
    host_to_rpc = delete endpoint b.host_to_rpc;
    closed = rpc ∷ b.closed;
  }

  -- The endpoint that addrToHost has for an address, where it is not empty.
  unfoldable pub known_endpoint : String → AddressBook C → Option String
  known_endpoint addr b = elim (lookup addr b.addr_to_host) [
    | none ↦ none
    | some endpoint ↦ if endpoint == "" then none else some endpoint
  ]

module _ {U C : Type 0} where
  -- The host of a URL replaced by what the file of hosts says.
  unfoldable pub map_host : Outside U C → List String → Map String String → U → U
  map_host out [] hosts url = url
  map_host out (name ∷ ports) hosts url = elim (lookup name hosts) [
    | none ↦ url
    | some mapped ↦ if mapped == "" then url else out.with_host (with_port mapped ports) url
  ]

  unfoldable pub resolve_host : Outside U C → AddressBookConf → String → Result U
  resolve_host out conf endpoint = elim (out.parse_url endpoint) [
    | none ↦ err (errorf ErrorId.address_book_lookup_bad_url)
    | some url ↦ if conf.hosts_file == "" then ok url else elim (out.read_file conf.hosts_file) [
      | err _ ↦ err (errorf ErrorId.address_book_lookup_bad_hosts_file)
      | ok content ↦
          ok (map_host out (split (λ c. eqb c b':') (out.host url)) (parse_hosts content) url)
    ]
  ]

  -- The connection that mapEndpoint makes.
  unfoldable pub connect : Outside U C → String → AddressBook C → Result C × AddressBook C
  connect out endpoint b = elim (resolve_host out b.conf endpoint) [
    | err e ↦ (err e, b)
    | ok url ↦ elim (out.rpc_connect (out.url_text url)) [
      | err e ↦ (err e, b)
      | ok rpc ↦ (ok rpc, record b { host_to_rpc = put endpoint rpc b.host_to_rpc })
    ]
  ]

  unfoldable pub map_endpoint : Outside U C → String → AddressBook C → Result C × AddressBook C
  map_endpoint out endpoint b = elim (lookup endpoint b.host_to_rpc) [
    | none ↦ connect out endpoint b
    | some rpc ↦
        if out.healthy rpc then (ok rpc, b) else connect out endpoint (drop_stale endpoint rpc b)
  ]

  -- The first half of lookup: the endpoint for an address.
  unfoldable pub find_endpoint :
      Outside U C → String → AddressBook C → Result String × AddressBook C
  find_endpoint out addr b = elim (known_endpoint addr b) [
    | some endpoint ↦ (ok endpoint, b)
    | none ↦ elim (out.do_request (b.conf.url_prefix ++ addr)) [
      | err e ↦ (err e, b)
      | ok none ↦
          if b.fallback_rpc_endpoint == ""
          then (err (errorf ErrorId.address_book_lookup_not_found), b)
          else (ok b.fallback_rpc_endpoint, b)
      | ok (some body) ↦ elim (get_response_string b.conf.rpc_endpoint false body) [
        | err e ↦ (err e, b)
        | ok endpoint ↦ (ok endpoint, record b { addr_to_host = put addr endpoint b.addr_to_host })
      ]
    ]
  ]

  abbrev pub use_endpoint : Outside U C → Result String × AddressBook C → Result C × AddressBook C
  use_endpoint out (err e, b) = (err e, b)
  use_endpoint out (ok endpoint, b) = map_endpoint out endpoint b

  -- lookup
  unfoldable pub look_up : Outside U C → String → AddressBook C → Result C × AddressBook C
  look_up out addr b = use_endpoint out (find_endpoint out addr b)
