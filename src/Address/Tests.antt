-- ===== src/Address/Tests.antt =====
-- The address book with a registry that knows one address.
use zeroxyz.Prelude.{
  ℕ, String, [], ◌∷◌, none, some, true, ◌≡◌, refl, if◌then◌else◌, ◌==◌, string_key,
}
use zeroxyz.Prelude.Maps.{lookup, put}
use zeroxyz.Errors.{ErrorId, errorf}
use zeroxyz.Auth.{ok, err}
use zeroxyz.Rest.Json.{text, no_fields, field, get_field}
use zeroxyz.Address.Hosts.{parse_hosts, split}
use zeroxyz.Address.Book.{
  Outside, AddressBook, new_address_book, map_host, resolve_host, connect, map_endpoint,
  known_endpoint, find_endpoint, get_response_string, look_up,
}
use zeroxyz.Address.Cache.{look_up_again}

-- URLs are their host, and a client is the number of its node.
abbrev outside : Outside String ℕ
outside = record {
  parse_url = λ s. some s;
  host = λ u. u;
  with_host = λ h u. h;
  url_text = λ u. u;
  read_file = λ f. ok "10.0.0.1 node1\n";
  do_request = λ url.
      if url == "http://book/0xaa"
      then ok (some (field "endpoint" (text "node1:80") no_fields))
      else ok none;
  healthy = λ n. true;
  rpc_connect =
      λ url. if url == "10.0.0.1:80" then ok 7 else err (errorf ErrorId.rpc_connect_failed);
}

abbrev later : Outside String ℕ
later = record outside {
  do_request = λ url. ok none;
  rpc_connect = λ url. err (errorf ErrorId.rpc_connect_failed);
}

abbrev empty : AddressBook ℕ
empty =
    new_address_book
      (record { url_prefix = "http://book"; hosts_file = "/etc/hosts"; rpc_endpoint = "" }) ""

abbrev filled : AddressBook ℕ
filled = record empty {
  addr_to_host = ("0xaa", "node1:80") ∷ [];
  host_to_rpc = ("node1:80", 7) ∷ [];
}

first_look_up : look_up outside "0xaa" empty ≡ (ok 7, filled)
unfolding look_up new_address_book find_endpoint known_endpoint lookup get_response_string get_field
    map_endpoint connect resolve_host map_host split parse_hosts put
first_look_up = refl

look_up_again_example : look_up later "0xaa" filled ≡ (ok 7, filled)
unfolding new_address_book
look_up_again_example =
    look_up_again outside later "0xaa" 7 empty filled (λ h. absurd (cc (h))) first_look_up refl
