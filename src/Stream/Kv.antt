-- ===== src/Stream/Kv.antt =====
-- KVStore of kvstore.go, and the one in memory of memkv.go.
use zeroxyz.Prelude.{
  ◌≡◌, ◌==◌, if◌then◌else◌, string_key, String, List, Option, none, some, string_key,
}
use zeroxyz.Prelude.Maps.{Map, lookup, put, delete, lookup-put, lookup-delete}
use zeroxyz.Errors.{Error}
use zeroxyz.Auth.{Result, ok, err}

-- KVStore: `none` from `load` is ErrNotFound, and `entries` is what an iterator goes through.
pub record KvStore (S V : Type 0) : Type 0 where
  pub store : String → V → S → S × Option Error
  pub load : String → S → Result (Option V)
  pub remove : String → S → S × Option Error
  pub entries : S → List (String × V)

-- MockKV
pub record MockKv (V : Type 0) : Type 0 where
  pub kvs : Map String V
  pub store_err : Option Error
  pub load_err : Option Error
  pub delete_err : Option Error

module _ {V : Type 0} where
  unfoldable pub mock_put : String → V → MockKv V → MockKv V × Option Error
  mock_put key v m = (record m { kvs = put key v m.kvs }, m.store_err)

  unfoldable pub mock_get : String → MockKv V → Result (Option V)
  mock_get key m = elim m.load_err [ none ↦ ok (lookup key m.kvs) | some e ↦ err e ]

  unfoldable pub mock_delete : String → MockKv V → MockKv V × Option Error
  mock_delete key m = (record m { kvs = delete key m.kvs }, m.delete_err)

  -- The iterator of the mock is not implemented; the entries stand in for it.
  unfoldable pub mock_kv : KvStore (MockKv V) V
  unfolding mock_put mock_get mock_delete
  mock_kv = record { store = mock_put; load = mock_get; remove = mock_delete; entries = λ m. m.kvs }

-- What the code relies on of a store: where `store` and `remove` give no error, the entries are
-- those from before with the one changed.
pub record IsStore {S V : Type 0} (kv : KvStore S V) : Type 0 where
  pub lookup_stored :
      (k : String) (v : V) (s : S)
      → (kv.store k v s).1 ≡ none
      → (j : String)
      → lookup j (kv.entries (kv.store k v s).0)
        ≡ (if k == j then some v else lookup j (kv.entries s))
  pub lookup_removed :
      (k : String) (s : S)
      → (kv.remove k s).1 ≡ none
      → (j : String)
      → lookup j (kv.entries (kv.remove k s).0) ≡ (if k == j then none else lookup j (kv.entries s))

-- The one in memory is such a store.
pub mock_kv-IsStore : (V : Type 0) → IsStore (mock_kv {V = V})
unfolding mock_kv
mock_kv-IsStore V = record {
  lookup_stored = λ k v s e j. lookup-put k j v s.kvs;
  lookup_removed = λ k s e j. lookup-delete k j s.kvs;
}
