-- ===== src/Stream/Mirrors.antt =====
-- The store holds every subscription that the manager holds.
use zeroxyz.Prelude.{
  String, Option, none, some, ◌≡◌, refl, sym, ap, ◌∙◌, subst, inl, inr, Bool-cases, ◌==◌,
  string_key, eq_iff, if◌then◌else◌, if_of_true, if_of_false,
}
use zeroxyz.Prelude.Maps.{lookup, put, lookup-put, lookup-delete}
use zeroxyz.Errors.{ErrorId, Error}
use zeroxyz.Auth.{Result, ok, err}
use zeroxyz.Stream.Poll.{SubscriptionInfo, Subscription, request_reset}
use zeroxyz.Stream.Kv.{KvStore, IsStore}
use zeroxyz.Stream.Subscriptions.{Stored, stored_subscription, EventAbi, persisted}
use zeroxyz.Stream.Manager.{
  Manager, if_ok, if_found, if_stored, store_subscription, keep_new, add_subscription,
  set_subscription, reset_found, reset_subscription, delete_found, delete_subscription, Change, add,
  reset, remove_subscription, change,
}

module _ {S E : Type 0} (kv : KvStore S (Stored E)) where
  -- Each subscription is kept under its identifier, and stored under it.
  unfoldable pub Mirrors : Manager S E → Type 0
  Mirrors m =
      (id : String) (sub : Subscription E)
      → lookup id m.subscriptions ≡ some sub
      → (sub.info.id ≡ id)
        × (lookup id (kv.entries m.db) ≡ some (stored_subscription (persisted sub.info)))

  module _ (law : IsStore kv) (abi : EventAbi E) where
    unfoldable Rows : Subscription E → Manager S E → Manager S E → Type 0
    Rows sub m m' =
        (j : String)
        → lookup j (kv.entries m'.db) ≡ (
            if sub.info.id == j
            then some (stored_subscription (persisted sub.info))
            else lookup j (kv.entries m.db))

    -- A subscription is put in memory and its details in the store.
    put-Mirrors :
        (m m' : Manager S E) (sub : Subscription E)
        → Mirrors m
        → m'.subscriptions ≡ put sub.info.id sub m.subscriptions
        → Rows sub m m'
        → Mirrors m'
    unfolding Mirrors Rows
    put-Mirrors m m' sub h p rows id x q =
        let look = sym q ∙ ap (lookup id) p ∙ lookup-put sub.info.id id sub m.subscriptions in
        elim (Bool-cases (sub.info.id == id)) [
          | inl a ↦
              let same : sub ≡ x =
                cc (look, if_of_true _ (some sub) (lookup id m.subscriptions) a) in
              subst
                (λ y.
                  (y.info.id ≡ id)
                  × (lookup id (kv.entries m'.db) ≡ some (stored_subscription (persisted y.info))))
                same ((eq_iff sub.info.id id).0 a, rows id ∙ if_of_true _ _ _ a)
          | inr a ↦
              let old =
                h id x (sym (look ∙ if_of_false _ (some sub) (lookup id m.subscriptions) a)) in
              (old.0, rows id ∙ if_of_false _ _ _ a ∙ old.1)
        ]

    stored-Rows :
        (sub : Subscription E) (m m' : Manager S E)
        → (kv.store sub.info.id (stored_subscription (persisted sub.info)) m.db).1 ≡ none
        → m'.db ≡ (kv.store sub.info.id (stored_subscription (persisted sub.info)) m.db).0
        → Rows sub m m'
    unfolding Rows
    stored-Rows sub m m' e d j =
        ap (λ s. lookup j (kv.entries s)) d
        ∙ law.lookup_stored sub.info.id (stored_subscription (persisted sub.info)) m.db e j

    -- The same details again change nothing in the store.
    same-Rows :
        (sub old : Subscription E) (m m' : Manager S E)
        → Mirrors m
        → lookup sub.info.id m.subscriptions ≡ some old
        → old.info ≡ sub.info
        → m'.db ≡ m.db
        → Rows sub m m'
    unfolding Rows Mirrors
    same-Rows sub old m m' h l q d j =
        ap (λ s. lookup j (kv.entries s)) d ∙ elim (Bool-cases (sub.info.id == j)) [
          | inl a ↦
              let same = (eq_iff sub.info.id j).0 a in
              ap (λ k. lookup k (kv.entries m.db)) (sym same)
              ∙ (h sub.info.id old l).1
              ∙ ap (λ i. some (stored_subscription (persisted i))) q
              ∙ sym (if_of_true _ _ _ a)
          | inr a ↦ sym (if_of_false _ _ _ a)
        ]

    no_error :
        (o : Option Error) (f : Error → Error)
        → Path (Option Error) (elim o [ none ↦ none | some e ↦ some (f e) ]) none
        → o ≡ none
    no_error none f h = refl
    no_error (some e) f h = absurd (cc (h))

    unfoldable Kept : Manager S E × Option Error → Type 0
    Kept r = r.1 ≡ none → Mirrors r.0

    keep_new-Kept :
        (m : Manager S E) (r : Result (Subscription E)) → Mirrors m → Kept (keep_new kv abi r m)
    unfolding Kept keep_new store_subscription
    keep_new-Kept m (err e) h n = absurd (cc (n))
    keep_new-Kept m (ok sub) h n =
        put-Mirrors m _ sub h refl (stored-Rows sub m _ (no_error _ _ n) refl)

    on_ok :
        {A : Type 0} (m : Manager S E) (r : Result A) (f : A → Manager S E × Option Error)
        → ((a : A) → Kept (f a))
        → Kept (if_ok m r f)
    unfolding Kept if_ok
    on_ok m (err e) f h n = absurd (cc (n))
    on_ok m (ok a) f h n = h a n

    on_found :
        {A : Type 0} (m : Manager S E) (id : ErrorId) (o : Option A)
        (f : A → Manager S E × Option Error)
        → ((a : A) → Kept (f a))
        → Kept (if_found m id o f)
    unfolding Kept if_found
    on_found m id none f h n = absurd (cc (n))
    on_found m id (some a) f h n = h a n

    on_stored :
        (r : Manager S E × Option Error) (f : Manager S E → Manager S E)
        → (r.1 ≡ none → Mirrors (f r.0))
        → Kept (if_stored r f)
    unfolding Kept if_stored
    on_stored (m, some e) f h n = absurd (cc (n))
    on_stored (m, none) f h n = h refl

    delete_Kept :
        (m : Manager S E) (sub : Subscription E) → Mirrors m → Kept (delete_found kv abi sub m)
    unfolding Kept delete_found Mirrors
    delete_Kept m sub h n id x q =
        let look = sym q ∙ lookup-delete sub.info.id id m.subscriptions in
        elim (Bool-cases (sub.info.id == id)) [
          | inl a ↦ absurd (cc (look, if_of_true _ none (lookup id m.subscriptions) a))
          | inr a ↦
              let old = h id x (sym (look ∙ if_of_false _ none (lookup id m.subscriptions) a)) in
              (old.0, law.lookup_removed sub.info.id m.db n id ∙ if_of_false _ _ _ a ∙ old.1)
        ]

    twice :
        (m : Manager S E) (sub : Subscription E)
        → Mirrors m
        → lookup sub.info.id m.subscriptions ≡ some sub
        → Mirrors (set_subscription kv abi (request_reset sub) m)
    unfolding set_subscription request_reset
    twice m sub h l =
        put-Mirrors m _ (request_reset sub) h refl
          (same-Rows (request_reset sub) sub m _ h l refl refl)

    reset_Kept :
        (m : Manager S E) (sub : Subscription E) (r : Result (SubscriptionInfo E))
        → Mirrors m
        → Kept (reset_found kv abi sub r m)
    unfolding reset_found store_subscription set_subscription Kept
    reset_Kept m sub (err e) h = λ n. absurd (cc (n))
    reset_Kept m sub (ok info) h =
        let changed = record sub { info = info } in
        on_stored _ _ (λ n.
          twice _ changed
            (put-Mirrors m _ changed h refl (stored-Rows changed m _ (no_error _ _ n) refl))
            (lookup-put info.id info.id changed m.subscriptions
              ∙ if_of_true _ _ _ ((eq_iff info.id info.id).1 refl)))

    change-Kept : (c : Change kv abi) (m : Manager S E) → Mirrors m → Kept (change kv abi c m)
    unfolding change add_subscription reset_subscription delete_subscription
    change-Kept (add id addr event stream initial name) m h =
        on_ok m _ _ (λ info. keep_new-Kept m _ h)
    change-Kept (reset id initial) m h = on_found m _ _ _ (λ sub. reset_Kept m sub _ h)
    change-Kept (remove_subscription id) m h = on_found m _ _ _ (λ sub. delete_Kept m sub h)

-- Take a store whose entries are, after each operation without an error, those from before with the
-- one changed, and a manager in which every subscription in memory is kept under its identifier and
-- stored under it with the details that it has in memory, the summary left out. The same holds after
-- a subscription has been added, reset or deleted without an error.
pub change-Mirrors :
    {S E : Type 0} (kv : KvStore S (Stored E)) (abi : EventAbi E) (c : Change kv abi)
    (m : Manager S E)
    → IsStore kv
    → Mirrors kv m
    → (change kv abi c m).1 ≡ none
    → Mirrors kv (change kv abi c m).0
unfolding Kept
change-Mirrors kv abi c m law h n = change-Kept kv law abi c m h n
