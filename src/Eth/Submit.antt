-- ===== src/Eth/Submit.antt =====
-- Which call submits a transaction.
use zeroxyz.Prelude.{
  ℕ, String, List, [], ◌∷◌, Option, none, some, Bool, true, false, not, ◌≡◌, ◌≢◌, refl, sym, subst,
  ◌∙◌, inl, inr, Bool-cases, eq_iff, ◌==◌, string_key, if◌then◌else◌,
}
use zeroxyz.Errors.{Error}
use zeroxyz.Auth.{Result, ok, err}
use zeroxyz.Txn.Env.{nonempty}
use zeroxyz.Eth.Send.{
  TxSigner, Txn, SendTxArgs, Request, eth_send_transaction, eea_send_transaction,
  eth_send_raw_transaction, private_args, raw_request, signer_request, chosen_request, request_of,
}

-- What a call keeps of a transaction.
unfoldable pub IsKept : Txn → Request → Type 0
IsKept tx (eth_send_raw_transaction bytes) =
    (tx.privacy_group_id ≡ "")
    × (tx.private_for ≡ [])
    × ((s : TxSigner) × (tx.signer ≡ some s) × (s.sign tx.eth_tx ≡ ok bytes))
IsKept tx (eth_send_transaction args) =
    (tx.privacy_group_id ≡ "")
    × (tx.signer ≡ none)
    × (args.private_for ≡ tx.private_for)
    × (nonempty tx.private_for ≡ true → args.private_from ≡ tx.private_from)
IsKept tx (eea_send_transaction args) =
    (tx.privacy_group_id ≢ "")
    × (tx.signer ≡ none)
    × (args.privacy_group_id ≡ tx.privacy_group_id)
    × (args.private_from ≡ tx.private_from)
    × (args.private_from ≢ "")
    × (args.restriction ≡ "restricted")

nonempty_nil : (xs : List String) → nonempty xs ≡ false → xs ≡ []
nonempty_nil [] h = refl
nonempty_nil (x ∷ xs) h = absurd (cc)

-- The private fields of a transaction, as submitTXtoNode takes them up.
data Privacy (tx : Txn) (args : SendTxArgs) : Result (Bool × SendTxArgs) → Type 0 where
  refused : {e : Error} → Privacy tx args (err e)
  public : tx.privacy_group_id ≡ "" → tx.private_for ≡ [] → Privacy tx args (ok (false, args))
  quorum :
      tx.privacy_group_id ≡ ""
      → Privacy tx args
          (ok (true, record args { private_from = tx.private_from; private_for = tx.private_for }))
  orion :
      tx.privacy_group_id ≢ ""
      → tx.private_from ≢ ""
      → Privacy tx args (
          ok (
            true,
            record args {
              private_from = tx.private_from;
              privacy_group_id = tx.privacy_group_id;
              restriction = "restricted";
            },
          ))

private_args-Privacy : (tx : Txn) (args : SendTxArgs) → Privacy tx args (private_args tx args)
unfolding private_args
private_args-Privacy tx args = elim (Bool-cases (tx.privacy_group_id == "")) [
  | inr g ↦ elim (Bool-cases (tx.private_from == "")) [
    | inl f ↦ simp (g, f, not, if◌then◌else◌) refused
    | inr f ↦
        simp (g, f, not, if◌then◌else◌)
          (orion (λ e. cc (g, (eq_iff tx.privacy_group_id "").1 e))
            (λ e. cc (f, (eq_iff tx.private_from "").1 e)))
  ]
  | inl g ↦ elim (Bool-cases (nonempty tx.private_for)) [
    | inl n ↦ simp (g, n, not, if◌then◌else◌) (quorum ((eq_iff tx.privacy_group_id "").0 g))
    | inr n ↦
        simp (g, n, not, if◌then◌else◌)
          (public ((eq_iff tx.privacy_group_id "").0 g) (nonempty_nil tx.private_for n))
  ]
]

abbrev Kept : Txn → Result Request → Type 0
Kept tx (err e) = Unit
Kept tx (ok request) = IsKept tx request

signed_Kept :
    (tx : Txn) (s : TxSigner) (r : Result (List ℕ))
    → tx.privacy_group_id ≡ ""
    → tx.private_for ≡ []
    → tx.signer ≡ some s
    → s.sign tx.eth_tx ≡ r
    → Kept tx (raw_request r)
unfolding raw_request IsKept
signed_Kept tx s (err e) g f h k = tt
signed_Kept tx s (ok bytes) g f h k = (g, f, (s, h, k))

-- Each of the four forms, with a signer or none.
request_Kept :
    (tx : Txn) (args : SendTxArgs) (r : Result (Bool × SendTxArgs)) (o : Option TxSigner)
    → args.private_for ≡ []
    → tx.signer ≡ o
    → Privacy tx args r
    → Kept tx
        (elim r [ err e ↦ err e | ok (is_private, args) ↦ signer_request tx is_private args o ])
unfolding signer_request IsKept
request_Kept tx args r o a h refused = tt
request_Kept tx args r none a h (public g f) =
    simp ((eq_iff tx.privacy_group_id "").1 g, not, if◌then◌else◌)
      (g, h, a ∙ sym f, λ n. absurd (cc (n, f)))
request_Kept tx args r (some s) a h (public g f) = signed_Kept tx s _ g f h refl
request_Kept tx args r none a h (quorum g) =
    simp ((eq_iff tx.privacy_group_id "").1 g, not, if◌then◌else◌) (g, h, refl, λ n. refl)
request_Kept tx args r (some s) a h (quorum g) = tt
request_Kept tx args r none a h (orion g f) = elim (Bool-cases (tx.privacy_group_id == "")) [
  | inl e ↦ absurd (g ((eq_iff tx.privacy_group_id "").0 e))
  | inr e ↦ simp (e, not, if◌then◌else◌) (g, h, refl, refl, f, refl)
]
request_Kept tx args r (some s) a h (orion g f) = tt

chosen_Kept :
    (tx : Txn) (args : SendTxArgs) (r : Result (Bool × SendTxArgs))
    → args.private_for ≡ []
    → Privacy tx args r
    → Kept tx (chosen_request tx r)
unfolding chosen_request
chosen_Kept tx args (err e) a p = tt
chosen_Kept tx args (ok (is_private, b)) a p =
    request_Kept tx args (ok (is_private, b)) tx.signer a refl p

-- The call that submitTXtoNode makes, from arguments that name no private recipients, keeps what the
-- transaction says of its privacy. A raw transaction is signed by the transaction's signer, and only
-- if there is neither a privacy group nor a private recipient; eth_sendTransaction is made without a
-- signer and without a privacy group, with the private recipients, and with the private sender if
-- there are any; eea_sendTransaction is made without a signer, with the privacy group and the
-- private sender, which is not empty, as restricted.
pub request_of-IsKept :
    (tx : Txn) (args : SendTxArgs) (request : Request)
    → args.private_for ≡ []
    → request_of tx args ≡ ok request
    → IsKept tx request
unfolding request_of
request_of-IsKept tx args request a h =
    subst (Kept tx) h (chosen_Kept tx _ _ a (private_args-Privacy tx _))
