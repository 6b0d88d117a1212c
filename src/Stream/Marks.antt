-- ===== src/Stream/Marks.antt =====
-- The high water marks that an acknowledged batch leaves: the callbacks of processBatch of
-- eventstream.go and batchComplete of logprocessor.go.
use zeroxyz.Prelude.{
  ℕ, ◌+◌, String, List, [], ◌∷◌, Option, none, some, true, false, ◌≡◌, refl, ap, sym, ◌∙◌, inl, inr,
  arith, ltb, ◌==◌, string_key, eq_iff, if◌then◌else◌, Bool-cases,
}
use zeroxyz.Prelude.Maps.{Map, lookup, put, lookup-put}
use zeroxyz.Stream.State.{EventData, EventStream, suspend_or_stop}
use zeroxyz.Stream.Steps.{callbacks, hwm_of, batch_complete, complete_all, acknowledge}

-- The last event of a subscription in a batch, or `found` if it has none.
abbrev pub last_of : String → List EventData → Option EventData → Option EventData
last_of sub [] found = found
last_of sub (event ∷ events) found =
    last_of sub events (if event.sub_id == sub then some event else found)

-- A mark, raised to the block after the event.
abbrev pub raised : Option EventData → ℕ → ℕ
raised none n = n
raised (some event) n = if ltb n (event.block_number + 1) then event.block_number + 1 else n

lookup-callbacks :
    (sub : String) (events : List EventData) (cbs : Map String EventData)
    → lookup sub (callbacks events cbs) ≡ last_of sub events (lookup sub cbs)
unfolding callbacks
lookup-callbacks sub [] cbs = refl
lookup-callbacks sub (event ∷ events) cbs =
    lookup-callbacks sub events (put event.sub_id event cbs)
    ∙ ap (last_of sub events) (lookup-put event.sub_id sub event cbs)

-- No key stands twice.
abbrev IsDistinct : Map String EventData → Type 0
IsDistinct [] = Unit {0}
IsDistinct ((sub, event) ∷ cbs) = (lookup sub cbs ≡ none) × IsDistinct cbs

put-IsDistinct :
    (sub : String) (event : EventData) (cbs : Map String EventData)
    → IsDistinct cbs
    → IsDistinct (put sub event cbs)
unfolding put lookup
put-IsDistinct sub event [] d = (refl, tt)
put-IsDistinct sub event ((s, e) ∷ cbs) d = elim (Bool-cases (s == sub)) [
  | inl q ↦ simp q (ap (λ k. lookup k cbs) (sym ((eq_iff s sub).0 q)) ∙ d.0, d.1)
  | inr q ↦ simp q (
    lookup-put sub s event cbs ∙ ground (arith, d.0, q, eq_iff s sub, eq_iff sub s),
    put-IsDistinct sub event cbs d.1,
  )
]

callbacks-IsDistinct :
    (events : List EventData) (cbs : Map String EventData)
    → IsDistinct cbs
    → IsDistinct (callbacks events cbs)
unfolding callbacks
callbacks-IsDistinct [] cbs d = d
callbacks-IsDistinct (event ∷ events) cbs d =
    callbacks-IsDistinct events _ (put-IsDistinct event.sub_id event cbs d)

abbrev mark : Option ℕ → ℕ
mark none = 0
mark (some n) = n

hwm_of-batch_complete :
    (sub s : String) (event : EventData) (hwm : Map String ℕ)
    → hwm_of sub (batch_complete s event hwm)
      ≡ (if s == sub then raised (some event) (hwm_of sub hwm) else hwm_of sub hwm)
unfolding batch_complete
hwm_of-batch_complete sub s event hwm =
    elim (Bool-cases (ltb (hwm_of s hwm) (event.block_number + 1))) [
      | inl up ↦ simp up (
          ap mark (lookup-put s sub (event.block_number + 1) hwm) ∙ elim (Bool-cases (s == sub)) [
            | inl q ↦
                let same = (eq_iff s sub).0 q in
                let up' : ltb (hwm_of sub hwm) (event.block_number + 1) ≡ true =
                  ap (λ k. ltb (hwm_of k hwm) (event.block_number + 1)) (sym same) ∙ up in
                simp (q, up') refl
            | inr q ↦ simp q refl
          ])
      | inr down ↦ simp down (elim (Bool-cases (s == sub)) [
        | inl q ↦
            let same = (eq_iff s sub).0 q in
            let down' : ltb (hwm_of sub hwm) (event.block_number + 1) ≡ false =
              ap (λ k. ltb (hwm_of k hwm) (event.block_number + 1)) (sym same) ∙ down in
            simp (q, down') refl
        | inr q ↦ simp q refl
      ])
    ]

hwm_of-complete_all :
    (sub : String) (cbs : Map String EventData) (hwm : Map String ℕ)
    → IsDistinct cbs
    → hwm_of sub (complete_all cbs hwm) ≡ raised (lookup sub cbs) (hwm_of sub hwm)
unfolding complete_all lookup
hwm_of-complete_all sub [] hwm d = refl
hwm_of-complete_all sub ((s, e) ∷ cbs) hwm d =
    hwm_of-complete_all sub cbs (batch_complete s e hwm) d.1
    ∙ ap (raised (lookup sub cbs)) (hwm_of-batch_complete sub s e hwm)
    ∙ elim (Bool-cases (s == sub)) [
      | inl q ↦
          let missing : lookup sub cbs ≡ none =
            ap (λ k. lookup k cbs) (sym ((eq_iff s sub).0 q)) ∙ d.0 in
          simp (q, missing) refl
      | inr q ↦ simp q refl
    ]

-- The acknowledgement of a batch by a stream that is neither suspended nor stopped raises the mark of
-- each subscription to the block after the last event that the batch has of it, unless the mark is
-- there already, and leaves the marks of the others.
pub hwm_of-acknowledge :
    (events : List EventData) (a : EventStream) (sub : String)
    → suspend_or_stop a ≡ false
    → hwm_of sub (acknowledge events a).block_hwm
      ≡ raised (last_of sub events none) (hwm_of sub a.block_hwm)
unfolding acknowledge lookup
hwm_of-acknowledge events a sub active =
    let cbs = callbacks events [] in
    simp active (
      hwm_of-complete_all sub cbs a.block_hwm (callbacks-IsDistinct events [] tt)
      ∙ ap (λ e. raised e (hwm_of sub a.block_hwm)) (lookup-callbacks sub events []))
