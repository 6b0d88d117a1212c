-- ===== src/Stream/Resets.antt =====
-- Where the filter of a subscription starts again, and what a reset leaves in the checkpoint.
use zeroxyz.Prelude.{
  ℕ, String, List, [], ◌∷◌, Option, none, some, true, false, not, ◌&&◌, ◌≡◌, ◌≢◌, refl, sym, ap,
  ◌∙◌, subst, inl, inr, Bool-cases, ◌==◌, string_key, eq_iff, if◌then◌else◌,
}
use zeroxyz.Prelude.Int.{ℤ, pos, leb_ℤ}
use zeroxyz.Prelude.ParseInt.{parse_big}
use zeroxyz.Prelude.Maps.{Map, lookup, put, delete, lookup-put, lookup-delete}
use zeroxyz.Errors.{Error}
use zeroxyz.Auth.{Result, ok, err}
use zeroxyz.Stream.Poll.{
  Subscription, FilterNode, Polled, init_block_hwm, unsubscribe, record_marks,
  set_initial_block_height, restart_filter, process_new_events, logs_of, start_block, restart_from,
  refresh, collect_logs, poll_from, poll,
}

differs : (s t : String) → s ≢ t → (s == t) ≡ false
differs s t h = elim (Bool-cases (s == t)) [ inl e ↦ absurd (h ((eq_iff s t).0 e)) | inr e ↦ e ]

same_key : {A : Type 0} (x y : A) (k : String) → (if k == k then x else y) ≡ x
same_key x y k = simp ((eq_iff k k).1 refl, if◌then◌else◌) refl

module _ {E L : Type 0} where
  polled_of : Map String ℤ → Subscription E × Result (List L) → Polled E L
  unfolding logs_of
  polled_of cp (sub, r) = record { subscription = sub; checkpoint = cp; logs = logs_of r }

  made_filter :
      (node : FilterNode L) (sub : Subscription E) (since : ℤ) (id : ℕ)
      → node.new_filter sub.info.addresses sub.info.topics since ≡ ok id
      → restart_filter node since sub
        ≡ (record sub { filter_id = id; filtered_once = false; filter_stale = false }, none)
  unfolding restart_filter
  made_filter node sub since id f = simp (f, restart_filter) refl

  read_logs :
      (node : FilterNode L) (sub : Subscription E) (logs : List L)
      → node.filter_logs sub.filtered_once sub.filter_id ≡ ok logs
      → process_new_events node sub ≡ (record sub { filtered_once = true }, ok logs)
  unfolding process_new_events
  read_logs node sub logs l = simp (l, process_new_events) refl

  -- A filter is made from a block, and its logs are read, all of them.
  fresh_filter :
      (node : FilterNode L) (cp : Map String ℤ) (sub : Subscription E) (since : ℤ) (id : ℕ)
      (logs : List L)
      → node.new_filter sub.info.addresses sub.info.topics since ≡ ok id
      → node.filter_logs false id ≡ ok logs
      → collect_logs node cp (restart_from node (sub, ok since)) ≡ record {
        subscription = record sub { filter_id = id; filtered_once = true; filter_stale = false };
        checkpoint = cp;
        logs = logs;
      }
  unfolding collect_logs restart_from logs_of polled_of
  fresh_filter node cp sub since id logs f l =
      ap (collect_logs node cp) (made_filter node sub since id f)
      ∙ ap (polled_of cp) (
          read_logs node
            (record sub { filter_id = id; filtered_once = false; filter_stale = false }) logs l)

  explicit_start :
      (node : FilterNode L) (o : Option ℤ) (sub : Subscription E) (b : ℤ)
      → o ≡ none
      → sub.info.from_block ≢ ""
      → sub.info.from_block ≢ "latest"
      → parse_big sub.info.from_block ≡ some b
      → start_block node o sub ≡ (sub, ok b)
  unfolding start_block set_initial_block_height
  explicit_start node none sub b h ne nl p =
      simp (differs _ _ ne, differs _ _ nl, not, ◌&&◌, if◌then◌else◌, p) refl
  explicit_start node (some n) sub b h ne nl p = absurd (cc)

  marked_start :
      (node : FilterNode L) (o : Option ℤ) (sub : Subscription E) (n : ℤ)
      → o ≡ some n
      → leb_ℤ n (pos 0) ≡ false
      → start_block node o sub ≡ (init_block_hwm n sub, ok n)
  unfolding start_block
  marked_start node none sub n h p = absurd (cc)
  marked_start node (some m) sub n h p =
      let same : m ≡ n = cc (h) in
      subst (λ k. start_block node (some k) sub ≡ (init_block_hwm n sub, ok n)) (sym same)
        (simp (p, if◌then◌else◌) refl)

  reset_poll :
      (node : FilterNode L) (cp : Map String ℤ) (sub : Subscription E) (b : ℤ) (id : ℕ)
      (logs : List L)
      → sub.reset_requested ≡ true
      → sub.info.from_block ≢ ""
      → sub.info.from_block ≢ "latest"
      → parse_big sub.info.from_block ≡ some b
      → node.new_filter sub.info.addresses sub.info.topics b ≡ ok id
      → node.filter_logs false id ≡ ok logs
      → poll node cp sub ≡ record {
        subscription = record (unsubscribe false sub) {
          filter_id = id;
          filtered_once = true;
          filter_stale = false;
        };
        checkpoint = delete sub.info.id cp;
        logs = logs;
      }
  unfolding poll poll_from refresh unsubscribe
  reset_poll node cp sub b id logs r ne nl p f l =
      let cp' : Map String ℤ = delete sub.info.id cp in
      let gone : lookup sub.info.id cp' ≡ none =
        lookup-delete sub.info.id sub.info.id cp ∙ same_key _ _ sub.info.id in
      simp (r, if◌then◌else◌)
        (ap (λ x. collect_logs node cp' (restart_from node x))
            (explicit_start node (lookup sub.info.id cp') (unsubscribe false sub) b gone ne nl p)
          ∙ fresh_filter node cp' (unsubscribe false sub) b id logs f l)

  -- Where a subscription is to start from an explicit block and a reset is requested, a round in
  -- which the node answers makes a filter from that block, processes all its logs and fulfils the
  -- request. But the checkpoint stored after the round has the mark from before the reset, and where
  -- this is positive a restarted stream starts the subscription there.
  pub poll_reset_keeps_mark :
      (node later : FilterNode L) (cp : Map String ℤ) (sub restored : Subscription E) (b : ℤ)
      (id : ℕ) (logs : List L)
      → sub.reset_requested ≡ true
      → sub.info.from_block ≢ ""
      → sub.info.from_block ≢ "latest"
      → parse_big sub.info.from_block ≡ some b
      → node.new_filter sub.info.addresses sub.info.topics b ≡ ok id
      → node.filter_logs false id ≡ ok logs
      → leb_ℤ sub.block_hwm (pos 0) ≡ false
      → let p = poll node cp sub in
        let stored = record_marks (p.subscription ∷ []) p.checkpoint in
        (p.logs ≡ logs)
        × (p.subscription.reset_requested ≡ false)
        × (lookup sub.info.id stored ≡ some sub.block_hwm)
        × ((start_block later (lookup sub.info.id stored) restored).1 ≡ ok sub.block_hwm)
  unfolding record_marks unsubscribe
  poll_reset_keeps_mark node later cp sub restored b id logs r ne nl p f l m =
      let kept : lookup sub.info.id (put sub.info.id sub.block_hwm (delete sub.info.id cp))
          ≡ some sub.block_hwm =
        lookup-put sub.info.id sub.info.id sub.block_hwm (delete sub.info.id cp)
        ∙ same_key _ _ sub.info.id in
      simp (reset_poll node cp sub b id logs r ne nl p f l) (
        refl,
        refl,
        kept,
        ap (λ (x : Subscription E × Result ℤ). x.1)
            (marked_start later _ restored sub.block_hwm kept m),
      )

  no_reset :
      (node : FilterNode L) (cp : Map String ℤ) (sub : Subscription E)
      → sub.reset_requested ≡ false
      → poll node cp sub ≡ collect_logs node cp (refresh node (lookup sub.info.id cp) sub)
  unfolding poll poll_from
  no_reset node cp sub r = simp (r, if◌then◌else◌) refl

  filter_in_use :
      (node : FilterNode L) (o : Option ℤ) (sub : Subscription E)
      → sub.filter_stale ≡ false
      → refresh node o sub ≡ (sub, none)
  unfolding refresh
  filter_in_use node o sub s = simp (s, ◌&&◌, if◌then◌else◌) refl

  filter_to_make :
      (node : FilterNode L) (o : Option ℤ) (sub : Subscription E)
      → sub.filter_stale ≡ true
      → sub.deleting ≡ false
      → refresh node o sub ≡ restart_from node (start_block node o sub)
  unfolding refresh
  filter_to_make node o sub s d = simp (s, d, not, ◌&&◌, if◌then◌else◌) refl

  lost_logs :
      (node : FilterNode L) (sub : Subscription E) (e : Error)
      → node.filter_logs sub.filtered_once sub.filter_id ≡ err e
      → node.not_found e ≡ true
      → process_new_events node sub ≡ (record sub { filter_stale = true }, err e)
  unfolding process_new_events
  lost_logs node sub e l n = simp (l, process_new_events, n, if◌then◌else◌) refl

  lost_poll :
      (node : FilterNode L) (cp : Map String ℤ) (sub : Subscription E) (e : Error)
      → sub.reset_requested ≡ false
      → sub.filter_stale ≡ false
      → node.filter_logs sub.filtered_once sub.filter_id ≡ err e
      → node.not_found e ≡ true
      → poll node cp sub
        ≡ record { subscription = record sub { filter_stale = true }; checkpoint = cp; logs = [] }
  unfolding collect_logs logs_of polled_of
  lost_poll node cp sub e r s l n =
      no_reset node cp sub r
      ∙ ap (collect_logs node cp) (filter_in_use node (lookup sub.info.id cp) sub s)
      ∙ ap (polled_of cp) (lost_logs node sub e l n)

  again :
      (node : FilterNode L) (cp : Map String ℤ) (sub : Subscription E) (m : ℤ) (id : ℕ)
      (logs : List L)
      → sub.reset_requested ≡ false
      → sub.deleting ≡ false
      → sub.filter_stale ≡ true
      → lookup sub.info.id cp ≡ some m
      → leb_ℤ m (pos 0) ≡ false
      → node.new_filter sub.info.addresses sub.info.topics m ≡ ok id
      → node.filter_logs false id ≡ ok logs
      → poll node cp sub ≡ record {
        subscription = record (init_block_hwm m sub) {
          filter_id = id;
          filtered_once = true;
          filter_stale = false;
        };
        checkpoint = cp;
        logs = logs;
      }
  unfolding init_block_hwm
  again node cp sub m id logs r d s c p f l =
      no_reset node cp sub r
      ∙ ap (collect_logs node cp) (filter_to_make node (lookup sub.info.id cp) sub s d)
      ∙ ap (λ x. collect_logs node cp (restart_from node x))
          (marked_start node (lookup sub.info.id cp) sub m c p)
      ∙ fresh_filter node cp (init_block_hwm m sub) m id logs f l

  -- When the node has lost the filter of a subscription that is neither reset nor deleted, and the
  -- subscription's mark is positive, the round reads nothing, and the next round in which the node
  -- answers, with the checkpoint stored in between, makes a filter from the mark, processes all its
  -- logs, and leaves the filter in use and the mark as it was.
  pub poll_after_lost_filter :
      (node later : FilterNode L) (cp : Map String ℤ) (sub : Subscription E) (e : Error) (id : ℕ)
      (logs : List L)
      → sub.reset_requested ≡ false
      → sub.deleting ≡ false
      → sub.filter_stale ≡ false
      → leb_ℤ sub.block_hwm (pos 0) ≡ false
      → node.filter_logs sub.filtered_once sub.filter_id ≡ err e
      → node.not_found e ≡ true
      → later.new_filter sub.info.addresses sub.info.topics sub.block_hwm ≡ ok id
      → later.filter_logs false id ≡ ok logs
      → let first = poll node cp sub in
        let second =
          poll later (record_marks (first.subscription ∷ []) first.checkpoint) first.subscription in
        (first.logs ≡ [])
        × (second.logs ≡ logs)
        × (second.subscription.filter_stale ≡ false)
        × (second.subscription.block_hwm ≡ sub.block_hwm)
  unfolding record_marks init_block_hwm
  poll_after_lost_filter node later cp sub e id logs r d s m l n f k =
      let lost = record sub { filter_stale = true } in
      let kept : lookup sub.info.id (put sub.info.id sub.block_hwm cp) ≡ some sub.block_hwm =
        lookup-put sub.info.id sub.info.id sub.block_hwm cp ∙ same_key _ _ sub.info.id in
      simp
        (
          lost_poll node cp sub e r s l n,
          again later (put sub.info.id sub.block_hwm cp) lost sub.block_hwm id logs r d refl kept m
              f k,
        )
        (refl, refl, refl, refl)
