-- ===== src/Stream/Steps.antt =====
-- The steps of an event stream of eventstream.go, as its goroutines take them in any order.
use zeroxyz.Prelude.{
  ℕ, ◌+◌, String, List, [], ◌∷◌, ◌++◌, Option, none, some, Bool, true, false, not, ◌&&◌, ◌||◌, ltb,
  eqb, ◌==◌, string_key, if◌then◌else◌, length,
}
use zeroxyz.Prelude.Maps.{Map, lookup, put}
use zeroxyz.Errors.{Error}
use zeroxyz.Stream.Spec.{Texts, StreamInfo, update_spec}
use zeroxyz.Stream.State.{
  EventData, waiting, trying, counted, ended, EventStream, suspend_or_stop, uint64_suc, uint64_sub,
}

-- The dispatcher has put an event in its batch.
unfoldable pub dispatch_event : EventData → EventStream → EventStream
dispatch_event event a =
    let batch = a.current_batch ++ event ∷ [] in
    if eqb (length batch) a.spec.batch_size
    then record a {
      in_flight = uint64_suc a.in_flight;
      batch_queue = a.batch_queue ++ batch ∷ [];
      current_batch = [];
    }
    else record a { in_flight = uint64_suc a.in_flight; current_batch = batch }

-- The dispatcher's timer has run out: it only runs while there is a batch.
unfoldable pub dispatch_timeout : EventStream → Option EventStream
dispatch_timeout a = elim a.current_batch [
  | [] ↦ none
  | event ∷ events ↦
      some (record a { batch_queue = a.batch_queue ++ a.current_batch ∷ []; current_batch = [] })
]

-- The processor at its wait: it ends when the stream is suspended or stopped, takes the first batch
-- if there is one, and ends for an update once there is none. In an update it waits for the
-- interrupt with the lock held.
unfoldable pub take_batch : EventStream → Option EventStream
take_batch a =
    if suspend_or_stop a then some (record a { phase = ended false }) else elim a.batch_queue [
      | [] ↦
          if a.update_in_progress && a.interrupted
          then some (record a { phase = ended true })
          else none
      | [] ∷ queue ↦ some (record a { batch_queue = queue; batch_count = a.batch_count + 1 })
      | (event ∷ events) ∷ queue ↦ some (record a {
        batch_queue = queue;
        batch_count = a.batch_count + 1;
        phase = trying (event ∷ events) 0 false;
      })
    ]

-- performActionWithRetry has returned, after its own retries.
unfoldable pub attempt : Option Error → List EventData → ℕ → EventStream → EventStream
attempt answer events n a = record a {
  phase =
      trying events (n + 1)
        (elim answer [ none ↦ true | some e ↦ a.spec.error_handling == "skip" ]);
}

-- The last event of each subscription in a batch.
unfoldable pub callbacks : List EventData → Map String EventData → Map String EventData
callbacks [] cbs = cbs
callbacks (event ∷ events) cbs = callbacks events (put event.sub_id event cbs)

-- The mark of a subscription in a new log processor is 0.
abbrev pub hwm_of : String → Map String ℕ → ℕ
hwm_of sub hwm = elim (lookup sub hwm) [ none ↦ 0 | some n ↦ n ]

-- batchComplete of logprocessor.go
unfoldable pub batch_complete : String → EventData → Map String ℕ → Map String ℕ
batch_complete sub newest hwm =
    if ltb (hwm_of sub hwm) (newest.block_number + 1)
    then put sub (newest.block_number + 1) hwm
    else hwm

unfoldable pub complete_all : Map String EventData → Map String ℕ → Map String ℕ
unfolding batch_complete
complete_all [] hwm = hwm
complete_all ((sub, event) ∷ cbs) hwm = complete_all cbs (batch_complete sub event hwm)

-- After the loop of processBatch: the batch is no longer in flight if it was processed.
unfoldable pub count : List EventData → Bool → EventStream → EventStream
count events processed a = record a {
  in_flight = if processed then uint64_sub a.in_flight (length events) else a.in_flight;
  phase = counted events;
}

unfoldable pub acknowledge : List EventData → EventStream → EventStream
unfolding callbacks complete_all
acknowledge events a =
    if suspend_or_stop a
    then record a { phase = waiting }
    else record a { phase = waiting; block_hwm = complete_all (callbacks events []) a.block_hwm }

abbrev is_empty : {A : Type 0} → List A → Bool
is_empty [] = true
is_empty (x ∷ xs) = false

-- One step of the processor; `answer` is what the action gives if the step is an attempt.
unfoldable pub process : Option Error → EventStream → Option EventStream
unfolding take_batch attempt count acknowledge
process answer a = elim a.phase [
  | waiting ↦ take_batch a
  | trying events n processed ↦
      if suspend_or_stop a || processed
      then some (count events processed a)
      else if ltb 0 n && a.interrupted
      then some (record a { phase = waiting })
      else some (attempt answer events n a)
  | counted events ↦ some (acknowledge events a)
  | ended told ↦ none
]

-- The actions on a stream, and the steps of its goroutines.
pub data Action : Type 0 where
  arrive : EventData → Action
  timeout : Action
  work : Option Error → Action
  suspend resume stop start_update : Action
  finish_update : Texts → StreamInfo → Action

-- resume fails while the processor has not ended; the poller is taken to have ended with it. The
-- dispatcher is not started again.
unfoldable pub resume_stream : EventStream → Option EventStream
resume_stream a = elim a.phase [
  | ended told ↦ some (record a {
    spec = record a.spec { suspended = false };
    phase = waiting;
    interrupted = false;
  })
  | _ ↦ none
]

-- Whether the processor waits for the interrupt with the lock held: it has nothing to do, and an
-- update is marked as in progress whose interrupt is not there (a resume has made a new one).
unfoldable pub waits_with_lock : EventStream → Bool
waits_with_lock a = elim a.phase [
  | waiting ↦
      a.update_in_progress && not a.interrupted && not (suspend_or_stop a) && is_empty a.batch_queue
  | _ ↦ false
]

-- The first half of update: the interrupt ends the dispatcher, whose batch goes with it. A second
-- close of the channel panics, and preUpdateStream waits for the lock.
unfoldable pub begin_update : EventStream → Option EventStream
unfolding waits_with_lock
begin_update a =
    if a.interrupted || waits_with_lock a
    then none
    else some (record a {
      update_in_progress = true;
      interrupted = true;
      dispatching = false;
      current_batch = [];
    })

unfoldable pub updated : EventStream → StreamInfo × Option Error → EventStream
updated a (spec, some e) = record a { spec = spec }
updated a (spec, none) = record a {
  spec = spec;
  phase = waiting;
  update_in_progress = false;
  interrupted = false;
  dispatching = true;
}

-- The second half, once the processor has told `updateWG` that it ended: all start again, unless the
-- new webhook is wrong.
unfoldable pub end_update : Texts → StreamInfo → EventStream → Option EventStream
unfolding update_spec updated
end_update texts new a = elim a.phase [
  | ended told ↦
      if a.update_in_progress && a.interrupted && told
      then some (updated a (update_spec texts a.spec new))
      else none
  | _ ↦ none
]

-- No event arrives on a stopped stream: its channel is closed. suspend and stop take the lock.
unfoldable pub step : Action → EventStream → Option EventStream
unfolding dispatch_event dispatch_timeout process resume_stream waits_with_lock begin_update
    end_update
step (arrive event) a =
    if a.stopped || not a.dispatching then none else some (dispatch_event event a)
step timeout a = dispatch_timeout a
step (work answer) a = process answer a
step suspend a =
    if waits_with_lock a
    then none
    else some (record a { spec = record a.spec { suspended = true } })
step resume a = resume_stream a
step stop a = if a.stopped || waits_with_lock a then none else some (record a { stopped = true })
step start_update a = begin_update a
step (finish_update texts new) a = end_update texts new a
