-- ===== src/Stream/State.antt =====
-- The state of an event stream of eventstream.go, with the batches that its goroutines hold.
use zeroxyz.Prelude.{ℕ, ◌+◌, ◌-◌, ◌%◌, ◌^◌, String, List, Bool, ◌||◌, leb}
use zeroxyz.Prelude.Maps.{Map}
use zeroxyz.Stream.Spec.{StreamInfo}

-- What the stream reads of an `eventData`.
pub record EventData : Type 0 where
  pub sub_id : String
  pub block_number : ℕ
  pub log_index : String

-- Where the batch processor stands: at its wait, in the loop of processBatch with the attempts made
-- and whether the last one counts as processed, before the acknowledgement, or ended, having told
-- `updateWG` or not.
pub data Phase : Type 0 where
  waiting : Phase
  trying : List EventData → ℕ → Bool → Phase
  counted : List EventData → Phase
  ended : Bool → Phase

-- `current_batch` is the dispatcher's and `dispatching` says whether it runs; `interrupted` says that
-- `updateInterrupt` is closed, and `blockHWM` of each subscription is in `block_hwm`.
pub record EventStream : Type 0 where
  pub spec : StreamInfo
  pub stopped : Bool
  pub update_in_progress : Bool
  pub interrupted : Bool
  pub dispatching : Bool
  pub in_flight : ℕ
  pub batch_queue : List (List EventData)
  pub batch_count : ℕ
  pub current_batch : List EventData
  pub phase : Phase
  pub block_hwm : Map String ℕ

abbrev pub suspend_or_stop : EventStream → Bool
suspend_or_stop a = a.spec.suspended || a.stopped

unfoldable pub is_blocked : EventStream → Bool
is_blocked a = leb a.spec.batch_size a.in_flight

-- Arithmetic on uint64
abbrev pub uint64_suc : ℕ → ℕ
uint64_suc n = (n + 1) % 2 ^ 64

abbrev pub uint64_sub : ℕ → ℕ → ℕ
uint64_sub n m = (n + (2 ^ 64 - m % 2 ^ 64)) % 2 ^ 64
