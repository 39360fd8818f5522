-- ===== src/Logger/Tests.antt =====
-- Witnesses on a logger of two slots: two threads that log at once, and a shutdown.
use demiplane.Prelude.{
  ℕ, ◌≡◌, ◌≤◌, ◌<◌, ◌+◌, ◌++◌, refl, zero, suc, true, arith, ◌⊎◌, false, some, List, [], ◌∷◌,
  length, get_elem?,
}
use demiplane.Prelude.Powers.{place}
use demiplane.Disruptor.{
  open_sequencer, would_wrap, compare_and_set, publish, is_available, mark_consumed,
  update_gating_sequence,
}
use demiplane.Logger.{
  LogEvent, log, shutdown, polling, stopped, Logger, Step, begin, advance, consume, wake,
  return_from_wait, run, open_logger, step, begin_from, begin_call, become, proceed, try_claim,
  write_slot, write_event, turn, found, scan_round, drain_event, drain_round, mark, consumer_round,
  start_logger, start_over,
}
use demiplane.Logger.Invariant.{flag, holds, messages, take, position, read_count}
use demiplane.Logger.Runs.{run-collected, run-holds}
use demiplane.Logger.Shutdown.{run-stopped}
use demiplane.Logger.Progress.{rounds, rounds-collected}

abbrev blank : LogEvent ℕ
blank = record { message = 0; shutdown_signal = false }

abbrev fresh : Logger ℕ
fresh =
    start_logger blank
      record { cursor = 0; gating_sequence = 0; buffer_size = 2; available_flags = λ i. false }

opened : open_logger 2 blank ≡ some fresh
unfolding open_logger open_sequencer start_over
opened = refl

-- Both threads read the cursor before thread 1 claims sequence 0; thread 0 loses the exchange,
-- takes sequence 1 and publishes it first.
abbrev overtaking : List (Step ℕ)
overtaking =
    begin 0 (log 7)
    ∷ begin 1 (log 8)
    ∷ advance 0 false
    ∷ advance 1 false
    ∷ advance 0 false
    ∷ advance 1 false
    ∷ advance 1 false
    ∷ advance 0 false
    ∷ advance 0 false
    ∷ advance 0 false
    ∷ advance 0 false
    ∷ advance 0 false
    ∷ advance 0 false
    ∷ consume
    ∷ consume
    ∷ wake
    ∷ []

-- Thread 1 publishes, the consumer reads both events, thread 0 shuts down, the consumer stops.
abbrev ending : List (Step ℕ)
ending =
    advance 1 false
    ∷ advance 1 false
    ∷ consume
    ∷ consume
    ∷ consume
    ∷ consume
    ∷ consume
    ∷ consume
    ∷ consume
    ∷ consume
    ∷ consume
    ∷ begin 0 shutdown
    ∷ advance 0 false
    ∷ advance 0 false
    ∷ advance 0 false
    ∷ advance 0 false
    ∷ advance 0 false
    ∷ consume
    ∷ consume
    ∷ consume
    ∷ consume
    ∷ consume
    ∷ consume
    ∷ consume
    ∷ []

-- Both events are published, and the consumer polls.
abbrev both_published : List (Step ℕ)
both_published = overtaking ++ advance 1 false ∷ advance 1 false ∷ []

polls_at_0 :
    ((run both_published fresh).consumer ≡ polling 0) × ((run both_published fresh).running ≡ true)
unfolding run step begin_from begin_call become proceed try_claim compare_and_set would_wrap
    write_slot write_event publish turn found scan_round consumer_round return_from_wait
    is_available start_logger
polls_at_0 = (refl, refl)

both_flags :
    (s : ℕ)
    → 0 ≤ s
    → s < (run both_published fresh).sequencer.cursor
    → flag s (run both_published fresh).sequencer ≡ true
unfolding run step begin_from begin_call become proceed try_claim compare_and_set would_wrap
    write_slot write_event publish turn found scan_round consumer_round return_from_wait
    is_available start_logger
both_flags zero a b = refl
both_flags (suc zero) a b = refl
both_flags (suc (suc s)) a b = absurd (omega arith)

rounds-collected_example :
    (j : ℕ) × (((rounds j (run both_published fresh)).collected
        ≡ messages (rounds j (run both_published fresh)).claims)
      ⊎ ((m : ℕ) × ((rounds j (run both_published fresh)).consumer ≡ stopped m)))
rounds-collected_example =
    rounds-collected 2 blank opened both_published 0 polls_at_0.0 polls_at_0.1 both_flags

thread_1_holds : holds ((run overtaking fresh).producers 1) ≡ some 0
unfolding run step begin_from begin_call become proceed try_claim compare_and_set would_wrap
    write_slot write_event publish turn found scan_round consumer_round return_from_wait
    is_available start_logger
thread_1_holds = refl

stops : (run (overtaking ++ ending) fresh).consumer ≡ stopped 3
unfolding run step begin_from begin_call become proceed try_claim compare_and_set would_wrap
    write_slot write_event publish turn found scan_round consumer_round return_from_wait
    is_available start_logger drain_round drain_event mark mark_consumed update_gating_sequence
stops = refl

run-collected_example :
    ((run overtaking fresh).collected
      ≡ messages (take (read_count (run overtaking fresh).consumer) (run overtaking fresh).claims))
    × (read_count (run overtaking fresh).consumer ≤ length (run overtaking fresh).claims)
run-collected_example = run-collected 2 blank opened overtaking

run-holds_example :
    ((q : ℕ) → holds ((run overtaking fresh).producers q) ≡ some 0 → q ≡ 1)
    × ((t : ℕ)
        → position (run overtaking fresh).consumer ≤ t
        → t < (run overtaking fresh).sequencer.cursor
        → place (run overtaking fresh).sequencer.buffer_size t
          ≡ place (run overtaking fresh).sequencer.buffer_size 0
        → t ≡ 0)
    × ((run overtaking fresh).sequencer.cursor
        ≤ (run overtaking fresh).sequencer.gating_sequence
          + (run overtaking fresh).sequencer.buffer_size)
run-holds_example = run-holds 2 blank opened overtaking 1 0 thread_1_holds

run-stopped_example :
    (m : ℕ) × (◌≡◌ {A = ℕ} 3 (suc m))
    × (get_elem? (run (overtaking ++ ending) fresh).claims m ≡ some shutdown)
    × ((run (overtaking ++ ending) fresh).collected
        ≡ messages (take m (run (overtaking ++ ending) fresh).claims))
run-stopped_example = run-stopped 2 blank opened (overtaking ++ ending) 3 stops
