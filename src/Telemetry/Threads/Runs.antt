-- ===== src/Telemetry/Threads/Runs.antt =====
-- Interlocked calls of two threads, in between each other.
use ffb_interceptor_visualiz.Common.{
  ◌+◌, ◌≡◌, refl, true, false, List, [], ◌∷◌, arith, length, if◌then◌else◌, ltb, count,
}
use ffb_interceptor_visualiz.Wire.Model.{blank}
use ffb_interceptor_visualiz.Telemetry.Queue.{queue_capacity, push_nodes, insert, sort}
use ffb_interceptor_visualiz.Telemetry.Threads.{
  Move, offers, produces, takes, works, sends, fresh_lists, step, run,
}
use ffb_interceptor_visualiz.Telemetry.Threads.Account.{
  entries, with_producer, with_sender, open_at_producer, open_at_sender, node_in_one_place,
  events_accounted,
}

-- Two events are taken; while a third is offered, the first is sent and the second fails.
abbrev moves : List Move
moves =
    offers blank
    ∷ produces
    ∷ produces
    ∷ offers blank
    ∷ produces
    ∷ produces
    ∷ takes
    ∷ works
    ∷ offers blank
    ∷ sends true
    ∷ produces
    ∷ works
    ∷ sends false
    ∷ works
    ∷ produces
    ∷ []

-- Behind them, one event is taken, one is pending, and the failed one is not counted yet.
moves_run : (run moves fresh_lists).dropped ≡ 0
unfolding run step fresh_lists push_nodes sort insert
moves_run = refl

node_in_one_place_example :
    let s = run moves fresh_lists in
    count 1023 s.free
      + count 1023 (entries s.pending)
      + count 1023 (entries (with_producer s.producer))
      + count 1023 (entries (with_sender s.sender))
    ≡ (if ltb 1023 queue_capacity then 1 else 0)
node_in_one_place_example = node_in_one_place moves 1023 (omega arith)

events_accounted_example :
    let s = run moves fresh_lists in
    s.delivered
      + length s.pending
      + open_at_producer s.producer
      + open_at_sender s.sender
      + s.dropped
    ≡ s.offered
events_accounted_example = events_accounted moves (omega arith)
