-- ===== src/Telemetry/Worker.antt =====
-- Telemetry::run of src/telemetry.cpp for one sink. `Phase` is the place in its loops; the results
-- of the pipe calls are arguments. `wire` holds the frames that the current connection has taken
-- after its Hello, the newest first. `offered` and `delivered` count the events that were handed to
-- `enqueue` and those that a pipe took; the code does not keep them.
use ffb_interceptor_visualiz.Common.{
  ℕ, ◌+◌, Bool, true, false, List, [], ◌∷◌, min, ◌==◌, if◌then◌else◌, length,
}
use ffb_interceptor_visualiz.Wire.Model.{Event, drop_notice, blank}
use ffb_interceptor_visualiz.Telemetry.Queue.{
  Node, Sink, fresh_sink, enqueue, recycle, recycle_or_drop_pending, take_batch, after_flush,
}

-- `reported` is reported_drops and `count` the size of the batch.
pub data Phase : Type 0 where
  connecting greeting closing : Phase
  flushing : (reported : ℕ) → Phase
  sending : (reported count : ℕ) (batch : List Node) → Phase
  reporting : (reported count : ℕ) → Phase
  auditing : (reported drops count : ℕ) → Phase
  notifying : (drops count : ℕ) (notice : Event) → Phase

pub record Worker : Type 0 where
  pub sink : Sink
  pub phase : Phase
  pub wire : List Event
  pub offered : ℕ
  pub delivered : ℕ

unfoldable pub fresh_worker : Worker
fresh_worker = record {
  sink = fresh_sink;
  phase = connecting;
  wire = [];
  offered = 0;
  delivered = 0;
}

-- WaitForSingleObject on the auto-reset event, which it resets.
unfoldable pub wait : Sink → Sink
wait sink = record sink { wake = false }

-- if (sink.running) enqueue(sink, event);
unfoldable pub offer : Event → Worker → Worker
offer event w =
    if w.sink.running then record w { sink = enqueue w.sink event; offered = w.offered + 1 } else w

connect_at : Phase → Bool → Worker → Worker
connect_at connecting true w = record w { phase = greeting; wire = [] }
connect_at connecting false w = record w { sink = wait (recycle_or_drop_pending true w.sink) }
connect_at other pipe w = w

-- connect_pipe
unfoldable pub connect : Bool → Worker → Worker
unfolding connect_at
connect pipe w = connect_at w.phase pipe w

greet_at : Phase → Bool → Worker → Worker
greet_at greeting true w = record w { phase = flushing 0 }
greet_at greeting false w = record w {
  sink = recycle_or_drop_pending true w.sink;
  phase = connecting;
}
greet_at other ok w = w

-- The Hello frame.
unfoldable pub greet : Bool → Worker → Worker
unfolding greet_at
greet ok w = greet_at w.phase ok w

collect_at : Phase → Worker → Worker
collect_at (flushing reported) w =
    let batch = take_batch w.sink in
    record w { sink = after_flush w.sink; phase = sending reported (length batch) batch }
collect_at other w = w

-- The flush at the top of the inner loop, with the sort of the batch.
unfoldable pub collect : Worker → Worker
unfolding collect_at
collect w = collect_at w.phase w

send_at : Phase → Bool → Worker → Worker
send_at (sending reported count (node ∷ batch)) true w = record w {
  sink = record w.sink { free = node.entry ∷ w.sink.free };
  phase = sending reported count batch;
  wire = node.event ∷ w.wire;
  delivered = w.delivered + 1;
}
send_at (sending reported count (node ∷ batch)) false w = record w {
  sink = recycle true (node ∷ batch) w.sink;
  phase = closing;
}
send_at (sending reported count []) ok w = record w { phase = reporting reported count }
send_at other ok w = w

-- One round of the loop over the batch, or its end.
unfoldable pub send : Bool → Worker → Worker
unfolding send_at
send ok w = send_at w.phase ok w

-- The bottom of the inner loop on a live connection.
unfoldable pub next_round : ℕ → ℕ → Worker → Worker
next_round reported count w = record w {
  sink = if count == 0 then wait w.sink else w.sink;
  phase = flushing reported;
}

report_at : Phase → Worker → Worker
report_at (reporting reported count) w =
    if w.sink.dropped == reported
    then next_round reported count w
    else record w { phase = auditing reported w.sink.dropped count }
report_at other w = w

-- The comparison of `dropped` with reported_drops.
unfoldable pub report : Worker → Worker
unfolding report_at next_round
report w = report_at w.phase w

-- The notice, but for its sequence number, which is drawn under the lock.
unfoldable pub drop_event : ℕ → ℕ → ℕ → ℕ → Event
drop_event process_id now drops sequence = record blank {
  type = drop_notice;
  process_id = process_id;
  dropped = min drops 0xffffffff;
  qpc_ticks = now;
  sequence = sequence;
}

notify_at : Phase → Bool → Worker → Worker
notify_at (notifying drops count notice) true w =
    next_round drops count (record w { wire = notice ∷ w.wire })
notify_at (notifying drops count notice) false w = record w { phase = closing }
notify_at other ok w = w

-- The DropNotice frame.
unfoldable pub notify : Bool → Worker → Worker
unfolding notify_at next_round
notify ok w = notify_at w.phase ok w

close_at : Phase → Worker → Worker
close_at closing w = record w { phase = connecting }
close_at other w = w

-- CloseHandle after the inner loop.
unfoldable pub close : Worker → Worker
unfolding close_at
close w = close_at w.phase w
