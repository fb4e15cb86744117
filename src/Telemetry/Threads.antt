-- ===== src/Telemetry/Threads.antt =====
-- One sink's lists between the threads of src/telemetry.cpp, each interlocked call a step of its own:
-- enqueue() by the holder of m_emit_lock, and recycle_or_drop_pending() and the loop over a batch in
-- run() by the sender thread. `offered` and `delivered` count the events that were handed to
-- enqueue() and those that the pipe took; the code does not keep them.
pub mod Account
mod Runs
use ffb_interceptor_visualiz.Common.{ℕ, zero, suc, Bool, true, false, List, [], ◌∷◌, take, drop}
use ffb_interceptor_visualiz.Wire.Model.{Event}
use ffb_interceptor_visualiz.Telemetry.Queue.{Node, queue_capacity, increment64, push_nodes, sort}

-- enqueue(): before the pop, with a node in hand, or without one.
pub data Producer : Type 0 where
  idle missing : Producer
  popping : (event : Event) → Producer
  holding : (node : Node) → Producer

-- The sender thread: with nodes to count and return, before those of a batch that is to be sent; with
-- a node that has been counted, or sent, and is still to be returned; and with a node that has been
-- returned after a failure and is still to be counted.
pub data Sender : Type 0 where
  waiting : Sender
  dropping : (nodes batch : List Node) → Sender
  returning : (node : Node) (nodes batch : List Node) → Sender
  sending uncounted : (batch : List Node) → Sender
  sent failed : (node : Node) (batch : List Node) → Sender

pub record Lists : Type 0 where
  pub free : List ℕ
  pub pending : List Node
  pub dropped : ℕ
  pub producer : Producer
  pub sender : Sender
  pub offered : ℕ
  pub delivered : ℕ

unfoldable pub fresh_lists : Lists
fresh_lists = record {
  free = push_nodes queue_capacity;
  pending = [];
  dropped = 0;
  producer = idle;
  sender = waiting;
  offered = 0;
  delivered = 0;
}

-- A thread comes to enqueue(); another one waits for the lock.
offer_at : Event → Producer → Lists → Lists
offer_at event idle s = record s { producer = popping event; offered = suc s.offered }
offer_at event other s = s

-- InterlockedPopEntrySList
pop_at : Event → List ℕ → Lists → Lists
pop_at event [] s = record s { producer = missing }
pop_at event (entry ∷ free) s = record s {
  free = free;
  producer = holding (record { entry = entry; event = event });
}

-- The next interlocked call of enqueue().
produce_at : Producer → Lists → Lists
produce_at idle s = s
produce_at missing s = record s { dropped = increment64 s.dropped; producer = idle }
produce_at (popping event) s = pop_at event s.free s
produce_at (holding node) s = record s { pending = node ∷ s.pending; producer = idle }

-- InterlockedFlushSList in recycle_or_drop_pending()
flush_at : Sender → Lists → Lists
flush_at waiting s = record s { pending = []; sender = dropping s.pending [] }
flush_at other s = s

-- InterlockedFlushSList in run(): what does not fit into a batch is dropped.
take_at : Sender → Lists → Lists
take_at waiting s = record s {
  pending = [];
  sender = dropping (drop queue_capacity s.pending) (take queue_capacity s.pending);
}
take_at other s = s

-- send_frame()
send_at : (ok : Bool) → Sender → Lists → Lists
send_at true (sending (node ∷ batch)) s = record s {
  sender = sent node batch;
  delivered = suc s.delivered;
}
send_at false (sending (node ∷ batch)) s = record s { sender = failed node batch }
send_at ok other s = s

-- The next interlocked call of the sender thread's loops. A batch is sorted before it is sent.
work_at : Sender → Lists → Lists
work_at waiting s = s
work_at (dropping [] batch) s = record s { sender = sending (sort batch) }
work_at (dropping (node ∷ nodes) batch) s = record s {
  dropped = increment64 s.dropped;
  sender = returning node nodes batch;
}
work_at (returning node nodes batch) s = record s {
  free = node.entry ∷ s.free;
  sender = dropping nodes batch;
}
work_at (sending []) s = record s { sender = waiting }
work_at (sending (node ∷ batch)) s = s
work_at (sent node batch) s = record s { free = node.entry ∷ s.free; sender = sending batch }
work_at (failed node batch) s = record s { free = node.entry ∷ s.free; sender = uncounted batch }
work_at (uncounted batch) s = record s {
  dropped = increment64 s.dropped;
  sender = dropping batch [];
}

pub data Move : Type 0 where
  offers : (event : Event) → Move
  produces flushes takes works : Move
  sends : (ok : Bool) → Move

unfoldable pub step : Move → Lists → Lists
unfolding offer_at produce_at pop_at flush_at take_at send_at work_at
step (offers event) s = offer_at event s.producer s
step produces s = produce_at s.producer s
step flushes s = flush_at s.sender s
step takes s = take_at s.sender s
step works s = work_at s.sender s
step (sends ok) s = send_at ok s.sender s

unfoldable pub run : List Move → Lists → Lists
unfolding step
run [] s = s
run (move ∷ moves) s = run moves (step move s)
