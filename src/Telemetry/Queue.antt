-- ===== src/Telemetry/Queue.antt =====
-- A sink of src/telemetry.h and the operations of src/telemetry.cpp on its two interlocked lists.
-- A node is its index in `nodes`; a list has its top first. `wake` says that the event is set.
use ffb_interceptor_visualiz.Common.{
  ℕ, zero, suc, ◌+◌, ◌%◌, ◌^◌, Bool, true, false, List, [], ◌∷◌, take, drop, ltb, if◌then◌else◌,
}
use ffb_interceptor_visualiz.Wire.Model.{Event}

abbrev pub queue_capacity : ℕ
queue_capacity = 1024

pub record Node : Type 0 where
  pub entry : ℕ
  pub event : Event

pub record Sink : Type 0 where
  pub free : List ℕ
  pub pending : List Node
  pub wake : Bool
  pub running : Bool
  pub dropped : ℕ

-- InterlockedIncrement64
unfoldable pub increment64 : ℕ → ℕ
increment64 n = (n + 1) % 2 ^ 64

-- The constructor's loop: `n` nodes pushed in the order of their indices.
unfoldable pub push_nodes : ℕ → List ℕ
push_nodes zero = []
push_nodes (suc n) = n ∷ push_nodes n

unfoldable pub fresh_sink : Sink
fresh_sink = record {
  free = push_nodes queue_capacity;
  pending = [];
  wake = false;
  running = false;
  dropped = 0;
}

enqueue_at : List ℕ → Sink → Event → Sink
enqueue_at [] sink event = record sink { dropped = increment64 sink.dropped }
enqueue_at (node ∷ free) sink event = record sink {
  free = free;
  pending = record { entry = node; event = event } ∷ sink.pending;
  wake = true;
}

unfoldable pub enqueue : Sink → Event → Sink
unfolding enqueue_at
enqueue sink event = enqueue_at sink.free sink event

-- The loop that returns the nodes of a list, counting each as dropped if `count_as_drop`.
unfoldable pub recycle : Bool → List Node → Sink → Sink
recycle count_as_drop [] sink = sink
recycle count_as_drop (node ∷ list) sink = recycle count_as_drop list (record sink {
  dropped = if count_as_drop then increment64 sink.dropped else sink.dropped;
  free = node.entry ∷ sink.free;
})

-- InterlockedFlushSList
unfoldable pub flush : Sink → Sink
flush sink = record sink { pending = [] }

unfoldable pub recycle_or_drop_pending : Bool → Sink → Sink
recycle_or_drop_pending count_as_drop sink = recycle count_as_drop sink.pending (flush sink)

-- std::sort of a batch by the sequence number.
unfoldable pub insert : Node → List Node → List Node
insert node [] = node ∷ []
insert node (other ∷ rest) =
    if ltb node.event.sequence other.event.sequence
    then node ∷ other ∷ rest
    else other ∷ insert node rest

unfoldable pub sort : List Node → List Node
unfolding insert
sort [] = []
sort (node ∷ nodes) = insert node (sort nodes)

-- The batch that a flush takes, in sending order.
unfoldable pub take_batch : Sink → List Node
take_batch sink = sort (take queue_capacity sink.pending)

-- The sink after a flush: what does not fit into the batch is dropped.
unfoldable pub after_flush : Sink → Sink
after_flush sink = recycle true (drop queue_capacity sink.pending) (flush sink)
