-- ===== src/Telemetry/System.antt =====
-- Telemetry of src/telemetry.h: both workers, the sequence counter and the emit lock. An `Action`
-- is a step of one thread, in which a walk over a whole list is one step (Telemetry/Threads has it
-- call by call); the threads' interleavings are the lists of actions. An action at a
-- place where its thread does not stand, or where it would wait for the lock, changes nothing.
use ffb_interceptor_visualiz.Common.{
  ℕ, Bool, true, ◌&&◌, ◌||◌, not, List, [], ◌∷◌, ◌==◌, if◌then◌else◌,
}
use ffb_interceptor_visualiz.Wire.Model.{Event}
use ffb_interceptor_visualiz.Telemetry.Queue.{Node, increment64}
use ffb_interceptor_visualiz.Telemetry.Worker.{
  Phase, auditing, notifying, Worker, fresh_worker, offer, connect, greet, collect, send, report,
  next_round, drop_event, notify, close,
}

-- m_emit_lock, with what its holder has still to do: publish the stamped event to both sinks, or
-- to the second one. The two other holds, of `audit`, do not span two actions.
pub data Lock : Type 0 where
  unlocked : Lock
  to_viewer : Event → Lock
  to_simhub : Event → Lock

-- The two sinks.
pub data Which : Type 0 where
  viewer simhub : Which

pub record System : Type 0 where
  pub sequence : ℕ
  pub lock : Lock
  pub viewer_worker : Worker
  pub simhub_worker : Worker

unfoldable pub fresh_system : System
fresh_system = record {
  sequence = 0;
  lock = unlocked;
  viewer_worker = fresh_worker;
  simhub_worker = fresh_worker;
}

abbrev pub worker : System → Which → Worker
worker s viewer = s.viewer_worker
worker s simhub = s.simhub_worker

abbrev pub update : System → Which → (Worker → Worker) → System
update s viewer f = record s { viewer_worker = f s.viewer_worker }
update s simhub f = record s { simhub_worker = f s.simhub_worker }

-- One sink in start(): `created` says that its event and its thread could be created.
unfoldable pub start_sink : Bool → Worker → Worker
start_sink created w =
    if not w.sink.running && created
    then record w { sink = record w.sink { running = true } }
    else w

-- start(): `pinned` says that the module handle was taken.
unfoldable pub start : Bool → Bool → Bool → System → System
start pinned viewer_created simhub_created s =
    if pinned
    then record s {
      viewer_worker = start_sink viewer_created s.viewer_worker;
      simhub_worker = start_sink simhub_created s.simhub_worker;
    }
    else s

-- The event that emit() publishes.
unfoldable pub stamp : ℕ → ℕ → Event → Event
stamp sequence now event = record event {
  sequence = sequence;
  qpc_ticks = if event.qpc_ticks == 0 then now else event.qpc_ticks;
}

begin_emit_at : Lock → ℕ → Event → System → System
begin_emit_at unlocked now event s =
    let sequence = increment64 s.sequence in
    if s.viewer_worker.sink.running || s.simhub_worker.sink.running
    then record s { sequence = sequence; lock = to_viewer (stamp sequence now event) }
    else s
begin_emit_at held now event s = s

-- emit() up to the loop over the sinks.
unfoldable pub begin_emit : ℕ → Event → System → System
unfolding begin_emit_at
begin_emit now event s = begin_emit_at s.lock now event s

publish_at : Lock → System → System
publish_at unlocked s = s
publish_at (to_viewer event) s = record s {
  lock = to_simhub event;
  viewer_worker = offer event s.viewer_worker;
}
publish_at (to_simhub event) s = record s {
  lock = unlocked;
  simhub_worker = offer event s.simhub_worker;
}

-- One round of emit()'s loop over the sinks, the last of which releases the lock.
unfoldable pub publish : System → System
unfolding publish_at
publish s = publish_at s.lock s

-- The part of run() that draws the notice's sequence number under the lock.
audit_pending : Which → List Node → ℕ → ℕ → ℕ → ℕ → ℕ → System → System
audit_pending i [] process_id now reported drops count s =
    let sequence = increment64 s.sequence in
    update (record s { sequence = sequence }) i
      λ w. record w { phase = notifying drops count (drop_event process_id now drops sequence) }
audit_pending i (node ∷ rest) process_id now reported drops count s =
    update s i (next_round reported count)

audit_at : Lock → Phase → Which → ℕ → ℕ → System → System
unfolding audit_pending next_round
audit_at unlocked (auditing reported drops count) i process_id now s =
    audit_pending i (worker s i).sink.pending process_id now reported drops count s
audit_at held other i process_id now s = s

unfoldable pub audit : Which → ℕ → ℕ → System → System
unfolding audit_at
audit i process_id now s = audit_at s.lock (worker s i).phase i process_id now s

pub data Action : Type 0 where
  starts : (pinned viewer_created simhub_created : Bool) → Action
  emits : (now : ℕ) (event : Event) → Action
  publishes : Action
  connects greets sends notifies : (i : Which) (ok : Bool) → Action
  collects reports closes : (i : Which) → Action
  audits : (i : Which) (process_id now : ℕ) → Action

unfoldable pub step : Action → System → System
step (starts pinned viewer_created simhub_created) s = start pinned viewer_created simhub_created s
step (emits now event) s = begin_emit now event s
step publishes s = publish s
step (connects i ok) s = update s i (connect ok)
step (greets i ok) s = update s i (greet ok)
step (collects i) s = update s i collect
step (sends i ok) s = update s i (send ok)
step (reports i) s = update s i report
step (audits i process_id now) s = audit i process_id now s
step (notifies i ok) s = update s i (notify ok)
step (closes i) s = update s i close

unfoldable pub run : List Action → System → System
run [] s = s
run (a ∷ rest) s = run rest (step a s)
