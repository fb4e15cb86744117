-- ===== src/Telemetry/Sequence.antt =====
-- The order of the frames on a pipe, for every interleaving of the game's threads and the senders.
use ffb_interceptor_visualiz.Common.{
  ℕ, suc, ◌+◌, ◌^◌, ◌≤◌, ◌<◌, ◌≡◌, Bool, true, false, List, [], ◌∷◌, ◌++◌, arith, Chain, Chain-le,
  Chain-Falling, Falling, length, rev_onto,
}
use ffb_interceptor_visualiz.Wire.Model.{Event}
use ffb_interceptor_visualiz.Telemetry.Queue.{Node, increment64, fresh_sink}
use ffb_interceptor_visualiz.Telemetry.Worker.{
  Phase, Worker, connecting, sending, auditing, notifying, drop_event, wait, fresh_worker,
}
use ffb_interceptor_visualiz.Telemetry.System.{
  Lock, unlocked, to_viewer, to_simhub, Which, viewer, simhub, System, worker, update, fresh_system,
  start_sink, start, stamp, begin_emit, publish, audit, Action, starts, emits, publishes, connects,
  greets, sends, notifies, collects, reports, closes, audits, step, run,
}
use ffb_interceptor_visualiz.Telemetry.Order.{
  numbers, sequences, flight, line, connect-Chain, greet-Chain, collect-Chain, send-Chain,
  report-Chain, notify-Chain, close-Chain, offer-Chain,
}

-- All numbers of a worker are below this: the event that the lock's holder still has to publish
-- there is not among them.
abbrev bound : Lock → Which → ℕ → ℕ
bound unlocked i n = suc n
bound (to_viewer e) i n = n
bound (to_simhub e) viewer n = suc n
bound (to_simhub e) simhub n = n

abbrev Stamped : Lock → ℕ → Type 0
Stamped unlocked n = Unit {0}
Stamped (to_viewer e) n = e.sequence ≡ n
Stamped (to_simhub e) n = e.sequence ≡ n

pub record InOrder (s : System) : Type 0 where
  pub stamped : Stamped s.lock s.sequence
  pub viewer_chain : Chain (bound s.lock viewer s.sequence) (line s.viewer_worker)
  pub simhub_chain : Chain (bound s.lock simhub s.sequence) (line s.simhub_worker)

-- A step of one sender thread keeps the order if it does so for the thread's own numbers.
update-InOrder :
    (s : System) (i : Which) (f : Worker → Worker)
    → ((b : ℕ) (w : Worker) → Chain b (line w) → Chain b (line (f w)))
    → InOrder s
    → InOrder (update s i f)
update-InOrder s viewer f keep o = record {
  stamped = o.stamped;
  viewer_chain = keep _ s.viewer_worker o.viewer_chain;
  simhub_chain = o.simhub_chain;
}
update-InOrder s simhub f keep o = record {
  stamped = o.stamped;
  viewer_chain = o.viewer_chain;
  simhub_chain = keep _ s.simhub_worker o.simhub_chain;
}

start_sink-Chain :
    (created : Bool) (b : ℕ) (w : Worker) → Chain b (line w) → Chain b (line (start_sink created w))
unfolding start_sink
start_sink-Chain created b w k = ground arith

start-InOrder : (p v m : Bool) (s : System) → InOrder s → InOrder (start p v m s)
unfolding start
start-InOrder true v m s o = record {
  stamped = o.stamped;
  viewer_chain = start_sink-Chain v _ s.viewer_worker o.viewer_chain;
  simhub_chain = start_sink-Chain m _ s.simhub_worker o.simhub_chain;
}
start-InOrder false v m s o = o

next-number : (n : ℕ) → suc n < 2 ^ 64 → increment64 n ≡ suc n
unfolding increment64
next-number n h = omega arith

-- The same system with another lock.
abbrev with_lock : Lock → System → System
with_lock l s = record s { lock = l }

begin_emit-InOrder :
    (l : Lock) (now : ℕ) (e : Event) (s : System)
    → suc s.sequence < 2 ^ 64
    → InOrder (with_lock l s)
    → InOrder (begin_emit now e (with_lock l s))
unfolding begin_emit stamp
begin_emit-InOrder unlocked now e s h o = ground (arith, next-number s.sequence h)
begin_emit-InOrder l now e s h o = o

publish-InOrder :
    (l : Lock) (s : System) → InOrder (with_lock l s) → InOrder (publish (with_lock l s))
unfolding publish
publish-InOrder unlocked s o = o
publish-InOrder (to_viewer e) s o = record {
  stamped = o.stamped;
  viewer_chain = offer-Chain _ e s.viewer_worker o.stamped o.viewer_chain;
  simhub_chain = o.simhub_chain;
}
publish-InOrder (to_simhub e) s o = record {
  stamped = tt;
  viewer_chain = o.viewer_chain;
  simhub_chain = offer-Chain _ e s.simhub_worker o.stamped o.simhub_chain;
}

-- The same worker in another phase and with other pending nodes.
abbrev standing : Phase → List Node → Worker → Worker
standing p q w = record w { phase = p; sink = record w.sink { pending = q } }

-- The notice's number is drawn with the lock free and nothing queued.
audit_viewer-InOrder :
    (l : Lock) (p : Phase) (q : List Node) (process_id now : ℕ) (s : System)
    → suc s.sequence < 2 ^ 64
    → InOrder (record s { lock = l; viewer_worker = standing p q s.viewer_worker })
    → InOrder (
        audit viewer process_id now
          (record s { lock = l; viewer_worker = standing p q s.viewer_worker }))
unfolding audit drop_event wait
audit_viewer-InOrder unlocked (auditing r d c) [] process_id now s h o =
    rw (next-number s.sequence h) (record {
      stamped = tt;
      viewer_chain = (omega arith, o.viewer_chain);
      simhub_chain =
          Chain-le (suc s.sequence) _ (line s.simhub_worker) (omega arith) o.simhub_chain;
    })
audit_viewer-InOrder unlocked (auditing r d c) (n ∷ q) process_id now s h o = ground arith
audit_viewer-InOrder l p q process_id now s h o = o

audit_simhub-InOrder :
    (l : Lock) (p : Phase) (q : List Node) (process_id now : ℕ) (s : System)
    → suc s.sequence < 2 ^ 64
    → InOrder (record s { lock = l; simhub_worker = standing p q s.simhub_worker })
    → InOrder (
        audit simhub process_id now
          (record s { lock = l; simhub_worker = standing p q s.simhub_worker }))
unfolding audit drop_event wait
audit_simhub-InOrder unlocked (auditing r d c) [] process_id now s h o =
    rw (next-number s.sequence h) (record {
      stamped = tt;
      viewer_chain =
          Chain-le (suc s.sequence) _ (line s.viewer_worker) (omega arith) o.viewer_chain;
      simhub_chain = (omega arith, o.simhub_chain);
    })
audit_simhub-InOrder unlocked (auditing r d c) (n ∷ q) process_id now s h o = ground arith
audit_simhub-InOrder l p q process_id now s h o = o

audit-InOrder :
    (i : Which) (process_id now : ℕ) (s : System)
    → suc s.sequence < 2 ^ 64
    → InOrder s
    → InOrder (audit i process_id now s)
audit-InOrder viewer process_id now s h o =
    audit_viewer-InOrder s.lock s.viewer_worker.phase s.viewer_worker.sink.pending process_id now s
      h o
audit-InOrder simhub process_id now s h o =
    audit_simhub-InOrder s.lock s.simhub_worker.phase s.simhub_worker.sink.pending process_id now s
      h o

-- Every step of every thread keeps the numbers of both sinks in order, short of a wrap of the
-- counter.
pub step-InOrder :
    (a : Action) (s : System) → suc s.sequence < 2 ^ 64 → InOrder s → InOrder (step a s)
unfolding step
step-InOrder (starts p v m) s h o = start-InOrder p v m s o
step-InOrder (emits now e) s h o = begin_emit-InOrder s.lock now e s h o
step-InOrder publishes s h o = publish-InOrder s.lock s o
step-InOrder (connects i ok) s h o = update-InOrder s i _ (λ b w k. connect-Chain b w k ok) o
step-InOrder (greets i ok) s h o = update-InOrder s i _ (λ b w k. greet-Chain b w k ok) o
step-InOrder (collects i) s h o = update-InOrder s i _ (λ b w k. collect-Chain b w k) o
step-InOrder (sends i ok) s h o = update-InOrder s i _ (λ b w k. send-Chain b w k ok) o
step-InOrder (reports i) s h o = update-InOrder s i _ (λ b w k. report-Chain b w k) o
step-InOrder (audits i process_id now) s h o = audit-InOrder i process_id now s h o
step-InOrder (notifies i ok) s h o = update-InOrder s i _ (λ b w k. notify-Chain b w k ok) o
step-InOrder (closes i) s h o = update-InOrder s i _ (λ b w k. close-Chain b w k) o

increment64-le : (n : ℕ) → increment64 n ≤ suc n
unfolding increment64
increment64-le n = omega arith

update-sequence :
    (s : System) (i : Which) (f : Worker → Worker) → (update s i f).sequence ≤ suc s.sequence
update-sequence s viewer f = omega arith
update-sequence s simhub f = omega arith

begin_emit-sequence :
    (now : ℕ) (e : Event) (s : System) → (begin_emit now e s).sequence ≤ suc s.sequence
unfolding begin_emit
begin_emit-sequence now e s = ground (arith, increment64-le s.sequence)

publish-sequence : (s : System) → (publish s).sequence ≤ suc s.sequence
unfolding publish
publish-sequence s = ground arith

start-sequence : (p v m : Bool) (s : System) → (start p v m s).sequence ≤ suc s.sequence
unfolding start
start-sequence p v m s = ground arith

audit-sequence :
    (i : Which) (process_id now : ℕ) (s : System)
    → (audit i process_id now s).sequence ≤ suc s.sequence
unfolding audit
audit-sequence viewer process_id now s = ground (arith, increment64-le s.sequence)
audit-sequence simhub process_id now s = ground (arith, increment64-le s.sequence)

-- A step draws one number at most.
step-sequence : (a : Action) (s : System) → (step a s).sequence ≤ suc s.sequence
unfolding step
step-sequence (starts p v m) s = start-sequence p v m s
step-sequence (emits now e) s = begin_emit-sequence now e s
step-sequence publishes s = publish-sequence s
step-sequence (audits i process_id now) s = audit-sequence i process_id now s
step-sequence (connects i ok) s = update-sequence s i _
step-sequence (greets i ok) s = update-sequence s i _
step-sequence (collects i) s = update-sequence s i _
step-sequence (sends i ok) s = update-sequence s i _
step-sequence (reports i) s = update-sequence s i _
step-sequence (notifies i ok) s = update-sequence s i _
step-sequence (closes i) s = update-sequence s i _

run-InOrder :
    (acts : List Action) (s : System)
    → s.sequence + length acts < 2 ^ 64
    → InOrder s
    → InOrder (run acts s)
unfolding run
run-InOrder [] s h o = o
run-InOrder (a ∷ rest) s h o =
    run-InOrder rest (step a s) (omega (arith, step-sequence a s))
      (step-InOrder a s (omega arith) o)

fresh-InOrder : InOrder fresh_system
unfolding fresh_system fresh_worker fresh_sink
fresh-InOrder = record { stamped = tt; viewer_chain = tt; simhub_chain = tt }

InOrder-line : (s : System) (i : Which) → InOrder s → Falling (line (worker s i))
InOrder-line s viewer o = Chain-Falling _ (line s.viewer_worker) o.viewer_chain
InOrder-line s simhub o = Chain-Falling _ (line s.simhub_worker) o.simhub_chain

Falling-append_right : (xs ys : List ℕ) → Falling (xs ++ ys) → Falling ys
Falling-append_right [] ys k = k
Falling-append_right (x ∷ xs) ys k = Falling-append_right xs ys k.1

Falling-rev_onto : (xs ys : List ℕ) → Falling (rev_onto xs ys) → Falling ys
Falling-rev_onto [] ys k = k
Falling-rev_onto (x ∷ xs) ys k = let h = Falling-rev_onto xs (x ∷ ys) k in h.1

Falling-flight : (p : Phase) (sent : List ℕ) → Falling (flight p sent) → Falling sent
Falling-flight (sending r c batch) sent k = Falling-rev_onto (numbers batch) sent k
Falling-flight (notifying d c notice) sent k = k.1
Falling-flight connecting sent k = k
Falling-flight p sent k = k

-- Over any interleaving of fewer than 2 ^ 64 steps of the game's threads and the two sender
-- threads, from the start: the frames that a connection has taken, newest first, have strictly
-- falling sequence numbers, and so has the whole line of a sink, in which the queued events stand
-- before those that its sender holds, a drop notice in hand included, and these before the frames
-- sent. So no frame overtakes another, and every event still queued is newer than a notice sent.
pub wire-Falling :
    (acts : List Action) (i : Which)
    → length acts < 2 ^ 64
    → Falling (sequences (worker (run acts fresh_system) i).wire)
      × Falling (line (worker (run acts fresh_system) i))
wire-Falling acts i h =
    let w = worker (run acts fresh_system) i in
    let whole =
      InOrder-line (run acts fresh_system) i
        (run-InOrder acts fresh_system (unfold fresh_system in omega arith) fresh-InOrder) in
    (
      Falling-flight w.phase (sequences w.wire)
          (Falling-append_right (numbers w.sink.pending) _ whole),
      whole,
    )
