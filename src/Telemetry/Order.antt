-- ===== src/Telemetry/Order.antt =====
-- The sequence numbers of one worker, from the newest queued event down to the oldest frame on the
-- wire, and that no step of the sender thread disturbs their order.
use ffb_interceptor_visualiz.Common.{
  ℕ, zero, suc, ◌<◌, ◌≡◌, refl, ap, ◌∙◌, Bool, true, false, List, [], ◌∷◌, ◌++◌, map, take, drop,
  arith, All, Chain, Chain-le, Chain-append_mono, Chain-append_right, Chain-append_left,
  Chain-rev_onto, rev_onto,
}
use ffb_interceptor_visualiz.Wire.Model.{Event}
use ffb_interceptor_visualiz.Telemetry.Queue.{
  Node, Sink, queue_capacity, insert, sort, take_batch, after_flush, recycle,
  recycle_or_drop_pending, flush, enqueue,
}
use ffb_interceptor_visualiz.Telemetry.Worker.{
  Phase, connecting, greeting, closing, flushing, sending, reporting, auditing, notifying, Worker,
  connect, greet, collect, send, report, notify, close, wait, offer,
}

abbrev pub numbers : List Node → List ℕ
numbers = map λ n. n.event.sequence

abbrev pub sequences : List Event → List ℕ
sequences = map λ e. e.sequence

-- What the sender thread holds, put in front of what it has sent.
abbrev pub flight : Phase → List ℕ → List ℕ
flight (sending reported count batch) sent = rev_onto (numbers batch) sent
flight (notifying drops count notice) sent = notice.sequence ∷ sent
flight connecting sent = sent
flight greeting sent = sent
flight closing sent = sent
flight (flushing reported) sent = sent
flight (reporting reported count) sent = sent
flight (auditing reported drops count) sent = sent

abbrev pub line : Worker → List ℕ
line w = numbers w.sink.pending ++ flight w.phase (sequences w.wire)

recycle-pending : (c : Bool) (list : List Node) (s : Sink) → (recycle c list s).pending ≡ s.pending
unfolding recycle
recycle-pending c [] s = refl
recycle-pending c (n ∷ list) s = recycle-pending c list _

All-insert :
    (b : ℕ) (n : Node) (xs : List Node)
    → n.event.sequence < b
    → All (λ m. m.event.sequence < b) xs
    → All (λ m. m.event.sequence < b) (insert n xs)
unfolding insert
All-insert b n [] h k = (h, tt)
All-insert b n (x ∷ xs) h k = ground (arith, All-insert b n xs h k.1)

All-sort :
    (b : ℕ) (xs : List Node)
    → All (λ m. m.event.sequence < b) xs
    → All (λ m. m.event.sequence < b) (sort xs)
unfolding sort
All-sort b [] k = tt
All-sort b (x ∷ xs) k = All-insert b x (sort xs) k.0 (All-sort b xs k.1)

-- A node above all others goes to the end.
numbers-insert :
    (n : Node) (xs : List Node) (sent : List ℕ)
    → All (λ m. m.event.sequence < n.event.sequence) xs
    → rev_onto (numbers (insert n xs)) sent ≡ n.event.sequence ∷ rev_onto (numbers xs) sent
unfolding insert
numbers-insert n [] sent h = refl
numbers-insert n (x ∷ xs) sent h = ground (arith, numbers-insert n xs (x.event.sequence ∷ sent) h.1)

Chain-numbers : (b : ℕ) (xs : List Node) → Chain b (numbers xs) → All (λ m. m.event.sequence < b) xs
Chain-numbers b [] k = tt
Chain-numbers b (x ∷ xs) k =
    (k.0, Chain-numbers b xs (Chain-le x.event.sequence b (numbers xs) (omega arith) k.1))

-- The pending list is the batch turned round, so sorting it is turning it back.
numbers-sort :
    (b : ℕ) (xs : List Node) (sent : List ℕ)
    → Chain b (numbers xs)
    → rev_onto (numbers (sort xs)) sent ≡ numbers xs ++ sent
unfolding sort
numbers-sort b [] sent k = refl
numbers-sort b (x ∷ xs) sent k =
    numbers-insert x (sort xs) sent
      (All-sort x.event.sequence xs (Chain-numbers x.event.sequence xs k.1))
    ∙ ap (λ (t : List ℕ). x.event.sequence ∷ t) (numbers-sort x.event.sequence xs sent k.1)

Chain-take :
    (b n : ℕ) (xs : List Node) (sent : List ℕ)
    → Chain b (numbers xs ++ sent)
    → Chain b (numbers (take n xs) ++ sent)
Chain-take b zero xs sent k = Chain-append_right b (numbers xs) sent k
Chain-take b (suc n) [] sent k = k
Chain-take b (suc n) (x ∷ xs) sent k = (k.0, Chain-take x.event.sequence n xs sent k.1)

-- The same worker in another phase.
abbrev in_phase : Phase → Worker → Worker
in_phase p w = record w { phase = p }

-- Recycling the pending list keeps what is in flight.
Chain-recycle_all :
    (b : ℕ) (c : Bool) (s : Sink) (sent : List ℕ)
    → Chain b (numbers s.pending ++ sent)
    → Chain b (numbers (recycle_or_drop_pending c s).pending ++ sent)
unfolding recycle_or_drop_pending flush
Chain-recycle_all b c s sent k =
    rw (recycle-pending c s.pending (record s { pending = [] }))
      (Chain-append_right b (numbers s.pending) sent k)

connect_at-Chain :
    (b : ℕ) (p : Phase) (ok : Bool) (w : Worker)
    → Chain b (line (in_phase p w))
    → Chain b (line (connect ok (in_phase p w)))
unfolding connect wait
connect_at-Chain b connecting true w k =
    Chain-append_mono b (numbers w.sink.pending) (sequences w.wire) [] (λ c h. tt) k
connect_at-Chain b connecting false w k = Chain-recycle_all b true w.sink (sequences w.wire) k
connect_at-Chain b p ok w k = k

greet_at-Chain :
    (b : ℕ) (p : Phase) (ok : Bool) (w : Worker)
    → Chain b (line (in_phase p w))
    → Chain b (line (greet ok (in_phase p w)))
unfolding greet
greet_at-Chain b greeting true w k = k
greet_at-Chain b greeting false w k = Chain-recycle_all b true w.sink (sequences w.wire) k
greet_at-Chain b p ok w k = k

collect_at-Chain :
    (b : ℕ) (p : Phase) (w : Worker)
    → Chain b (line (in_phase p w))
    → Chain b (line (collect (in_phase p w)))
unfolding collect take_batch after_flush flush
collect_at-Chain b (flushing reported) w k =
    let sent = sequences w.wire in
    let taken = Chain-take b queue_capacity w.sink.pending sent k in
    rw
      (
        recycle-pending true (drop queue_capacity w.sink.pending) (record w.sink { pending = [] }),
        numbers-sort b (take queue_capacity w.sink.pending) sent
            (Chain-append_left b (numbers (take queue_capacity w.sink.pending)) sent taken),
      )
      taken
collect_at-Chain b p w k = k

send_at-Chain :
    (b : ℕ) (p : Phase) (ok : Bool) (w : Worker)
    → Chain b (line (in_phase p w))
    → Chain b (line (send ok (in_phase p w)))
unfolding send
send_at-Chain b (sending reported count (node ∷ batch)) true w k = k
send_at-Chain b (sending reported count (node ∷ batch)) false w k =
    rw (recycle-pending true (node ∷ batch) w.sink) (
      Chain-append_mono b (numbers w.sink.pending)
        (rev_onto (numbers (node ∷ batch)) (sequences w.wire)) (sequences w.wire)
        (λ c h. Chain-rev_onto c (numbers (node ∷ batch)) (sequences w.wire) h) k)
send_at-Chain b (sending reported count []) ok w k = k
send_at-Chain b p ok w k = k

report_at-Chain :
    (b : ℕ) (p : Phase) (w : Worker)
    → Chain b (line (in_phase p w))
    → Chain b (line (report (in_phase p w)))
unfolding report wait
report_at-Chain b (reporting reported count) w k = ground arith
report_at-Chain b p w k = k

notify_at-Chain :
    (b : ℕ) (p : Phase) (ok : Bool) (w : Worker)
    → Chain b (line (in_phase p w))
    → Chain b (line (notify ok (in_phase p w)))
unfolding notify wait
notify_at-Chain b (notifying drops count notice) true w k = ground arith
notify_at-Chain b (notifying drops count notice) false w k =
    Chain-append_mono b (numbers w.sink.pending) (notice.sequence ∷ sequences w.wire)
      (sequences w.wire) (λ c h. Chain-le notice.sequence c (sequences w.wire) (omega arith) h.1) k
notify_at-Chain b p ok w k = k

close_at-Chain :
    (b : ℕ) (p : Phase) (w : Worker)
    → Chain b (line (in_phase p w))
    → Chain b (line (close (in_phase p w)))
unfolding close
close_at-Chain b closing w k = k
close_at-Chain b p w k = k

module _ (b : ℕ) (w : Worker) (k : Chain b (line w)) where
  pub connect-Chain : (ok : Bool) → Chain b (line (connect ok w))
  connect-Chain ok = connect_at-Chain b w.phase ok w k

  pub greet-Chain : (ok : Bool) → Chain b (line (greet ok w))
  greet-Chain ok = greet_at-Chain b w.phase ok w k

  pub collect-Chain : Chain b (line (collect w))
  collect-Chain = collect_at-Chain b w.phase w k

  pub send-Chain : (ok : Bool) → Chain b (line (send ok w))
  send-Chain ok = send_at-Chain b w.phase ok w k

  pub report-Chain : Chain b (line (report w))
  report-Chain = report_at-Chain b w.phase w k

  pub notify-Chain : (ok : Bool) → Chain b (line (notify ok w))
  notify-Chain ok = notify_at-Chain b w.phase ok w k

  pub close-Chain : Chain b (line (close w))
  close-Chain = close_at-Chain b w.phase w k

enqueue-Chain :
    (b : ℕ) (e : Event) (free : List ℕ) (s : Sink) (sent : List ℕ)
    → e.sequence ≡ b
    → Chain b (numbers s.pending ++ sent)
    → Chain (suc b) (numbers (enqueue (record s { free = free }) e).pending ++ sent)
unfolding enqueue
enqueue-Chain b e [] s sent h k = Chain-le b (suc b) (numbers s.pending ++ sent) (omega arith) k
enqueue-Chain b e (n ∷ free) s sent h k =
    (omega arith, Chain-le b e.sequence (numbers s.pending ++ sent) (omega arith) k)

-- An event with the next number goes in front of all others, or is dropped.
pub offer-Chain :
    (b : ℕ) (e : Event) (w : Worker)
    → e.sequence ≡ b
    → Chain b (line w)
    → Chain (suc b) (line (offer e w))
unfolding offer
offer-Chain b e w h k = ground (
  arith,
  enqueue-Chain b e w.sink.free w.sink (flight w.phase (sequences w.wire)) h k,
  Chain-le b (suc b) (line w),
)
