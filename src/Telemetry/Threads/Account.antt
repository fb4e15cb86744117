-- ===== src/Telemetry/Threads/Account.antt =====
-- Where the nodes and the events of a sink are, whatever its threads do (src/telemetry.cpp).
use ffb_interceptor_visualiz.Common.{
  ℕ, zero, suc, ◌+◌, ◌^◌, ◌≤◌, ◌<◌, ◌≡◌, refl, subst, Bool, true, false, List, [], ◌∷◌, ◌++◌, take,
  drop, arith, ltb, if◌then◌else◌, length, map, count,
}
use ffb_interceptor_visualiz.Wire.Model.{Event}
use ffb_interceptor_visualiz.Telemetry.Queue.{
  Node, queue_capacity, increment64, push_nodes, insert, sort,
}
use ffb_interceptor_visualiz.Telemetry.Threads.{
  Producer, idle, missing, popping, holding, Sender, waiting, dropping, returning, sending,
  uncounted, sent, failed, Lists, fresh_lists, offer_at, pop_at, produce_at, flush_at, take_at,
  send_at, work_at, Move, offers, produces, flushes, takes, works, sends, step, run,
}

abbrev pub entries : List Node → List ℕ
entries = map λ n. n.entry

count-insert :
    (i : ℕ) (n : Node) (xs : List Node)
    → count i (entries (insert n xs)) ≡ count i (entries (n ∷ xs))
unfolding insert
count-insert i n [] = refl
count-insert i n (x ∷ xs) = ground (arith, count-insert i n xs)

count-sort : (i : ℕ) (xs : List Node) → count i (entries (sort xs)) ≡ count i (entries xs)
unfolding sort
count-sort i [] = refl
count-sort i (x ∷ xs) = omega (arith, count-insert i x (sort xs), count-sort i xs)

length-insert : (n : Node) (xs : List Node) → length (insert n xs) ≡ suc (length xs)
unfolding insert
length-insert n [] = refl
length-insert n (x ∷ xs) = ground (arith, length-insert n xs)

length-sort : (xs : List Node) → length (sort xs) ≡ length xs
unfolding sort
length-sort [] = refl
length-sort (x ∷ xs) = omega (arith, length-insert x (sort xs), length-sort xs)

count-take-drop :
    (i k : ℕ) (xs : List Node)
    → count i (entries (take k xs)) + count i (entries (drop k xs)) ≡ count i (entries xs)
count-take-drop i zero xs = omega arith
count-take-drop i (suc k) [] = omega arith
count-take-drop i (suc k) (x ∷ xs) = omega (arith, count-take-drop i k xs)

length-take-drop : (k : ℕ) (xs : List Node) → length (take k xs) + length (drop k xs) ≡ length xs
length-take-drop zero xs = omega arith
length-take-drop (suc k) [] = omega arith
length-take-drop (suc k) (x ∷ xs) = omega (arith, length-take-drop k xs)

count-append :
    (i : ℕ) (xs ys : List Node)
    → count i (entries (xs ++ ys)) ≡ count i (entries xs) + count i (entries ys)
count-append i [] ys = omega arith
count-append i (x ∷ xs) ys = omega (arith, count-append i xs ys)

-- The nodes in a thread's hands.
abbrev pub with_producer : Producer → List Node
with_producer (holding node) = node ∷ []
with_producer idle = []
with_producer missing = []
with_producer (popping event) = []

abbrev pub with_sender : Sender → List Node
with_sender waiting = []
with_sender (dropping nodes batch) = nodes ++ batch
with_sender (returning node nodes batch) = node ∷ (nodes ++ batch)
with_sender (sending batch) = batch
with_sender (uncounted batch) = batch
with_sender (sent node batch) = node ∷ batch
with_sender (failed node batch) = node ∷ batch

-- The events in a thread's hands that no pipe has taken and that are not counted yet.
abbrev pub open_at_producer : Producer → ℕ
open_at_producer idle = 0
open_at_producer missing = 1
open_at_producer (popping event) = 1
open_at_producer (holding node) = 1

abbrev pub open_at_sender : Sender → ℕ
open_at_sender waiting = 0
open_at_sender (dropping nodes batch) = length nodes + length batch
open_at_sender (returning node nodes batch) = length nodes + length batch
open_at_sender (sending batch) = length batch
open_at_sender (uncounted batch) = suc (length batch)
open_at_sender (sent node batch) = length batch
open_at_sender (failed node batch) = suc (length batch)

abbrev pub places : ℕ → Lists → ℕ
places i s =
    count i s.free
    + count i (entries s.pending)
    + count i (entries (with_producer s.producer))
    + count i (entries (with_sender s.sender))

abbrev pub accounted : Lists → ℕ
accounted s =
    s.delivered
    + length s.pending
    + open_at_producer s.producer
    + open_at_sender s.sender
    + s.dropped

-- After at most `n` steps.
record Sound (n : ℕ) (s : Lists) : Type 0 where
  one_place : (i : ℕ) → places i s ≡ (if ltb i queue_capacity then 1 else 0)
  balanced : accounted s ≡ s.offered
  few : s.offered ≤ n

-- Nothing happens.
wait-Sound : (n : ℕ) (s : Lists) → Sound n s → Sound (suc n) s
wait-Sound n s h = record {
  one_place = h.one_place;
  balanced = h.balanced;
  few = omega (arith, h.few);
}

offer_at-Sound :
    (n : ℕ) (event : Event) (p : Producer) (s : Lists)
    → Sound n (record s { producer = p })
    → Sound (suc n) (offer_at event p (record s { producer = p }))
unfolding offer_at
offer_at-Sound n event idle s h = record {
  one_place = h.one_place;
  balanced = omega (arith, h.balanced);
  few = omega (arith, h.few);
}
offer_at-Sound n event missing s h = wait-Sound n _ h
offer_at-Sound n event (popping e) s h = wait-Sound n _ h
offer_at-Sound n event (holding node) s h = wait-Sound n _ h

pop_at-Sound :
    (n : ℕ) (event : Event) (free : List ℕ) (s : Lists)
    → Sound n (record s { producer = popping event; free = free })
    → Sound (suc n) (pop_at event free (record s { producer = popping event; free = free }))
unfolding pop_at
pop_at-Sound n event [] s h = record {
  one_place = h.one_place;
  balanced = h.balanced;
  few = omega (arith, h.few);
}
pop_at-Sound n event (entry ∷ free) s h = record {
  one_place = λ i. omega (arith, h.one_place i);
  balanced = h.balanced;
  few = omega (arith, h.few);
}

-- A count goes up, which does not wrap: it is of events that have been offered.
counted-once :
    (n d offered rest : ℕ)
    → n < 2 ^ 64
    → rest + suc d ≡ offered
    → offered ≤ n
    → rest + increment64 d ≡ offered
unfolding increment64
counted-once n d offered rest h e k = omega arith

produce_at-Sound :
    (n : ℕ) (p : Producer) (s : Lists)
    → n < 2 ^ 64
    → Sound n (record s { producer = p })
    → Sound (suc n) (produce_at p (record s { producer = p }))
unfolding produce_at
produce_at-Sound n idle s small h = wait-Sound n _ h
produce_at-Sound n missing s small h = record {
  one_place = h.one_place;
  balanced = omega (
    arith,
    counted-once n s.dropped s.offered (s.delivered + length s.pending + open_at_sender s.sender)
        small (omega (arith, h.balanced)) h.few,
  );
  few = omega (arith, h.few);
}
produce_at-Sound n (popping event) s small h = pop_at-Sound n event s.free s h
produce_at-Sound n (holding node) s small h = record {
  one_place = λ i. omega (arith, h.one_place i);
  balanced = omega (arith, h.balanced);
  few = omega (arith, h.few);
}

flush_at-Sound :
    (n : ℕ) (q : Sender) (s : Lists)
    → Sound n (record s { sender = q })
    → Sound (suc n) (flush_at q (record s { sender = q }))
unfolding flush_at
flush_at-Sound n waiting s h = record {
  one_place = λ i. omega (arith, h.one_place i, count-append i s.pending []);
  balanced = omega (arith, h.balanced);
  few = omega (arith, h.few);
}
flush_at-Sound n (dropping nodes batch) s h = wait-Sound n _ h
flush_at-Sound n (returning node nodes batch) s h = wait-Sound n _ h
flush_at-Sound n (sending batch) s h = wait-Sound n _ h
flush_at-Sound n (uncounted batch) s h = wait-Sound n _ h
flush_at-Sound n (sent node batch) s h = wait-Sound n _ h
flush_at-Sound n (failed node batch) s h = wait-Sound n _ h

take_at-Sound :
    (n : ℕ) (q : Sender) (s : Lists)
    → Sound n (record s { sender = q })
    → Sound (suc n) (take_at q (record s { sender = q }))
unfolding take_at
take_at-Sound n waiting s h = record {
  one_place = λ i. omega (
    arith,
    h.one_place i,
    count-append i (drop queue_capacity s.pending) (take queue_capacity s.pending),
    count-take-drop i queue_capacity s.pending,
  );
  balanced = omega (arith, h.balanced, length-take-drop queue_capacity s.pending);
  few = omega (arith, h.few);
}
take_at-Sound n (dropping nodes batch) s h = wait-Sound n _ h
take_at-Sound n (returning node nodes batch) s h = wait-Sound n _ h
take_at-Sound n (sending batch) s h = wait-Sound n _ h
take_at-Sound n (uncounted batch) s h = wait-Sound n _ h
take_at-Sound n (sent node batch) s h = wait-Sound n _ h
take_at-Sound n (failed node batch) s h = wait-Sound n _ h

send_at-Sound :
    (n : ℕ) (ok : Bool) (q : Sender) (s : Lists)
    → Sound n (record s { sender = q })
    → Sound (suc n) (send_at ok q (record s { sender = q }))
unfolding send_at
send_at-Sound n true (sending (node ∷ batch)) s h = record {
  one_place = h.one_place;
  balanced = omega (arith, h.balanced);
  few = omega (arith, h.few);
}
send_at-Sound n false (sending (node ∷ batch)) s h = record {
  one_place = h.one_place;
  balanced = h.balanced;
  few = omega (arith, h.few);
}
send_at-Sound n true (sending []) s h = wait-Sound n _ h
send_at-Sound n false (sending []) s h = wait-Sound n _ h
send_at-Sound n true waiting s h = wait-Sound n _ h
send_at-Sound n false waiting s h = wait-Sound n _ h
send_at-Sound n true (dropping nodes batch) s h = wait-Sound n _ h
send_at-Sound n false (dropping nodes batch) s h = wait-Sound n _ h
send_at-Sound n true (returning node nodes batch) s h = wait-Sound n _ h
send_at-Sound n false (returning node nodes batch) s h = wait-Sound n _ h
send_at-Sound n true (uncounted batch) s h = wait-Sound n _ h
send_at-Sound n false (uncounted batch) s h = wait-Sound n _ h
send_at-Sound n true (sent node batch) s h = wait-Sound n _ h
send_at-Sound n false (sent node batch) s h = wait-Sound n _ h
send_at-Sound n true (failed node batch) s h = wait-Sound n _ h
send_at-Sound n false (failed node batch) s h = wait-Sound n _ h

work_at-Sound :
    (n : ℕ) (q : Sender) (s : Lists)
    → n < 2 ^ 64
    → Sound n (record s { sender = q })
    → Sound (suc n) (work_at q (record s { sender = q }))
unfolding work_at
work_at-Sound n waiting s small h = wait-Sound n _ h
work_at-Sound n (dropping [] batch) s small h = record {
  one_place = λ i. omega (arith, h.one_place i, count-sort i batch);
  balanced = omega (arith, h.balanced, length-sort batch);
  few = omega (arith, h.few);
}
work_at-Sound n (dropping (node ∷ nodes) batch) s small h = record {
  one_place = h.one_place;
  balanced = omega (
    arith,
    counted-once n s.dropped s.offered
        (s.delivered
          + length s.pending
          + open_at_producer s.producer
          + (length nodes + length batch))
        small (omega (arith, h.balanced)) h.few,
  );
  few = omega (arith, h.few);
}
work_at-Sound n (returning node nodes batch) s small h = record {
  one_place = λ i. omega (arith, h.one_place i);
  balanced = h.balanced;
  few = omega (arith, h.few);
}
work_at-Sound n (sending []) s small h = record {
  one_place = h.one_place;
  balanced = h.balanced;
  few = omega (arith, h.few);
}
work_at-Sound n (sending (node ∷ batch)) s small h = wait-Sound n _ h
work_at-Sound n (sent node batch) s small h = record {
  one_place = λ i. omega (arith, h.one_place i);
  balanced = h.balanced;
  few = omega (arith, h.few);
}
work_at-Sound n (failed node batch) s small h = record {
  one_place = λ i. omega (arith, h.one_place i);
  balanced = h.balanced;
  few = omega (arith, h.few);
}
work_at-Sound n (uncounted batch) s small h = record {
  one_place = λ i. omega (arith, h.one_place i, count-append i batch []);
  balanced = omega (
    arith,
    counted-once n s.dropped s.offered
        (s.delivered + length s.pending + open_at_producer s.producer + length batch) small
        (omega (arith, h.balanced)) h.few,
  );
  few = omega (arith, h.few);
}

step-Sound :
    (n : ℕ) (move : Move) (s : Lists) → n < 2 ^ 64 → Sound n s → Sound (suc n) (step move s)
unfolding step
step-Sound n (offers event) s small h = offer_at-Sound n event s.producer s h
step-Sound n produces s small h = produce_at-Sound n s.producer s small h
step-Sound n flushes s small h = flush_at-Sound n s.sender s h
step-Sound n takes s small h = take_at-Sound n s.sender s h
step-Sound n works s small h = work_at-Sound n s.sender s small h
step-Sound n (sends ok) s small h = send_at-Sound n ok s.sender s h

run-Sound :
    (moves : List Move) (n : ℕ) (s : Lists)
    → n + length moves < 2 ^ 64
    → Sound n s
    → Sound (n + length moves) (run moves s)
unfolding run
run-Sound [] n s small h = let e : n ≡ n + 0 = omega arith in subst (λ (k : ℕ). Sound k s) e h
run-Sound (move ∷ moves) n s small h =
    let e : suc n + length moves ≡ n + suc (length moves) = omega arith in
    subst (λ (k : ℕ). Sound k (run moves (step move s))) e
      (run-Sound moves (suc n) (step move s) (omega arith) (step-Sound n move s (omega arith) h))

count-push_nodes : (i n : ℕ) → count i (push_nodes n) ≡ (if ltb i n then 1 else 0)
unfolding push_nodes
count-push_nodes i zero = ground arith
count-push_nodes i (suc n) = ground (arith, count-push_nodes i n)

free_places :
    (i n : ℕ)
    → count i (push_nodes n) + count i [] + count i [] + count i [] ≡ (if ltb i n then 1 else 0)
free_places i n = omega (arith, count-push_nodes i n)

fresh_lists-Sound : Sound 0 fresh_lists
unfolding fresh_lists
fresh_lists-Sound = record {
  one_place = λ i. free_places i queue_capacity;
  balanced = refl;
  few = omega arith;
}

-- Over any interleaving of fewer than 2 ^ 64 interlocked calls, of the threads that offer events to
-- a running sink, one at a time, and of its sender thread, from the start: each of the sink's 1024
-- nodes is in exactly one place, once (the free list, the pending list, or the hands of one of the
-- threads), and no other node in any.
pub node_in_one_place :
    (moves : List Move) (i : ℕ)
    → length moves < 2 ^ 64
    → let s = run moves fresh_lists in
      count i s.free
        + count i (entries s.pending)
        + count i (entries (with_producer s.producer))
        + count i (entries (with_sender s.sender))
      ≡ (if ltb i queue_capacity then 1 else 0)
node_in_one_place moves i small =
    (run-Sound moves 0 fresh_lists (omega (arith, small)) fresh_lists-Sound).one_place i

-- Over any interleaving of fewer than 2 ^ 64 interlocked calls, of the threads that offer events to
-- a running sink, one at a time, and of its sender thread, from the start: the events offered are
-- those that a pipe took, those pending, those in a thread's hands that are neither taken nor
-- counted yet, and those in the loss counter, added up. No loss goes uncounted.
pub events_accounted :
    (moves : List Move)
    → length moves < 2 ^ 64
    → let s = run moves fresh_lists in
      s.delivered
        + length s.pending
        + open_at_producer s.producer
        + open_at_sender s.sender
        + s.dropped
      ≡ s.offered
events_accounted moves small =
    (run-Sound moves 0 fresh_lists (omega (arith, small)) fresh_lists-Sound).balanced
