-- ===== src/Handoff/Wakes.antt =====
-- No wake-up of the handler is lost, and where the two threads block each other.
use cpp_gossip.Base.{
  ℕ, zero, suc, ◌+◌, ◌-◌, ◌≤◌, ◌<◌, ◌≡◌, refl, ap, subst, List, [], ◌∷◌, arith, length,
}
use cpp_gossip.Message.{Alive, Broadcast, alive_msg}
use cpp_gossip.Handoff.{Handoff, MsgHandoff, SockAddr, get_next_message}
use cpp_gossip.Handoff.Threads.{
  Listener, outside, looping, writing, Handler, selecting, taking, Threads, emplace, put_next,
  take_next, Step, locked, emplaced, written, unlocked, woke, took, Steps, here, next, at_rest,
}

-- The messages in the queues, and a packet that is about to be written.
abbrev pub waiting : Handoff → ℕ
waiting h = length h.high + length h.low

abbrev pub pending : Listener → ℕ
pending outside = 0
pending (looping from bcs) = 0
pending (writing from bcs) = 1

pub record IsLive (capacity : ℕ) (s : Threads) : Type 0 where
  pub awake : s.handler ≡ selecting → waiting s.handoff ≤ s.handoff.woken + pending s.listener
  pub bounded : s.handoff.woken ≤ capacity

put_next-IsLive :
    (capacity depth : ℕ) (from : SockAddr) (bc : Broadcast) (bcs : List Broadcast) (s : Threads)
    → s.listener ≡ looping from (bc ∷ bcs)
    → IsLive capacity s
    → IsLive capacity (put_next depth from bc bcs s)
unfolding put_next emplace
put_next-IsLive capacity depth from bc bcs s e l = record {
  awake = λ h. ground (arith, l.awake h, ap pending e);
  bounded = ground (arith, l.bounded);
}

take_next-IsLive :
    (capacity : ℕ) (s : Threads)
    → s.handler ≡ taking
    → IsLive capacity s
    → IsLive capacity (take_next s)
unfolding take_next get_next_message
take_next-IsLive capacity s t l = record {
  awake = λ h. ground (arith);
  bounded = ground (arith, l.bounded);
}

Step-IsLive :
    (capacity depth : ℕ) {s t : Threads}
    → Step capacity depth s t
    → IsLive capacity s
    → IsLive capacity t
Step-IsLive capacity depth (locked from bcs {s} e) l = record {
  awake = λ h. ground (arith, l.awake h, ap pending e);
  bounded = l.bounded;
}
Step-IsLive capacity depth (emplaced from bc bcs {s} e) l =
    put_next-IsLive capacity depth from bc bcs s e l
Step-IsLive capacity depth (written from bcs {s} e room) l = record {
  awake = λ h. ground (arith, l.awake h, ap pending e);
  bounded = omega (arith, room);
}
Step-IsLive capacity depth (unlocked from {s} e) l = record {
  awake = λ h. ground (arith, l.awake h, ap pending e);
  bounded = l.bounded;
}
Step-IsLive capacity depth (woke {s} e some_packet) l = record {
  awake = λ h. ground arith;
  bounded = omega (arith, l.bounded);
}
Step-IsLive capacity depth (took {s} e free) l = take_next-IsLive capacity s e l

-- Whenever the handler waits at its `Select`, the pipe holds a packet, or is about to get it, for each
-- message in the queues; and it never holds more packets than its capacity.
pub Steps-IsLive :
    (capacity depth : ℕ) {s : Threads} → Steps capacity depth at_rest s → IsLive capacity s
Steps-IsLive capacity depth here = record { awake = λ h. omega arith; bounded = omega arith }
Steps-IsLive capacity depth (next r t) =
    Step-IsLive capacity depth t (Steps-IsLive capacity depth r)

-- A thread that can step no more.
abbrev pub IsStuck : ℕ → ℕ → Threads → Type 0
IsStuck capacity depth s = (t : Threads) → Step capacity depth s t → ⊥

module _ (capacity depth : ℕ) (from : SockAddr) (a : Alive) where
  abbrev many {ℓ} : {A : Type ℓ} → ℕ → A → List A
  many zero x = []
  many (suc n) x = x ∷ many n x

  length-many : {A : Type 0} (n : ℕ) (x : A) → length (many n x) ≡ n
  length-many zero x = refl
  length-many (suc n) x = omega (arith, length-many n x)

  abbrev msg : MsgHandoff
  msg = record { b = alive_msg a; from = from }

  -- `n` messages to go, `k` in the queue, and `w` packets in the pipe.
  abbrev filling : Handler → ℕ → ℕ → ℕ → Threads
  filling handler n k w = record {
    listener = looping from (many n (alive_msg a));
    handler = handler;
    handoff = record { high = many k msg; low = []; woken = w };
    taken = [];
  }

  abbrev full : Handler → ℕ → ℕ → ℕ → Threads
  full handler n k w = record (filling handler n k w) {
    listener = writing from (many n (alive_msg a));
  }

  put_next-full :
      (handler : Handler) (n k w : ℕ)
      → k < depth
      → put_next depth from (alive_msg a) (many n (alive_msg a)) (filling handler (suc n) k w)
        ≡ full handler n (suc k) w
  unfolding put_next emplace
  put_next-full handler n k w room = ground (arith, length-many k msg)

  puts :
      (handler : Handler) (n k w : ℕ) {s : Threads}
      → k < depth
      → Steps capacity depth s (filling handler (suc n) k w)
      → Steps capacity depth s (full handler n (suc k) w)
  puts handler n k w {s} room r =
      subst (Steps capacity depth s) (put_next-full handler n k w room)
        (next r (emplaced from (alive_msg a) (many n (alive_msg a)) refl))

  puts_and_writes :
      (handler : Handler) (n k w : ℕ) {s : Threads}
      → k < depth
      → w < capacity
      → Steps capacity depth s (filling handler (suc n) k w)
      → Steps capacity depth s (filling handler n (suc k) (suc w))
  puts_and_writes handler n k w {s} room packet r =
      subst (λ v. Steps capacity depth s (filling handler n (suc k) v)) (omega arith)
        (next (puts handler n k w room r) (written from (many n (alive_msg a)) refl packet))

  refill :
      (handler : Handler) {n n' k k' w w' : ℕ} {s : Threads}
      → n ≡ n'
      → k ≡ k'
      → w ≡ w'
      → Steps capacity depth s (filling handler n k w)
      → Steps capacity depth s (filling handler n' k' w')
  refill handler {n} {n'} {k} {k'} {w} {w'} {s} en ek ew r =
      subst (λ v. Steps capacity depth s (filling handler n' k' v)) ew
        (subst (λ v. Steps capacity depth s (filling handler n' v w)) ek
          (subst (λ v. Steps capacity depth s (filling handler v k w)) en r))

  fills :
      (n rest k w : ℕ) {s : Threads}
      → k + n ≤ depth
      → w + n ≤ capacity
      → Steps capacity depth s (filling selecting (n + rest) k w)
      → Steps capacity depth s (filling selecting rest (k + n) (w + n))
  fills zero rest k w room packets r = refill selecting (omega arith) (omega arith) (omega arith) r
  fills (suc n) rest k w room packets r =
      let r' =
        puts_and_writes selecting (n + rest) k w (omega (arith, room)) (omega (arith, packets))
          (refill selecting {n' = suc (n + rest)} {k' = k} {w' = w} (omega arith) refl refl r) in
      refill selecting refl (omega arith) (omega arith)
        (fills n rest (suc k) (suc w) (omega (arith, room)) (omega (arith, packets)) r')

  full_taking-IsStuck : (n k : ℕ) → IsStuck capacity depth (full taking n k capacity)
  full_taking-IsStuck n k t (locked from' bcs e) = ground (arith, e)
  full_taking-IsStuck n k t (emplaced from' bc bcs e) = ground (arith, e)
  full_taking-IsStuck n k t (written from' bcs e room) = omega (arith, room)
  full_taking-IsStuck n k t (unlocked from' e) = ground (arith, e)
  full_taking-IsStuck n k t (woke e packet) = ground (arith, e)
  full_taking-IsStuck n k t (took e free) = free

  -- `packetListen` has just locked, with the compound message that makes both threads wait.
  abbrev pub begun : Threads
  begun = record at_rest { listener = looping from (many (capacity + 2) (alive_msg a)) }

  -- For a pipe with room for some packet, and queues that take two messages more than the pipe has room
  -- for packets: when `packetListen`, from rest, has begun with one compound message of that many alive
  -- messages, the threads can come to a state in which neither can step. `packetListen` waits in
  -- `Write` after the last of them, with `msgQueueMutex` and the pipe full, and `packetHandler`, which
  -- would read, waits for the mutex.
  pub hand_over-IsStuck :
      0 < capacity
      → capacity + 2 ≤ depth
      → Steps capacity depth at_rest begun
        × ((s : Threads) × Steps capacity depth begun s
            × IsStuck capacity depth s
            × (s.listener ≡ writing from [])
            × (s.handler ≡ taking)
            × (s.handoff.woken ≡ capacity))
  hand_over-IsStuck some_room deep =
      let filled = fills capacity 2 0 0 (omega (arith, deep)) (omega arith) here in
      let awake = next filled (woke refl (omega (arith, some_room))) in
      let one_more =
        puts_and_writes taking 1 capacity (capacity - 1) (omega (arith, deep))
          (omega (arith, some_room))
          (refill taking {n' = 2} {k' = capacity} {w' = capacity - 1} refl (omega arith)
            (omega arith) awake) in
      let last = puts taking 0 (suc capacity) capacity (omega (arith, deep)) (
        refill taking {n' = 1} {k' = suc capacity} {w' = capacity} refl refl
          (omega (arith, some_room)) one_more) in
      (
        next here (locked from (many (capacity + 2) (alive_msg a)) refl),
        (
          full taking 0 (suc (suc capacity)) capacity,
          last,
          full_taking-IsStuck 0 (suc (suc capacity)),
          refl,
          refl,
          refl,
        ),
      )
