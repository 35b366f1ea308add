-- ===== src/Tests/Queues.antt =====
-- The theorems on the queue, on a queue of two messages.
use cpp_gossip.Base.{
  ◌+◌, ◌%◌, ◌≤◌, ◌≡◌, refl, false, none, some, List, [], ◌∷◌, ◌++◌, String, arith, All, u32_mod,
  string_discrete, insert, erase,
}
use cpp_gossip.Node.{NodeState, state_alive}
use cpp_gossip.Message.{alive_msg, dead_msg}
use cpp_gossip.Queue.Order.{MemberlistBroadcast, LimitedBroadcast, set_insert}
use cpp_gossip.Queue.{
  BroadcastQueue, Batch, Sweep, new_queue, delete_item, add_item, finish_all, queue_broadcast,
  queue_broadcast_at, sweep, send,
}
use cpp_gossip.Queue.Indexed.{IsIndexed}
use cpp_gossip.Queue.Fresh
use cpp_gossip.Queue.Fresh.{IsReplaced, queue_broadcast-IsReplaced, queue_broadcast-IsIndexed}
use cpp_gossip.Queue.WellFormed.{IsWellFormed}
use cpp_gossip.Queue.Kept.{queue_broadcast-IsWellFormed}
use cpp_gossip.Queue.Refinement.{IsDelivery}
use cpp_gossip.Queue.Greedy.{IsGreedy, sweep-IsGreedy}
use cpp_gossip.Queue.Load.{IsEasy, load}
use cpp_gossip.Queue.Drains.{sweeps, sweeps_drain}
use cpp_gossip.Queue.Reach.{Reach, made, queued, IsSound, Reach-IsSound}
use cpp_gossip.Queue.Notice.{send_notifies_early}
use cpp_gossip.Gossip.Round.{gossip, IsRound, IsPeer, gossip-ends}
use cpp_gossip.Tests.{whole, eight, alive_b, dead_b, config_a}

program : Unit {0}
unfolding new_queue delete_item add_item finish_all queue_broadcast queue_broadcast_at set_insert
    insert erase string_discrete
program = tt

abbrev about_b : MemberlistBroadcast
about_b = record { node = "b"; msg = alive_msg alive_b; notify_fd = none }

abbrev leaving : MemberlistBroadcast
leaving = record { node = "a"; msg = dead_msg dead_b; notify_fd = some 5 }

abbrev one : BroadcastQueue
one = queue_broadcast eight leaving (new_queue 4)

abbrev two : BroadcastQueue
two = queue_broadcast eight about_b one

new_queue-IsIndexed : IsIndexed eight (new_queue 4)
unfolding program
new_queue-IsIndexed = record { sized = tt; named = tt }

one-IsIndexed : IsIndexed eight one
one-IsIndexed =
    queue_broadcast-IsIndexed eight leaving (new_queue 4) (omega arith) new_queue-IsIndexed

two-IsIndexed : IsIndexed eight two
two-IsIndexed = queue_broadcast-IsIndexed eight about_b one (omega arith) one-IsIndexed

abbrev start : Sweep
start = record { queue = one; cbc = []; bytes_used = 0; reinsert = []; have_msg = false }

send_notifies_early_example :
    (let s = send 3 (Fresh.queued eight leaving (new_queue 4)) start in
      (s.queue.notified ≡ one.notified ++ 5 ∷ [])
      × (s.reinsert
          ≡ []
            ++ record (Fresh.queued eight leaving (new_queue 4)) { transmits = (0 + 1) % u32_mod }
              ∷ []))
unfolding program
send_notifies_early_example =
    send_notifies_early 3 5 (Fresh.queued eight leaving (new_queue 4)) _ start refl refl refl
      (omega arith)

abbrev peers : List NodeState
peers =
    record {
      n = record { name = "b"; addr = "127.0.0.1"; port = 6666 };
      incarnation = 1;
      state = state_alive;
      state_change = 101;
    }
    ∷ []

gossip-ends_example :
    IsRound
      (λ s. some 7)
      (λ p. p)
      config_a.udp_buffer_size
      eight
      (IsPeer config_a 200 peers)
      config_a.gossip_nodes
      (gossip whole 2 false (λ s. some 7) (λ p. p) config_a 200 (λ i. i) peers two)
gossip-ends_example =
    gossip-ends whole 2 false (λ s. some 7) (λ p. p) config_a 200 peers eight (λ i. i) two
      (omega arith) (omega arith) two-IsIndexed

two-Reach : Reach eight 4 2 two
two-Reach = queued about_b (omega arith) (queued leaving (omega arith) made)

Reach-IsSound_example : IsSound eight 2 two
Reach-IsSound_example = Reach-IsSound eight 4 (omega arith) two-Reach

one-IsSound : IsSound eight 1 one
one-IsSound = Reach-IsSound eight 4 (omega arith) (queued leaving (omega arith) made)

two-IsSound : IsSound eight 2 two
two-IsSound = Reach-IsSound eight 4 (omega arith) two-Reach

queue_broadcast-IsWellFormed_example :
    IsWellFormed (queue_broadcast eight about_b one)
    × ((k : String)
        → (queue_broadcast eight about_b one).tm k
          ≡ insert string_discrete "b" (Fresh.queued eight about_b one) one.tm k)
queue_broadcast-IsWellFormed_example =
    queue_broadcast-IsWellFormed eight about_b one (omega (arith, one-IsSound.counted))
      one-IsSound.whole

sweep-IsGreedy_example :
    (b : Batch) × (sent : List LimitedBroadcast) × (sweep 3 false 4 100 [] two ≡ some b)
    × IsDelivery 3 two [] sent b
    × IsGreedy eight 3 4 100 false two [] sent b.cbc
sweep-IsGreedy_example =
    sweep-IsGreedy eight 3 4 100 false [] two (omega arith) (omega arith) two-IsSound.sized
      two-IsSound.whole

two-easy : All (IsEasy 3 4 100) two.tq
unfolding program
two-easy = ground arith

two-load : load 3 two.tq ≤ 8
unfolding program
two-load = omega arith

sweeps_drain_example : (q' : BroadcastQueue) × (sweeps 8 3 false 4 100 two ≡ some q') × (q'.tq ≡ [])
sweeps_drain_example =
    sweeps_drain 3 4 100 (omega arith) (omega arith) (omega arith) eight false 8 two
      (record { whole = two-IsSound.whole; sized = two-IsSound.sized; easy = two-easy }) two-load
