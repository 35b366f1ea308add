-- ===== src/Tests/Threads.antt =====
-- The theorems on the threads and their steps, and on the life of a memberlist.
use cpp_gossip.Base.{◌-◌, ◌≡◌, refl, true, false, [], ◌∷◌, ◌++◌, arith}
use cpp_gossip.Message.{alive_msg, dead_msg}
use cpp_gossip.Handoff.{SockAddr, handle_com_broadcast}
use cpp_gossip.Handoff.Threads.{
  Threads, writing, taking, looping, Steps, here, next, locked, emplaced, put_next, at_rest,
}
use cpp_gossip.Handoff.Wakes.{IsLive, IsStuck, Steps-IsLive, begun, hand_over-IsStuck}
use cpp_gossip.Handoff.Atomic.{Steps-handle_com_broadcast}
use cpp_gossip.Listen.{came, select_back, packet_handler, with_envs}
use cpp_gossip.Listen.Laws.{IsHandled, packet_handler-next}
use cpp_gossip.Node.{Node}
use cpp_gossip.Timer.Closing
use cpp_gossip.Timer.Closing.{Pair, joining}
use cpp_gossip.Timer.Joins.{JoinEnds, join-cases}
use cpp_gossip.Tests.{whole, eight, env, alive_b, dead_b, pair}

abbrev sender : SockAddr
sender = record { sin_addr = 7; sin_port = 6666 }

abbrev put_one : Threads
put_one =
    put_next 1024 sender (alive_msg alive_b) []
      (record at_rest { listener = looping sender (alive_msg alive_b ∷ []) })

put_one-Steps : Steps 16 1024 at_rest put_one
put_one-Steps =
    next (next here (locked sender (alive_msg alive_b ∷ []) refl))
      (emplaced sender (alive_msg alive_b) [] refl)

Steps-IsLive_example : IsLive 16 put_one
Steps-IsLive_example = Steps-IsLive 16 1024 put_one-Steps

hand_over-IsStuck_example :
    (let s₀ = begun 16 1024 sender alive_b in
      Steps 16 1024 at_rest s₀
      × ((s : Threads) × Steps 16 1024 s₀ s
          × IsStuck 16 1024 s
          × (s.listener ≡ writing sender [])
          × (s.handler ≡ taking)
          × (s.handoff.woken ≡ 16)))
hand_over-IsStuck_example = hand_over-IsStuck 16 1024 sender alive_b (omega arith) (omega arith)

Steps-handle_com_broadcast_example : Steps 16 1024 at_rest (record at_rest {
  handoff =
      handle_com_broadcast 1024 sender (alive_msg alive_b ∷ dead_msg dead_b ∷ []) at_rest.handoff;
})
Steps-handle_com_broadcast_example =
    Steps-handle_com_broadcast 16 1024 sender (alive_msg alive_b ∷ dead_msg dead_b ∷ []) at_rest
      refl (omega arith)

packet_handler-next_example :
    (let h' = handle_com_broadcast 1024 sender (alive_msg alive_b ∷ []) at_rest.handoff in
      IsHandled eight whole 1024 (with_envs (λ i. env) (h'.high ++ h'.low)) pair (h'.woken - 1) (
        packet_handler eight whole 1024
          (came sender (alive_msg alive_b ∷ [])
            ∷ select_back false (λ i. env)
            ∷ select_back true (λ i. env)
            ∷ [])
          pair
          at_rest.handoff))
packet_handler-next_example =
    packet_handler-next eight whole 1024 sender (alive_msg alive_b ∷ []) (λ i. env) (λ i. env) []
      pair at_rest.handoff (omega arith)

abbrev cancelled_asleep : Pair
cancelled_asleep = record { runner = Closing.asleep; closer = joining; cancelled = true }

cancelled_asleep-Steps : Closing.Steps Closing.running_pair cancelled_asleep
cancelled_asleep-Steps =
    Closing.next (Closing.next Closing.here (Closing.acquired refl (λ e. ground (arith, e))))
      (Closing.stopped refl)

join-cases_example : JoinEnds cancelled_asleep
join-cases_example = join-cases cancelled_asleep-Steps refl
