-- ===== src/Gossip/Round.antt =====
-- A round of `gossip` of src/memberlist/state.cpp, with its choice of nodes. The clock stands still
-- during the choice.
use cpp_gossip.Base.{
  ℕ, suc, ◌≤◌, ◌<◌, ◌≡◌, String, Bool, false, Option, none, some, List, [], ◌∷◌, arith, All, length,
  u64_mod, Option-cases, Bool-cases, inl, inr,
}
use mathlib.Core.List.{Mem}
use cpp_gossip.Double.{Double}
use cpp_gossip.Config.{Config}
use cpp_gossip.Node.{NodeState}
use cpp_gossip.Message.{Broadcast, MessageData, gen_com_msg}
use cpp_gossip.Handoff.{SockAddr}
use cpp_gossip.Acks.{full_addr}
use cpp_gossip.Queue.{BroadcastQueue, get_broadcasts, retransmit_limit}
use cpp_gossip.Queue.Budget.{sweep_ends}
use cpp_gossip.Queue.Indexed.{IsIndexed}
use cpp_gossip.Sample.{k_random_nodes, not_gossiped_to, k_random_nodes-IsSample}
use cpp_gossip.Gossip.{
  message_data_overhead, Gossiped, sent, exited, exhausted, send_first, gossip_to, Fits,
}

module _ (inet_pton : String → Option ℕ) (htons : ℕ → ℕ) where
  -- The address is that of a node for which `P` holds.
  abbrev pub Reached : (NodeState → Type 0) → SockAddr × MessageData → Type 0
  Reached P (a, md) = (v : NodeState) × P v × (full_addr inet_pton htons v.n ≡ some a)

  module _ (bytes_avail : ℕ) (byte_size : Broadcast → ℕ) where
    -- At most `n` messages, each to a node for which `P` holds, and each of a size that fits. The round
    -- has left a queue in order, or the process at such a node whose address is none.
    abbrev pub IsRound : (NodeState → Type 0) → ℕ → Gossiped → Type 0
    IsRound P n (sent q sends) =
        (length sends ≤ n)
        × All (Reached P) sends
        × All (Fits bytes_avail byte_size) sends
        × IsIndexed byte_size q
    IsRound P n (exited sends) =
        (length sends ≤ n)
        × All (Reached P) sends
        × All (Fits bytes_avail byte_size) sends
        × ((v : NodeState) × P v × (full_addr inet_pton htons v.n ≡ none))
    IsRound P n exhausted = ⊥

    send_first-IsRound :
        (P : NodeState → Type 0) (v : NodeState) (a : SockAddr) (cbc : List Broadcast) (n : ℕ)
        (r : Gossiped)
        → P v
        → full_addr inet_pton htons v.n ≡ some a
        → Fits bytes_avail byte_size (a, gen_com_msg cbc)
        → IsRound P n r
        → IsRound P (suc n) (send_first (a, gen_com_msg cbc) r)
    send_first-IsRound P v a cbc n (sent q sends) h e fit i =
        (omega (arith, i.0), ((v, h, e), i.1), (fit, i.2), i.3)
    send_first-IsRound P v a cbc n (exited sends) h e fit i =
        (omega (arith, i.0), ((v, h, e), i.1), (fit, i.2), i.3)
    send_first-IsRound P v a cbc n exhausted h e fit i = i

    IsRound-more :
        (P : NodeState → Type 0) (n k : ℕ) (r : Gossiped) → n ≤ k → IsRound P n r → IsRound P k r
    IsRound-more P n k (sent q sends) h i = (omega (arith, h, i.0), i.1, i.2, i.3)
    IsRound-more P n k (exited sends) h i = (omega (arith, h, i.0), i.1, i.2, i.3)
    IsRound-more P n k exhausted h i = i

    module _ (d : Double) (num_nodes : ℕ) (unset : Bool)
        (room : message_data_overhead ≤ bytes_avail) (small : bytes_avail < u64_mod) where
      gossip_to-IsRound :
          (P : NodeState → Type 0) (vs : List NodeState) (q : BroadcastQueue)
          → All P vs
          → IsIndexed byte_size q
          → IsRound P (length vs) (gossip_to d num_nodes unset inet_pton htons bytes_avail vs q)
      unfolding gossip_to get_broadcasts
      gossip_to-IsRound P [] q h w = (omega arith, tt, tt, w)
      gossip_to-IsRound P (v ∷ vs) q h w =
          let (b, e, fit, w') =
            sweep_ends byte_size (retransmit_limit d q.retransmit_mult num_nodes)
              message_data_overhead bytes_avail unset [] q room small w in
          elim (Bool-cases b.have_msg) [
            | inl m ↦ elim (Option-cases (full_addr inet_pton htons v.n)) [
              | inl none_there ↦
                  rw (e, gossip_to)
                    (rw m (rw none_there (omega arith, tt, tt, (v, h.0, none_there))))
              | inr (a, there) ↦
                  rw (e, gossip_to)
                    (rw m (
                      rw there (
                        send_first-IsRound P v a b.cbc (length vs) _ h.0 there (omega (arith, fit))
                          (gossip_to-IsRound P vs b.queue h.1 w'))))
            ]
            | inr m ↦ rw (e, gossip_to) (rw m (omega arith, tt, tt, w'))
          ]

unfoldable pub gossip :
    Double
    → ℕ
    → Bool
    → (String → Option ℕ)
    → (ℕ → ℕ)
    → Config
    → ℕ
    → (ℕ → ℕ)
    → List NodeState
    → BroadcastQueue
    → Gossiped
gossip d num_nodes unset inet_pton htons c now rand nodes q =
    gossip_to d num_nodes unset inet_pton htons c.udp_buffer_size
      (k_random_nodes c.gossip_nodes nodes (not_gossiped_to c now) rand) q

-- One of the nodes, that `gossip` does not exclude.
abbrev pub IsPeer : Config → ℕ → List NodeState → NodeState → Type 0
IsPeer c now nodes v = Mem v nodes × (not_gossiped_to c now v ≡ false)

All-IsPeer :
    (c : Config) (now : ℕ) (nodes vs : List NodeState)
    → All (λ v. Mem v nodes) vs
    → All (λ v. not_gossiped_to c now v ≡ false) vs
    → All (IsPeer c now nodes) vs
All-IsPeer c now nodes [] h k = tt
All-IsPeer c now nodes (v ∷ vs) h k = ((h.0, k.0), All-IsPeer c now nodes vs h.1 k.1)

-- A round of gossip ends, or it ends the process at a node whose address `inet_pton` refuses. Either
-- way it has sent at most `GossipNodes` messages, each to the address of one of the nodes that is not
-- the local one, has not left, and is not dead for longer than `GossipToTheDeadTime`; and the
-- broadcasts of each message fit, with the overhead, into `UDPBufferSize`. When the process goes on,
-- the queue is again as it was required, its elements in the map with their lengths. `UDPBufferSize`
-- has room for the overhead and is a `size_t`.
pub gossip-ends :
    (d : Double) (num_nodes : ℕ) (unset : Bool) (inet_pton : String → Option ℕ) (htons : ℕ → ℕ)
    (c : Config) (now : ℕ) (nodes : List NodeState) (byte_size : Broadcast → ℕ) (rand : ℕ → ℕ)
    (q : BroadcastQueue)
    → message_data_overhead ≤ c.udp_buffer_size
    → c.udp_buffer_size < u64_mod
    → IsIndexed byte_size q
    → IsRound inet_pton htons c.udp_buffer_size byte_size
        (IsPeer c now nodes)
        c.gossip_nodes
        (gossip d num_nodes unset inet_pton htons c now rand nodes q)
unfolding gossip
gossip-ends d num_nodes unset inet_pton htons c now nodes byte_size rand q room small w =
    let vs = k_random_nodes c.gossip_nodes nodes (not_gossiped_to c now) rand in
    let sample = k_random_nodes-IsSample c.gossip_nodes nodes (not_gossiped_to c now) rand in
    IsRound-more inet_pton htons c.udp_buffer_size byte_size (IsPeer c now nodes) (length vs)
      c.gossip_nodes _ sample.bounded
      (gossip_to-IsRound inet_pton htons c.udp_buffer_size byte_size d num_nodes unset room small
        (IsPeer c now nodes) vs q (All-IsPeer c now nodes vs sample.known sample.admitted) w)
