-- ===== src/Gossip.antt =====
-- `gossip` of src/memberlist/state.cpp, for the nodes that `kRandomNodes` picked. `inet_pton` and
-- `htons` are the system's.
pub mod Round
use cpp_gossip.Base.{ℕ, ◌+◌, ◌≤◌, String, Bool, true, false, Option, none, some, List, [], ◌∷◌}
use cpp_gossip.Double.{Double}
use cpp_gossip.Node.{NodeState}
use cpp_gossip.Message.{Broadcast, MessageData, compound_broad, gen_com_msg}
use cpp_gossip.Handoff.{SockAddr}
use cpp_gossip.Acks.{full_addr}
use cpp_gossip.Queue.{BroadcastQueue, get_broadcasts}
use cpp_gossip.Queue.Budget.{total}

-- `MessageDataOverhead`
abbrev pub message_data_overhead : ℕ
message_data_overhead = 4

abbrev pub Sends : Type 0
Sends = List (SockAddr × MessageData)

-- How a round ends: with the queue that it leaves; by the `exit` of `FullAddr`; or, in the model only,
-- at the end of the fuel of `GetBroadcasts`. The sends come with the first two.
pub data Gossiped : Type 0 where
  sent : BroadcastQueue → Sends → Gossiped
  exited : Sends → Gossiped
  exhausted : Gossiped

abbrev pub send_first : SockAddr × MessageData → Gossiped → Gossiped
send_first x (sent q sends) = sent q (x ∷ sends)
send_first x (exited sends) = exited (x ∷ sends)
send_first x exhausted = exhausted

module _ (d : Double) (num_nodes : ℕ) (unset : Bool) (inet_pton : String → Option ℕ) (htons : ℕ → ℕ)
    (bytes_avail : ℕ) where
  -- The loop over the picked nodes: it ends with the first for which there is no message.
  unfoldable pub gossip_to : List NodeState → BroadcastQueue → Gossiped
  gossip_to [] q = sent q []
  gossip_to (v ∷ vs) q =
      elim (get_broadcasts d num_nodes unset message_data_overhead bytes_avail [] q) [
        | none ↦ exhausted
        | some b ↦ elim b.have_msg [
          | false ↦ sent b.queue []
          | true ↦ elim (full_addr inet_pton htons v.n) [
            | none ↦ exited []
            | some a ↦ send_first (a, gen_com_msg b.cbc) (gossip_to vs b.queue)
          ]
        ]
      ]

-- The broadcasts of a message fit, with the overhead.
abbrev pub Fits : ℕ → (Broadcast → ℕ) → SockAddr × MessageData → Type 0
Fits bytes_avail byte_size (a, compound_broad cbc) =
    total byte_size cbc + message_data_overhead ≤ bytes_avail
Fits bytes_avail byte_size (a, _) = ⊥
