-- ===== src/Handoff/Laws.antt =====
-- The order and the bounds of the hand-over.
use cpp_gossip.Base.{ℕ, ◌≤◌, ◌≡◌, List, [], ◌∷◌, arith, length, true, false, All}
use cpp_gossip.Message.{Broadcast}
use cpp_gossip.Handoff.{
  Handoff, MsgHandoff, SockAddr, is_alive_msg, hand_over, handle_com_broadcast,
}

-- Each queue within its depth, alive messages in one, all others in the other.
pub record IsSorted (depth : ℕ) (h : Handoff) : Type 0 where
  pub high_bound : length h.high ≤ depth
  pub low_bound : length h.low ≤ depth
  pub high_alive : All (λ (x : MsgHandoff). is_alive_msg x.b ≡ true) h.high
  pub low_other : All (λ (x : MsgHandoff). is_alive_msg x.b ≡ false) h.low

hand_over-IsSorted :
    (depth : ℕ) (from : SockAddr) (bc : Broadcast) (h : Handoff)
    → IsSorted depth h
    → IsSorted depth (hand_over depth from bc h)
unfolding hand_over
hand_over-IsSorted depth from bc h s = ground arith

-- A compound message of any length leaves each queue within its depth, the alive messages in one and
-- the others in the other, if they were so before.
pub handle_com_broadcast-IsSorted :
    (depth : ℕ) (from : SockAddr) (bcs : List Broadcast) (h : Handoff)
    → IsSorted depth h
    → IsSorted depth (handle_com_broadcast depth from bcs h)
unfolding handle_com_broadcast
handle_com_broadcast-IsSorted depth from [] h s = s
handle_com_broadcast-IsSorted depth from (bc ∷ bcs) h s =
    handle_com_broadcast-IsSorted depth from bcs _ (hand_over-IsSorted depth from bc h s)
