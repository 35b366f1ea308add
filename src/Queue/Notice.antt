-- ===== src/Queue/Notice.antt =====
-- When the sender of a message is told.
use cpp_gossip.Base.{ℕ, ◌+◌, ◌%◌, ◌<◌, ◌≡◌, ap, some, [], ◌∷◌, ◌++◌, arith, keep, u32_mod}
use cpp_gossip.Queue.Order.{LimitedBroadcast}
use cpp_gossip.Queue.{Sweep, delete_item, finish_all, invalidates, send}

-- A message that asks for a notice, is the only one of its name, and has transmissions left: taking it
-- for one of them already writes the notice, and the message is kept for the next ones.
pub send_notifies_early :
    (transmit_limit fd : ℕ) (x y : LimitedBroadcast) (s : Sweep)
    → s.queue.tm x.b.node ≡ some y
    → keep (invalidates x.b) s.queue.tq ≡ x ∷ []
    → x.b.notify_fd ≡ some fd
    → (x.transmits + 1) % u32_mod < transmit_limit
    → (let s' = send transmit_limit x s in
        (s'.queue.notified ≡ s.queue.notified ++ fd ∷ [])
        × (s'.reinsert ≡ s.reinsert ++ record x { transmits = (x.transmits + 1) % u32_mod } ∷ []))
unfolding send delete_item finish_all
send_notifies_early transmit_limit fd x y s e only asks left =
    ground (arith, ap (λ l. finish_all l s.queue.notified) only)
