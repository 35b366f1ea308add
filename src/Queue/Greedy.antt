-- ===== src/Queue/Greedy.antt =====
-- What a whole call of `GetBroadcasts` sends, and that the rest does not fit.
use cpp_gossip.Base.{
  ℕ, ◌+◌, ◌-◌, ◌≤◌, ◌<◌, ◌≡◌, refl, subst, ◌∙◌, Bool, true, false, Option, none, some, List, [],
  ◌∷◌, ◌++◌, String, arith, All, All-imp, u64_mod,
}
use cpp_gossip.Message.{Broadcast}
use cpp_gossip.Queue.Order.{LimitedBroadcast, before}
use cpp_gossip.Queue.Select.{In, In-All}
use cpp_gossip.Queue.Indexed.{IsSized}
use cpp_gossip.Queue.Budget.{total, sweep_ends}
use cpp_gossip.Queue.Loop.{AfterTiers, tiers-kept}
use cpp_gossip.Queue.WellFormed.{IsWellFormed, Ordered, Held}
use cpp_gossip.Queue.Sending.{taken, IsSending}
use cpp_gossip.Queue.Delivery.{send-IsSending}
use cpp_gossip.Queue.Refinement.{
  IsDelivery, finish_sweep-IsDelivery, sweep_empty, sweep_begun, to_IsIndexed, begin,
  begin-IsSending, nothing_sent,
}
use cpp_gossip.Queue.Load.{last_item-le}
use cpp_gossip.Queue.Filled.{Exceeds, IsFilling, IsFull, TiersFill, tiers-fill}
use cpp_gossip.Queue.{BroadcastQueue, Sweep, Batch, sweep, finish_sweep, last_item}

last_item-top :
    (x : LimitedBroadcast) (xs : List LimitedBroadcast)
    → Ordered (x ∷ xs)
    → All (λ y. y.transmits ≤ (last_item x xs).transmits) (x ∷ xs)
unfolding last_item
last_item-top x [] o = (omega arith, tt)
last_item-top x (y ∷ ys) o = (last_item-le x (y ∷ ys) o, last_item-top y ys o.1)

In-Held :
    (x : LimitedBroadcast) (k : String) (o : Option LimitedBroadcast) (tq : List LimitedBroadcast)
    → o ≡ some x
    → Held k o tq
    → In x tq
In-Held x k none tq e h = cc
In-Held x k (some y) tq e h = let same_item : y ≡ x = cc in subst (λ z. In z tq) same_item h.1

module _ (byte_size : Broadcast → ℕ) (transmit_limit overhead limit : ℕ) (unset : Bool) where
  -- An element that was not sent is longer than what is left of the limit.
  abbrev pub IsGreedy :
      BroadcastQueue → List Broadcast → List LimitedBroadcast → List Broadcast → Type 0
  IsGreedy q cbc sent cbc' =
      All
        (λ x.
          taken sent x.b.node ≡ none
          → Exceeds limit (overhead + (total byte_size cbc' - total byte_size cbc)) x)
        q.tq

  abbrev pub AfterGreedy : BroadcastQueue → List Broadcast → Option Batch → Type 0
  AfterGreedy q cbc none = Unit {0}
  AfterGreedy q cbc (some b) =
      (sent : List LimitedBroadcast) × IsDelivery transmit_limit q cbc sent b
      × IsGreedy q cbc sent b.cbc

  unsent_exceeds :
      (small : limit < u64_mod) (q : BroadcastQueue) (cbc : List Broadcast)
      (sent : List LimitedBroadcast) (s : Sweep)
      → IsWellFormed q
      → IsSending transmit_limit q cbc sent s
      → IsFull byte_size overhead limit (total byte_size cbc) transmit_limit small s
      → IsGreedy q cbc sent s.cbc
  unsent_exceeds small q cbc sent s w sending full =
      All-imp (λ x. q.tm x.b.node ≡ some x) _ q.tq
        (λ x known unsent long.
          let there : s.queue.tm x.b.node ≡ some x =
            sending.view x.b.node ∙ ground (arith, unsent, known) in
          let i =
            In-Held x x.b.node (s.queue.tm x.b.node) s.queue.tq there
              (sending.whole.held x.b.node) in
          let beyond = In-All _ x s.queue.tq i full.rest long in
          omega (arith, beyond, full.counted))
        w.mapped

  greedy_end :
      (small : limit < u64_mod) (q : BroadcastQueue) (cbc : List Broadcast) (o : Option Sweep)
      → IsWellFormed q
      → AfterTiers (λ s. (sent : List LimitedBroadcast) × IsSending transmit_limit q cbc sent s) o
      → TiersFill byte_size overhead limit (total byte_size cbc) transmit_limit small o
      → AfterGreedy q cbc (elim o [ none ↦ none | some s ↦ some (finish_sweep s) ])
  greedy_end small q cbc none w p full = tt
  greedy_end small q cbc (some s) w (sent, p) full = (
    sent,
    finish_sweep-IsDelivery transmit_limit q cbc sent s p,
    unsent_exceeds small q cbc sent s w p full,
  )

  begin-IsFilling :
      (small : limit < u64_mod) (q : BroadcastQueue) (cbc : List Broadcast) (x : LimitedBroadcast)
      (xs : List LimitedBroadcast)
      → q.tq ≡ x ∷ xs
      → overhead ≤ limit
      → All (IsSized byte_size) q.tq
      → IsWellFormed q
      → IsFilling byte_size overhead limit
          (total byte_size cbc)
          transmit_limit
          small
          x.transmits
          (last_item x xs).transmits
          (begin transmit_limit unset q cbc)
  begin-IsFilling small q cbc x xs e fits sized w =
      let ordered = subst Ordered e w.ordered in
      record {
        counted = omega arith;
        within = omega (arith, fits);
        whole = w;
        sized = sized;
        below = rw e (last_item-top x xs ordered);
        skipped = rw e (
          (λ t l. absurd (omega (arith, t))),
          All-imp (λ y. before x y ≡ true) _ xs (λ y after t l. absurd (ground (arith, after, t)))
              ordered.0,
        );
      }

  sweep-AfterGreedy :
      (small : limit < u64_mod) (cbc : List Broadcast) (q : BroadcastQueue)
      (xs : List LimitedBroadcast)
      → q.tq ≡ xs
      → overhead ≤ limit
      → All (IsSized byte_size) q.tq
      → IsWellFormed q
      → AfterGreedy q cbc (sweep transmit_limit unset overhead limit cbc q)
  sweep-AfterGreedy small cbc q [] e fits sized w =
      rw (sweep_empty transmit_limit overhead limit unset cbc q e)
        ([], nothing_sent transmit_limit q cbc false w, rw e tt)
  sweep-AfterGreedy small cbc q (x ∷ xs) e fits sized w =
      rw (sweep_begun transmit_limit overhead limit unset cbc q x xs e) (
        greedy_end small q cbc _ w
          (tiers-kept overhead limit transmit_limit
            (λ s. (sent : List LimitedBroadcast) × IsSending transmit_limit q cbc sent s)
            (λ y s i (sent, p). (sent ++ y ∷ [], send-IsSending transmit_limit q cbc y s sent i p))
            _ _ _ _ ([], begin-IsSending transmit_limit unset q cbc w))
          (tiers-fill byte_size overhead limit (total byte_size cbc) transmit_limit small _ _ _ _ _
            (omega (arith, last_item-le x xs (subst Ordered e w.ordered)))
            (begin-IsFilling small q cbc x xs e fits sized w)))

  picked :
      (cbc : List Broadcast) (q : BroadcastQueue) (o : Option Batch) (b : Batch)
      → o ≡ some b
      → AfterGreedy q cbc o
      → AfterGreedy q cbc (some b)
  picked cbc q none b e p = cc
  picked cbc q (some c) b e p = let same_batch : c ≡ b = cc in rw (← same_batch) p

  -- For an overhead within the limit, a limit that is a `size_t`, and a well-formed queue whose
  -- elements have the lengths of their messages, `GetBroadcasts` ends. It appends the messages of
  -- `sent` in that order, each of which was queued, and no name and no number twice; the map is
  -- afterwards the abstract `deliver` of it, which drops or counts up each element of `sent`; the queue
  -- is well formed again; and each queued message that has a length and is not among those sent is
  -- longer than what the overhead and the messages sent leave of the limit.
  pub sweep-IsGreedy :
      (cbc : List Broadcast) (q : BroadcastQueue)
      → overhead ≤ limit
      → limit < u64_mod
      → All (IsSized byte_size) q.tq
      → IsWellFormed q
      → (b : Batch) × (sent : List LimitedBroadcast) × (sweep transmit_limit unset overhead limit
            cbc q
          ≡ some b)
        × IsDelivery transmit_limit q cbc sent b
        × IsGreedy q cbc sent b.cbc
  sweep-IsGreedy cbc q fits small sized w =
      let (b, e, _, _) =
        sweep_ends byte_size transmit_limit overhead limit unset cbc q fits small
          (to_IsIndexed byte_size q sized w) in
      let (sent, p, g) =
        picked cbc q _ b e (sweep-AfterGreedy small cbc q q.tq refl fits sized w) in
      (b, sent, e, p, g)
