-- ===== src/Queue/Reach.antt =====
-- Every queue that the operations lead to.
use cpp_gossip.Base.{
  ℕ, suc, ◌-◌, ◌≤◌, ◌<◌, ◌≡◌, refl, ◌∙◌, Bool, Option, none, some, List, [], ◌∷◌, arith, All,
  u32_mod, u64_mod, subst,
}
use cpp_gossip.Message.{Broadcast}
use cpp_gossip.Queue.Order.{LimitedBroadcast, MemberlistBroadcast}
use cpp_gossip.Queue.Indexed.{IsSized}
use cpp_gossip.Queue.Budget.{sweep_ends}
use cpp_gossip.Queue.Fresh
use cpp_gossip.Queue.Fresh.{queue_broadcast-IsIndexed}
use cpp_gossip.Queue.Loop.{AfterTiers, tiers-kept}
use cpp_gossip.Queue.WellFormed.{IsWellFormed}
use cpp_gossip.Queue.Kept.{new_queue-IsWellFormed, clear-IsWellFormed, queue_broadcast-IsWellFormed}
use cpp_gossip.Queue.Delivery.{send-queue}
use cpp_gossip.Queue.Refinement.{
  to_IsIndexed, pick_sent, sweep-AfterSweep, sweep_empty, sweep_begun,
}
use cpp_gossip.Queue.{
  BroadcastQueue, Sweep, Batch, new_queue, clear, prune, add_item, sweep, finish_sweep, next_id,
  queue_broadcast, queue_broadcast_at, size,
}
use cpp_gossip.Queue.Pruning.{
  prune_loop-IsWellFormed, prune_loop-rest, delete_item-id_gen, add_all-id_gen,
}

AfterId : ℕ → Option Batch → Type 0
AfterId g none = Unit
AfterId g (some b) = b.queue.id_gen ≡ g

finished_id :
    (g : ℕ) (o : Option Sweep)
    → AfterTiers (λ s. s.queue.id_gen ≡ g) o
    → AfterId g (elim o [ none ↦ none | some s ↦ some (finish_sweep s) ])
unfolding AfterId
finished_id g none p = tt
finished_id g (some s) p = add_all-id_gen s.reinsert s.queue ∙ p

module _ (transmit_limit overhead limit : ℕ) (unset : Bool) (cbc : List Broadcast)
    (q : BroadcastQueue) where
  sweep-AfterId :
      (xs : List LimitedBroadcast)
      → q.tq ≡ xs
      → AfterId q.id_gen (sweep transmit_limit unset overhead limit cbc q)
  unfolding AfterId
  sweep-AfterId [] e = rw (sweep_empty transmit_limit overhead limit unset cbc q e) refl
  sweep-AfterId (x ∷ xs) e = rw (sweep_begun transmit_limit overhead limit unset cbc q x xs e) (
      finished_id q.id_gen _ (
        tiers-kept overhead limit transmit_limit (λ s. s.queue.id_gen ≡ q.id_gen)
          (λ y s i p. (send-queue transmit_limit y s).2 ∙ delete_item-id_gen y s.queue ∙ p) _ _ _ _
          refl))

  at_id :
      (o : Option Batch) (b : Batch) → o ≡ some b → AfterId q.id_gen o → b.queue.id_gen ≡ q.id_gen
  unfolding AfterId
  at_id none b e p = cc
  at_id (some c) b e p = cc

  pub sweep-id_gen :
      (b : Batch)
      → sweep transmit_limit unset overhead limit cbc q ≡ some b
      → b.queue.id_gen ≡ q.id_gen
  sweep-id_gen b e = at_id _ b e (sweep-AfterId q.tq refl)

module _ (byte_size : Broadcast → ℕ) where
  -- The queues that `n` calls of `QueueBroadcast` lead to, with calls of `GetBroadcasts`, `Prune` and
  -- the clearing between them. The overhead of a `GetBroadcasts` is at most its limit, a `size_t`.
  pub data Reach (mult : ℕ) : ℕ → BroadcastQueue → Type 0 where
    made : Reach mult 0 (new_queue mult)
    queued :
        (b : MemberlistBroadcast) {n : ℕ} {q : BroadcastQueue}
        → byte_size b.msg < u64_mod - 1
        → Reach mult n q
        → Reach mult (suc n) (queue_broadcast byte_size b q)
    swept :
        (transmit_limit overhead limit : ℕ) (unset : Bool) (cbc : List Broadcast) (b : Batch)
        {n : ℕ} {q : BroadcastQueue}
        → overhead ≤ limit
        → limit < u64_mod
        → sweep transmit_limit unset overhead limit cbc q ≡ some b
        → Reach mult n q
        → Reach mult n b.queue
    pruned :
        (max_retain : ℕ) {n : ℕ} {q : BroadcastQueue}
        → Reach mult n q
        → Reach mult n (prune max_retain q)
    cleared : {n : ℕ} {q : BroadcastQueue} → Reach mult n q → Reach mult n (clear q)

  pub record IsSound (n : ℕ) (q : BroadcastQueue) : Type 0 where
    pub whole : IsWellFormed q
    pub sized : All (IsSized byte_size) q.tq
    pub counted : q.id_gen ≤ n

  queued-IsSound :
      (b : MemberlistBroadcast) (n : ℕ) (q : BroadcastQueue)
      → byte_size b.msg < u64_mod - 1
      → suc n < u32_mod
      → IsSound n q
      → IsSound (suc n) (queue_broadcast byte_size b q)
  unfolding queue_broadcast queue_broadcast_at add_item
  queued-IsSound b n q fits room s = record {
    whole = (queue_broadcast-IsWellFormed byte_size b q (omega (arith, s.counted)) s.whole).0;
    sized =
        (queue_broadcast-IsIndexed byte_size b q fits
          (to_IsIndexed byte_size q s.sized s.whole)).sized;
    counted = ground (
      arith,
      s.counted,
      delete_item-id_gen (Fresh.queued byte_size b q) (record q { id_gen = next_id q.id_gen }),
    );
  }

  swept-IsSound :
      (transmit_limit overhead limit : ℕ) (unset : Bool) (cbc : List Broadcast) (b : Batch) (n : ℕ)
      (q : BroadcastQueue)
      → overhead ≤ limit
      → limit < u64_mod
      → sweep transmit_limit unset overhead limit cbc q ≡ some b
      → IsSound n q
      → IsSound n b.queue
  swept-IsSound transmit_limit overhead limit unset cbc b n q fits small e s =
      let index = to_IsIndexed byte_size q s.sized s.whole in
      let (c, run, _, left) =
        sweep_ends byte_size transmit_limit overhead limit unset cbc q fits small index in
      let (sent, d) =
        pick_sent byte_size transmit_limit overhead limit unset cbc q _ b e
          (sweep-AfterSweep transmit_limit overhead limit unset cbc q s.whole) in
      let same_batch : c ≡ b = cc in
      record {
        whole = d.whole;
        sized = subst (λ (t : Batch). All (IsSized byte_size) t.queue.tq) same_batch left.sized;
        counted =
            omega (arith, s.counted, sweep-id_gen transmit_limit overhead limit unset cbc q b e);
      }

  -- A queue into which fewer than 2 ^ 32 messages were put, each with a length below 2 ^ 64 - 1,
  -- and between them any number of times pruned, cleared, or swept by `GetBroadcasts` with an
  -- overhead that is at most the limit, and a limit below 2 ^ 64, is well formed: in strict order,
  -- with no name and no number twice, and with the map that of its elements. They have the lengths
  -- of their messages, and the generator is at most the number of the calls that put them there.
  pub Reach-IsSound :
      (mult : ℕ) {n : ℕ} {q : BroadcastQueue} → n < u32_mod → Reach mult n q → IsSound n q
  unfolding prune clear new_queue
  Reach-IsSound mult room made = record {
    whole = new_queue-IsWellFormed mult;
    sized = tt;
    counted = omega arith;
  }
  Reach-IsSound mult room (queued b {n} {q} fits r) =
      queued-IsSound b n q fits room (Reach-IsSound mult (omega arith) r)
  Reach-IsSound mult room (swept transmit_limit overhead limit unset cbc b {n} {q} fits small e r) =
      swept-IsSound transmit_limit overhead limit unset cbc b n q fits small e
        (Reach-IsSound mult room r)
  Reach-IsSound mult room (pruned max_retain {n} {q} r) =
      let s = Reach-IsSound mult room r in
      let (sized, e) = prune_loop-rest (IsSized byte_size) (size q - max_retain) q s.sized in
      record {
        whole = prune_loop-IsWellFormed (size q - max_retain) q s.whole;
        sized = sized;
        counted = omega (arith, e, s.counted);
      }
  Reach-IsSound mult room (cleared {n} {q} r) = record {
    whole = clear-IsWellFormed q;
    sized = tt;
    counted = omega arith;
  }
