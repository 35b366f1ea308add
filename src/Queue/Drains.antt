-- ===== src/Queue/Drains.antt =====
-- Without new messages the queue runs empty.
use cpp_gossip.Base.{
  ℕ, zero, suc, ◌+◌, ◌-◌, ◌≤◌, ◌<◌, ◌≡◌, inl, refl, sym, ap, subst, ◌∙◌, Bool, false, Option, none,
  some, List, [], ◌∷◌, arith, All, ◌==◌, u32_mod, u64_mod,
}
use cpp_gossip.Message.{Broadcast}
use cpp_gossip.Queue.Order.{LimitedBroadcast}
use cpp_gossip.Queue.Select.{In, In-All}
use cpp_gossip.Queue.Indexed.{IsSized}
use cpp_gossip.Queue.Loop.{AfterTiers, drain-kept, next_tier, tiers-kept}
use cpp_gossip.Queue.WellFormed.{IsWellFormed, Ordered}
use cpp_gossip.Queue.Refinement.{
  pick_sent, sweep-AfterSweep, to_IsIndexed, sweep_empty, sweep_begun,
}
use cpp_gossip.Queue.Budget.{sweep_ends}
use cpp_gossip.Queue.Load.{
  IsEasy, IsBelow, load, send-IsBelow, select-head, last_item-le, load-add_all, All-add_all,
}
use cpp_gossip.Queue.{
  BroadcastQueue, Sweep, Batch, free_bytes, select, send, drain, tiers, sweep, finish_sweep,
}

-- `GetBroadcasts`, `n` times, and what is left.
unfoldable pub sweeps : ℕ → ℕ → Bool → ℕ → ℕ → BroadcastQueue → Option BroadcastQueue
sweeps zero transmit_limit unset overhead limit q = some q
sweeps (suc n) transmit_limit unset overhead limit q =
    elim (sweep transmit_limit unset overhead limit [] q) [
      | none ↦ none
      | some b ↦ sweeps n transmit_limit unset overhead limit b.queue
    ]

module _ (transmit_limit overhead limit : ℕ) (few : transmit_limit < u32_mod)
    (room : overhead < limit) (small : limit < u64_mod) where
  Below : ℕ → Sweep → Type 0
  Below top s = IsBelow transmit_limit overhead limit few top s

  weaken : (top : ℕ) (s : Sweep) → Below (top - 1) s → Below top s
  unfolding Below
  weaken top s w = record {
    below = omega (arith, w.below);
    easy = w.easy;
    again = w.again;
    whole = w.whole;
  }

  -- The first round of the inner loop sends the first element.
  drain_first :
      (fuel : ℕ) (x : LimitedBroadcast) (xs : List LimitedBroadcast) (s : Sweep)
      → s.queue.tq ≡ x ∷ xs
      → s.bytes_used ≡ 0
      → IsEasy transmit_limit overhead limit x
      → drain (suc fuel) overhead limit transmit_limit x.transmits s
        ≡ drain fuel overhead limit transmit_limit x.transmits (send transmit_limit x s)
  unfolding drain
  drain_first fuel x xs s e start easy =
      let free = free_bytes overhead limit s.bytes_used in
      let value : free ≡ limit - overhead = omega (arith, start) in
      let there : (free == 0) ≡ false = ground (arith, value) in
      let selected : select x.transmits free s.queue.tq ≡ some x =
        ap (select x.transmits free) e
        ∙ select-head x.transmits free x xs refl (omega (arith, value)) easy.2 in
      rw (there, selected, drain)

  -- The loops over a queue that is not empty send something.
  tiers_first :
      (rounds fuel top : ℕ) (x : LimitedBroadcast) (xs : List LimitedBroadcast) (s : Sweep)
      → s.queue.tq ≡ x ∷ xs
      → s.bytes_used ≡ 0
      → 0 < rounds
      → 0 < fuel
      → Below top s
      → AfterTiers (Below (top - 1)) (tiers rounds fuel overhead limit transmit_limit x.transmits s)
        × (0 < top)
  unfolding Below
  tiers_first zero fuel top x xs s e start more fueled w = elim more [ ]
  tiers_first (suc rounds) zero top x xs s e start more fueled w = elim fueled [ ]
  tiers_first (suc rounds) (suc fuel) top x xs s e start more fueled w =
      let here : In x s.queue.tq = subst (In x) (sym e) (inl refl) in
      let easy = In-All (IsEasy transmit_limit overhead limit) x s.queue.tq here w.easy in
      let (sent, pos) = send-IsBelow transmit_limit overhead limit few top x s here w in
      let keeps =
        λ (y : LimitedBroadcast) (t : Sweep) (i : In y t.queue.tq) (p : Below (top - 1) t).
          weaken (top - 1) _ (send-IsBelow transmit_limit overhead limit few (top - 1) y t i p).0 in
      (
        next_tier overhead limit transmit_limit (Below (top - 1)) keeps rounds (suc fuel)
            x.transmits s _ (drain_first fuel x xs s e start easy)
            (drain-kept overhead limit transmit_limit (Below (top - 1)) keeps fuel x.transmits _
              sent)
            (tiers-kept overhead limit transmit_limit (Below (top - 1)) keeps rounds (suc fuel)
              (x.transmits + 1)),
        pos,
      )

  AfterBatch : ℕ → Option Batch → Type 0
  AfterBatch top none = Unit
  AfterBatch top (some b) =
      (load transmit_limit b.queue.tq ≤ top) × All (IsEasy transmit_limit overhead limit) b.queue.tq

  finished_batch :
      (top : ℕ) (o : Option Sweep)
      → AfterTiers (Below top) o
      → AfterBatch top (elim o [ none ↦ none | some s ↦ some (finish_sweep s) ])
  unfolding AfterBatch Below
  finished_batch top none p = tt
  finished_batch top (some s) p = (
    omega (arith, load-add_all transmit_limit s.reinsert s.queue, p.below),
    All-add_all transmit_limit overhead limit few (IsEasy transmit_limit overhead limit) s.reinsert
        s.queue p.again p.easy,
  )

  sweep-AfterBatch :
      (unset : Bool) (q : BroadcastQueue) (x : LimitedBroadcast) (xs : List LimitedBroadcast)
      → q.tq ≡ x ∷ xs
      → IsWellFormed q
      → All (IsEasy transmit_limit overhead limit) q.tq
      → AfterBatch (load transmit_limit q.tq - 1) (sweep transmit_limit unset overhead limit [] q)
  unfolding Below
  sweep-AfterBatch unset q x xs e w easy =
      let s : Sweep = record {
        queue = q;
        cbc = [];
        bytes_used = 0;
        reinsert = [];
        have_msg = unset;
      } in
      let tiers_left = last_item-le x xs (subst Ordered e w.ordered) in
      rw (sweep_begun transmit_limit overhead limit unset [] q x xs e) (
        finished_batch _ _
          (tiers_first _ _ (load transmit_limit q.tq) x xs s e refl (omega arith) (omega arith)
            (record { below = omega arith; easy = easy; again = tt; whole = w })).0)

  at_batch :
      (top : ℕ) (o : Option Batch) (b : Batch)
      → o ≡ some b
      → AfterBatch top o
      → (load transmit_limit b.queue.tq ≤ top)
        × All (IsEasy transmit_limit overhead limit) b.queue.tq
  unfolding AfterBatch
  at_batch top none b e p = cc
  at_batch top (some c) b e p = let same_batch : c ≡ b = cc in rw (← same_batch) p

  load-zero : (xs : List LimitedBroadcast) → load transmit_limit xs ≤ 0 → xs ≡ []
  load-zero [] h = refl
  load-zero (x ∷ xs) h = absurd (omega arith)

  module _ (byte_size : Broadcast → ℕ) (unset : Bool) where
    -- A queue that is in order, and whose messages have their lengths and fit.
    pub record IsDraining (q : BroadcastQueue) : Type 0 where
      pub whole : IsWellFormed q
      pub sized : All (IsSized byte_size) q.tq
      pub easy : All (IsEasy transmit_limit overhead limit) q.tq

    one_call :
        (n : ℕ) (q : BroadcastQueue) (xs : List LimitedBroadcast)
        → q.tq ≡ xs
        → IsDraining q
        → load transmit_limit q.tq ≤ suc n
        → (b : Batch) × (sweep transmit_limit unset overhead limit [] q ≡ some b)
          × IsDraining b.queue
          × (load transmit_limit b.queue.tq ≤ n)
    one_call n q [] e w h = (
      record { queue = q; cbc = []; have_msg = false },
      sweep_empty transmit_limit overhead limit unset [] q e,
      w,
      omega (arith, ap (load transmit_limit) e),
    )
    one_call n q (x ∷ xs) e w h =
        let (b, run, _, index) =
          sweep_ends byte_size transmit_limit overhead limit unset [] q (omega arith) small
            (to_IsIndexed byte_size q w.sized w.whole) in
        let (sent, d) =
          pick_sent byte_size transmit_limit overhead limit unset [] q _ b run
            (sweep-AfterSweep transmit_limit overhead limit unset [] q w.whole) in
        let (less, easy) = at_batch _ _ b run (sweep-AfterBatch unset q x xs e w.whole w.easy) in
        (b, run, record { whole = d.whole; sized = index.sized; easy = easy }, omega arith)

    -- For a limit of transmissions below 2 ^ 32, and a limit of bytes above the overhead and below
    -- 2 ^ 64: a well-formed queue, each of whose messages has its length, fits by itself, and has been
    -- sent fewer than 2 ^ 32 - 1 times, and to which nothing is added, is empty after as many calls of
    -- `GetBroadcasts` as the sum over its elements of one and the transmissions that each has left.
    pub sweeps_drain :
        (n : ℕ) (q : BroadcastQueue)
        → IsDraining q
        → load transmit_limit q.tq ≤ n
        → (q' : BroadcastQueue) × (sweeps n transmit_limit unset overhead limit q ≡ some q')
          × (q'.tq ≡ [])
    unfolding sweeps
    sweeps_drain zero q w h = (q, refl, load-zero q.tq h)
    sweeps_drain (suc n) q w h =
        let (b, run, w', less) = one_call n q q.tq refl w h in
        let (q', rest, empty) = sweeps_drain n b.queue w' less in (q', rw (run, sweeps) rest, empty)
