-- ===== src/Queue/Load.antt =====
-- How many transmissions a queue still asks for, at most, and that `GetBroadcasts` makes some.
use cpp_gossip.Base.{
  ℕ, suc, ◌+◌, ◌-◌, ◌≤◌, ◌<◌, ◌≡◌, ◌≢◌, inl, inr, ap, ◌∙◌, Bool, not, none, some, List, [], ◌∷◌,
  ◌++◌, arith, All, All-append, keep, Option-cases, u32_mod, u64_mod,
}
use cpp_gossip.Queue.Order.{LimitedBroadcast, set_insert, lower_bound, upper_bound}
use cpp_gossip.Queue.Select.{In, In-All, length-upper_bound-le}
use cpp_gossip.Queue.Kept.{delete_item-IsRemoved, delete_item-IsWellFormed}
use cpp_gossip.Queue.Indexed.{All-set_insert}
use cpp_gossip.Queue.Sending.{requeue, or_else}
use cpp_gossip.Queue.WellFormed.{IsWellFormed, Ordered}
use cpp_gossip.Queue.Delivery.{same-IsWellFormed, send-queue, send-lists}
use cpp_gossip.Queue.{
  BroadcastQueue, Sweep, bound, select, invalidates, delete_item, add_item, add_all, send,
  last_item,
}

module _ (transmit_limit : ℕ) where
  abbrev pub weight : LimitedBroadcast → ℕ
  weight x = suc (transmit_limit - x.transmits)

  abbrev pub load : List LimitedBroadcast → ℕ
  load [] = 0
  load (x ∷ xs) = weight x + load xs

  pub load-append : (xs ys : List LimitedBroadcast) → load (xs ++ ys) ≡ load xs + load ys
  load-append [] ys = omega arith
  load-append (x ∷ xs) ys = omega (arith, load-append xs ys)

  load-keep :
      (p : LimitedBroadcast → Bool) (xs : List LimitedBroadcast) → load (keep p xs) ≤ load xs
  load-keep p [] = omega arith
  load-keep p (x ∷ xs) = ground (arith, load-keep p xs)

  load-keep-In :
      (x : LimitedBroadcast) (xs : List LimitedBroadcast)
      → In x xs
      → load (keep (λ y. not (invalidates x.b y)) xs) + weight x ≤ load xs
  load-keep-In x [] i = absurd i
  load-keep-In x (y ∷ ys) (inl e) = ground (
    arith,
    load-keep (λ z. not (invalidates x.b z)) ys,
    ap (λ (z : LimitedBroadcast). z.b.node) e,
    ap (λ (z : LimitedBroadcast). z.transmits) e,
  )
  load-keep-In x (y ∷ ys) (inr i) = ground (arith, load-keep-In x ys i)

  load-set_insert :
      (x : LimitedBroadcast) (xs : List LimitedBroadcast)
      → load (set_insert x xs) ≤ weight x + load xs
  unfolding set_insert
  load-set_insert x [] = omega arith
  load-set_insert x (y ∷ ys) = ground (arith, load-set_insert x ys)

  pub load-add_all :
      (xs : List LimitedBroadcast) (q : BroadcastQueue)
      → load (add_all xs q).tq ≤ load xs + load q.tq
  unfolding add_all add_item
  load-add_all [] q = omega arith
  load-add_all (x ∷ xs) q = omega (arith, load-add_all xs (add_item x q), load-set_insert x q.tq)

  -- Fits by itself, and is far from the greatest count.
  abbrev pub IsEasy : ℕ → ℕ → LimitedBroadcast → Type 0
  IsEasy overhead limit x =
      (x.msg_len + overhead ≤ limit) × (x.transmits + 1 < u32_mod) × (x.id < u32_mod)

  module _ (overhead limit : ℕ) (few : transmit_limit < u32_mod) where
    -- At most `top` transmissions are left, and all elements are easy.
    pub record IsBelow (top : ℕ) (s : Sweep) : Type 0 where
      pub below : load s.queue.tq + load s.reinsert ≤ top
      pub easy : All (IsEasy overhead limit) s.queue.tq
      pub again : All (IsEasy overhead limit) s.reinsert
      pub whole : IsWellFormed s.queue

    load-delete_item :
        (x : LimitedBroadcast) (q : BroadcastQueue)
        → In x q.tq
        → q.tm x.b.node ≢ none
        → load (delete_item x q).tq + weight x ≤ load q.tq
    unfolding delete_item
    load-delete_item x q i n = elim (Option-cases (q.tm x.b.node)) [
      | inl e ↦ absurd (n e)
      | inr (y, e) ↦ rw (e, delete_item) (load-keep-In x q.tq i)
    ]

    load-requeue :
        (x : LimitedBroadcast)
        → x.transmits + 1 < u32_mod
        → load (or_else (requeue transmit_limit x) []) < weight x
    load-requeue x h = ground arith

    requeue-IsEasy :
        (x : LimitedBroadcast)
        → IsEasy overhead limit x
        → All (IsEasy overhead limit) (or_else (requeue transmit_limit x) [])
    requeue-IsEasy x h = ground arith

    pub send-IsBelow :
        (top : ℕ) (x : LimitedBroadcast) (s : Sweep)
        → In x s.queue.tq
        → IsBelow top s
        → IsBelow (top - 1) (send transmit_limit x s) × (0 < top)
    send-IsBelow top x s i w =
        let e = send-queue transmit_limit x s in
        let l = (send-lists transmit_limit x s).1 in
        let r = delete_item-IsRemoved x s.queue w.whole in
        let here = In-All (λ y. s.queue.tm y.b.node ≡ some y) x s.queue.tq i w.whole.mapped in
        let easy = In-All (IsEasy overhead limit) x s.queue.tq i w.easy in
        let less = load-delete_item x s.queue i (λ n. cc) in
        let lighter = load-requeue x easy.1 in
        let queue_load = ap load e.0 in
        let list_load =
          ap load l ∙ load-append s.reinsert (or_else (requeue transmit_limit x) []) in
        (
          record {
            below = omega (arith, less, lighter, queue_load, list_load, w.below);
            easy = rw e.0 (r.kept (IsEasy overhead limit) w.easy);
            again =
                rw l
                  (All-append (IsEasy overhead limit) s.reinsert _ w.again (requeue-IsEasy x easy));
            whole =
                same-IsWellFormed (delete_item x s.queue) (send transmit_limit x s).queue e.0 e.1
                  e.2 (delete_item-IsWellFormed x s.queue w.whole);
          },
          omega (arith, less, w.below),
        )

    pub All-add_all :
        (P : LimitedBroadcast → Type 0) (xs : List LimitedBroadcast) (q : BroadcastQueue)
        → All P xs
        → All P q.tq
        → All P (add_all xs q).tq
    unfolding add_all add_item
    All-add_all P [] q h k = k
    All-add_all P (x ∷ xs) q h k =
        All-add_all P xs (add_item x q) h.1 (All-set_insert P x q.tq h.0 k)

-- The first element of the queue is selected in its own tier, if it fits.
pub select-head :
    (tier free : ℕ) (x : LimitedBroadcast) (xs : List LimitedBroadcast)
    → x.transmits ≡ tier
    → x.msg_len ≤ free
    → x.id < u32_mod
    → select tier free (x ∷ xs) ≡ some x
unfolding select lower_bound upper_bound
select-head tier free x xs e fit id =
    ground (arith, length-upper_bound-le (bound (tier + 1) (u64_mod - 1)) xs)

pub last_item-le :
    (x : LimitedBroadcast) (xs : List LimitedBroadcast)
    → Ordered (x ∷ xs)
    → x.transmits ≤ (last_item x xs).transmits
unfolding last_item
last_item-le x [] h = omega arith
last_item-le x (y ∷ ys) h = ground (arith, last_item-le y ys h.1, h.0.0)
