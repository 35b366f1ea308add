-- ===== src/Queue/Kept.antt =====
-- The operations on single elements keep the queue in order.
use cpp_gossip.Base.{
  ℕ, ◌+◌, ◌≤◌, ◌<◌, ◌≡◌, ◌≢◌, inl, inr, refl, ap, not, none, some, List, [], ◌∷◌, String, arith,
  All, All-keep, All-imp, keep, insert, erase, string_discrete, Option-cases, u32_mod,
}
use cpp_gossip.Message.{Broadcast}
use cpp_gossip.Queue.Order.{LimitedBroadcast, MemberlistBroadcast}
use cpp_gossip.Queue.Indexed.{All-set_insert}
use cpp_gossip.Queue.Fresh.{queued}
use cpp_gossip.Queue.{
  BroadcastQueue, new_queue, clear, delete_item, add_item, invalidates, next_id, queue_broadcast,
  queue_broadcast_at,
}
use cpp_gossip.Queue.WellFormed.{
  Apart, IsWellFormed, Ordered-keep, Unique-keep, Ordered-set_insert, Unique-set_insert,
  mapped-keep, mapped-insert, insert_self, Held-erase, Held-insert,
}

pub delete_item-IsWellFormed :
    (lb : LimitedBroadcast) (q : BroadcastQueue) → IsWellFormed q → IsWellFormed (delete_item lb q)
unfolding delete_item
delete_item-IsWellFormed lb q w = elim (Option-cases (q.tm lb.b.node)) [
  | inl e ↦ rw (e, delete_item) w
  | inr (y, e) ↦
      rw (e, delete_item)
        (record {
          ordered = Ordered-keep _ q.tq w.ordered;
          unique = Unique-keep _ q.tq w.unique;
          mapped = mapped-keep lb q q.tq w.mapped;
          held = λ k. Held-erase lb q k (w.held k);
          numbered = All-keep (λ x. x.id ≤ q.id_gen) _ q.tq w.numbered;
          small = w.small;
        })
]

pub add_item-IsWellFormed :
    (lb : LimitedBroadcast) (q : BroadcastQueue)
    → All (Apart lb) q.tq
    → lb.id ≤ q.id_gen
    → IsWellFormed q
    → IsWellFormed (add_item lb q)
unfolding add_item
add_item-IsWellFormed lb q a n w = record {
  ordered = Ordered-set_insert lb q.tq a w.ordered;
  unique = Unique-set_insert lb q.tq a w.unique;
  mapped =
      All-set_insert (λ x. insert string_discrete lb.b.node lb q.tm x.b.node ≡ some x) lb q.tq
        (insert_self lb q) (mapped-insert lb q q.tq a w.mapped);
  held = λ k. Held-insert lb q k a (w.held k);
  numbered = All-set_insert (λ x. x.id ≤ q.id_gen) lb q.tq n w.numbered;
  small = w.small;
}

-- What is left after the removal bears other names, and is no longer known by the removed one.
pub record IsRemoved (lb : LimitedBroadcast) (q q' : BroadcastQueue) : Type 1 where
  pub others : All (λ y. y.b.node ≢ lb.b.node) q'.tq
  pub view : (k : String) → q'.tm k ≡ erase string_discrete lb.b.node q.tm k
  pub gen : q'.id_gen ≡ q.id_gen
  pub kept : (P : LimitedBroadcast → Type 0) → All P q.tq → All P q'.tq

keep-others :
    (lb : LimitedBroadcast) (xs : List LimitedBroadcast)
    → All (λ y. y.b.node ≢ lb.b.node) (keep (λ x. not (invalidates lb.b x)) xs)
keep-others lb [] = tt
keep-others lb (x ∷ xs) = ground (arith, keep-others lb xs)

absent-others :
    (lb : LimitedBroadcast) (q : BroadcastQueue) (xs : List LimitedBroadcast)
    → q.tm lb.b.node ≡ none
    → All (λ x. q.tm x.b.node ≡ some x) xs
    → All (λ y. y.b.node ≢ lb.b.node) xs
absent-others lb q [] e h = tt
absent-others lb q (x ∷ xs) e h = ground (arith, absent-others lb q xs e h.1, h.0)

erase-none :
    (q : BroadcastQueue) (j k : String) → q.tm j ≡ none → q.tm k ≡ erase string_discrete j q.tm k
unfolding erase
erase-none q j k e = ground arith

pub delete_item-IsRemoved :
    (lb : LimitedBroadcast) (q : BroadcastQueue)
    → IsWellFormed q
    → IsRemoved lb q (delete_item lb q)
unfolding delete_item
delete_item-IsRemoved lb q w = elim (Option-cases (q.tm lb.b.node)) [
  | inl e ↦
      rw (e, delete_item)
        (record {
          others = absent-others lb q q.tq e w.mapped;
          view = λ k. erase-none q lb.b.node k e;
          gen = refl;
          kept = λ P h. h;
        })
  | inr (y, e) ↦
      rw (e, delete_item)
        (record {
          others = keep-others lb q.tq;
          view = λ k. refl;
          gen = refl;
          kept = λ P h. All-keep P _ q.tq h;
        })
]

pub new_queue-IsWellFormed : (mult : ℕ) → IsWellFormed (new_queue mult)
unfolding new_queue
new_queue-IsWellFormed mult = record {
  ordered = tt;
  unique = tt;
  mapped = tt;
  held = λ k. tt;
  numbered = tt;
  small = omega arith;
}

pub clear-IsWellFormed : (q : BroadcastQueue) → IsWellFormed (clear q)
unfolding clear
clear-IsWellFormed q = record {
  ordered = tt;
  unique = tt;
  mapped = tt;
  held = λ k. tt;
  numbered = tt;
  small = omega arith;
}

-- To count on keeps what is numbered below.
counted :
    (q : BroadcastQueue) (id : ℕ)
    → q.id_gen ≤ id
    → id < u32_mod
    → IsWellFormed q
    → IsWellFormed (record q { id_gen = id })
counted q id le small w = record {
  ordered = w.ordered;
  unique = w.unique;
  mapped = w.mapped;
  held = λ k. w.held k;
  numbered = All-imp (λ x. x.id ≤ q.id_gen) (λ x. x.id ≤ id) q.tq (λ x h. omega arith) w.numbered;
  small = small;
}

All-both :
    (lb : LimitedBroadcast) (xs : List LimitedBroadcast)
    → All (λ y. y.b.node ≢ lb.b.node) xs
    → All (λ y. y.id < lb.id) xs
    → All (Apart lb) xs
All-both lb [] h k = tt
All-both lb (x ∷ xs) h k = ((h.0, omega (arith, k.0)), All-both lb xs h.1 k.1)

insert_removed :
    (lb : LimitedBroadcast) (q q' : BroadcastQueue) (k : String)
    → q'.tm k ≡ erase string_discrete lb.b.node q.tm k
    → (add_item lb q').tm k ≡ insert string_discrete lb.b.node lb q.tm k
unfolding add_item insert erase
insert_removed lb q q' k e = ground arith

module _ (byte_size : Broadcast → ℕ) where
  -- For a well-formed queue whose generator has not reached its last number, the queue after
  -- `QueueBroadcast` is well formed, and its map is the old one with the new element at its name.
  pub queue_broadcast-IsWellFormed :
      (b : MemberlistBroadcast) (q : BroadcastQueue)
      → q.id_gen + 1 < u32_mod
      → IsWellFormed q
      → IsWellFormed (queue_broadcast byte_size b q)
        × ((k : String)
            → (queue_broadcast byte_size b q).tm k
              ≡ insert string_discrete b.node (queued byte_size b q) q.tm k)
  unfolding queue_broadcast queue_broadcast_at
  queue_broadcast-IsWellFormed b q room w =
      let id = next_id q.id_gen in
      let next : id ≡ q.id_gen + 1 = ground arith in
      let q' : BroadcastQueue = record q { id_gen = id } in
      let lb = queued byte_size b q in
      let w' = counted q id (omega arith) (omega arith) w in
      let r = delete_item-IsRemoved lb q' w' in
      let below =
        r.kept (λ y. y.id < lb.id)
          (All-imp (λ x. x.id ≤ q.id_gen) (λ x. x.id < id) q.tq (λ x h. omega arith) w.numbered) in
      (
        add_item-IsWellFormed lb (delete_item lb q') (All-both lb _ r.others below)
            (omega (arith, ap (λ (n : ℕ). n) r.gen)) (delete_item-IsWellFormed lb q' w'),
        λ k. insert_removed lb q' (delete_item lb q') k (r.view k),
      )
