-- ===== src/Queue/Pruning.antt =====
-- `Prune` keeps the queue in order, and no operation but `QueueBroadcast` and `clear` moves `idGen`.
use cpp_gossip.Base.{
  ℕ, zero, suc, ◌≤◌, ◌≡◌, refl, ap, ◌∙◌, sym, not, List, [], ◌∷◌, arith, All, keep, subst, All-keep,
}
use cpp_gossip.Queue.Order.{LimitedBroadcast}
use cpp_gossip.Queue.WellFormed.{
  Apart, Unique, IsWellFormed, Ordered-keep, Unique-keep, mapped-keep, Held-erase,
}
use cpp_gossip.Queue.{
  BroadcastQueue, invalidates, last_item, drop_last, prune_last, prune_loop, delete_item, add_item,
  add_all,
}

last_item-All :
    (P : LimitedBroadcast → Type 0) (x : LimitedBroadcast) (xs : List LimitedBroadcast)
    → P x
    → All P xs
    → P (last_item x xs)
unfolding last_item
last_item-All P x [] p h = p
last_item-All P x (y ∷ ys) p h = last_item-All P y ys h.0 h.1

-- To drop the last element is to drop what bears its name.
drop_last-keep :
    (x : LimitedBroadcast) (xs : List LimitedBroadcast)
    → Unique (x ∷ xs)
    → drop_last (x ∷ xs) ≡ keep (λ y. not (invalidates (last_item x xs).b y)) (x ∷ xs)
unfolding drop_last last_item
drop_last-keep x [] u = ground arith
drop_last-keep x (y ∷ ys) u =
    ground (arith, drop_last-keep y ys u.1, last_item-All (Apart x) y ys u.0.0 u.0.1)

prune_last-IsWellFormed :
    (q : BroadcastQueue) (xs : List LimitedBroadcast)
    → q.tq ≡ xs
    → IsWellFormed q
    → IsWellFormed (prune_last q xs)
prune_last-IsWellFormed q [] e w = w
prune_last-IsWellFormed q (x ∷ xs) e w =
    let l = last_item x xs in
    let dropped : drop_last (x ∷ xs) ≡ keep (λ y. not (invalidates l.b y)) q.tq =
      drop_last-keep x xs (subst Unique e w.unique)
      ∙ ap (keep (λ y. not (invalidates l.b y))) (sym e) in
    record {
      ordered = rw dropped (Ordered-keep _ q.tq w.ordered);
      unique = rw dropped (Unique-keep _ q.tq w.unique);
      mapped = rw dropped (mapped-keep l q q.tq w.mapped);
      held = λ k. rw dropped (Held-erase l q k (w.held k));
      numbered = rw dropped (All-keep (λ y. y.id ≤ q.id_gen) _ q.tq w.numbered);
      small = w.small;
    }

pub prune_loop-IsWellFormed :
    (n : ℕ) (q : BroadcastQueue) → IsWellFormed q → IsWellFormed (prune_loop n q)
unfolding prune_loop
prune_loop-IsWellFormed zero q w = w
prune_loop-IsWellFormed (suc n) q w =
    prune_loop-IsWellFormed n _ (prune_last-IsWellFormed q q.tq refl w)

drop_last-All :
    (P : LimitedBroadcast → Type 0) (xs : List LimitedBroadcast) → All P xs → All P (drop_last xs)
unfolding drop_last
drop_last-All P [] h = tt
drop_last-All P (x ∷ []) h = tt
drop_last-All P (x ∷ y ∷ ys) h = (h.0, drop_last-All P (y ∷ ys) h.1)

-- What pruning leaves was there, and the generator stands still.
prune_last-rest :
    (P : LimitedBroadcast → Type 0) (q : BroadcastQueue) (xs : List LimitedBroadcast)
    → q.tq ≡ xs
    → All P q.tq
    → All P (prune_last q xs).tq × ((prune_last q xs).id_gen ≡ q.id_gen)
prune_last-rest P q [] e h = (h, refl)
prune_last-rest P q (x ∷ xs) e h = (drop_last-All P (x ∷ xs) (subst (All P) e h), refl)

pub prune_loop-rest :
    (P : LimitedBroadcast → Type 0) (n : ℕ) (q : BroadcastQueue)
    → All P q.tq
    → All P (prune_loop n q).tq × ((prune_loop n q).id_gen ≡ q.id_gen)
unfolding prune_loop
prune_loop-rest P zero q h = (h, refl)
prune_loop-rest P (suc n) q h =
    let (h', e) = prune_last-rest P q q.tq refl h in
    let (h'', e') = prune_loop-rest P n (prune_last q q.tq) h' in (h'', e' ∙ e)

pub delete_item-id_gen :
    (x : LimitedBroadcast) (q : BroadcastQueue) → (delete_item x q).id_gen ≡ q.id_gen
unfolding delete_item
delete_item-id_gen x q = ground arith

pub add_all-id_gen :
    (xs : List LimitedBroadcast) (q : BroadcastQueue) → (add_all xs q).id_gen ≡ q.id_gen
unfolding add_all add_item
add_all-id_gen [] q = refl
add_all-id_gen (x ∷ xs) q = add_all-id_gen xs (add_item x q)
