-- ===== src/Queue/Indexed.antt =====
-- The elements of the queue are in the map, with the lengths of their messages.
use cpp_gossip.Base.{
  ℕ, ◌-◌, ◌<◌, ◌≡◌, ◌≢◌, inl, inr, not, none, List, [], ◌∷◌, arith, All, All-keep, insert, keep,
  length, u64_mod, Bool-cases, erase, string_discrete, Option-cases,
}
use cpp_gossip.Message.{Broadcast}
use cpp_gossip.Queue.Order.{LimitedBroadcast, before, set_insert}
use cpp_gossip.Queue.Select.{In, In-All, length-keep-In}
use cpp_gossip.Queue.{BroadcastQueue, delete_item, add_item, add_all, invalidates}

pub All-set_insert :
    (P : LimitedBroadcast → Type 0) (x : LimitedBroadcast) (xs : List LimitedBroadcast)
    → P x
    → All P xs
    → All P (set_insert x xs)
unfolding set_insert
All-set_insert P x [] p h = (p, tt)
All-set_insert P x (y ∷ ys) p h = elim (Bool-cases (before x y)) [
  | inl first ↦ rw (first, set_insert) (p, h)
  | inr later ↦ elim (Bool-cases (before y x)) [
    | inl second ↦ rw (later, second, set_insert) (h.0, All-set_insert P x ys p h.1)
    | inr equal ↦ rw (later, equal, set_insert) h
  ]
]

module _ (byte_size : Broadcast → ℕ) where
  -- An entry has the length of its message.
  abbrev pub IsSized : LimitedBroadcast → Type 0
  IsSized x = (x.msg_len ≡ byte_size x.b.msg) × (x.msg_len < u64_mod - 1)

  -- Each queued element is known under its name, and sized.
  pub record IsIndexed (q : BroadcastQueue) : Type 0 where
    pub sized : All IsSized q.tq
    pub named : All (λ x. q.tm x.b.node ≢ none) q.tq

  keep-named :
      (lb : LimitedBroadcast) (q : BroadcastQueue) (xs : List LimitedBroadcast)
      → All (λ x. q.tm x.b.node ≢ none) xs
      → All
          (λ x. erase string_discrete lb.b.node q.tm x.b.node ≢ none)
          (keep (λ x. not (invalidates lb.b x)) xs)
  unfolding erase
  keep-named lb q [] h = tt
  keep-named lb q (x ∷ xs) h = ground (arith, keep-named lb q xs h.1, h.0)

  pub delete_item-IsIndexed :
      (lb : LimitedBroadcast) (q : BroadcastQueue) → IsIndexed q → IsIndexed (delete_item lb q)
  unfolding delete_item
  delete_item-IsIndexed lb q v = elim (Option-cases (q.tm lb.b.node)) [
    | inl e ↦ rw (e, delete_item) v
    | inr (y, e) ↦
        rw (e, delete_item)
          (record { sized = All-keep IsSized _ q.tq v.sized; named = keep-named lb q q.tq v.named })
  ]

  pub length-delete_item :
      (x : LimitedBroadcast) (q : BroadcastQueue)
      → In x q.tq
      → IsIndexed q
      → length (delete_item x q).tq < length q.tq
  unfolding delete_item
  length-delete_item x q i v =
      ground (arith, In-All (λ x. q.tm x.b.node ≢ none) x q.tq i v.named, length-keep-In x q.tq i)

  insert-named :
      (lb : LimitedBroadcast) (q : BroadcastQueue) (xs : List LimitedBroadcast)
      → All (λ x. q.tm x.b.node ≢ none) xs
      → All (λ x. insert string_discrete lb.b.node lb q.tm x.b.node ≢ none) xs
  unfolding insert
  insert-named lb q [] h = tt
  insert-named lb q (x ∷ xs) h = ground (arith, insert-named lb q xs h.1, h.0)

  insert_self :
      (lb : LimitedBroadcast) (q : BroadcastQueue)
      → insert string_discrete lb.b.node lb q.tm lb.b.node ≢ none
  unfolding insert
  insert_self lb q = ground arith

  pub add_item-IsIndexed :
      (lb : LimitedBroadcast) (q : BroadcastQueue)
      → IsSized lb
      → IsIndexed q
      → IsIndexed (add_item lb q)
  unfolding add_item
  add_item-IsIndexed lb q s v = record {
    sized = All-set_insert IsSized lb q.tq s v.sized;
    named =
        All-set_insert (λ x. insert string_discrete lb.b.node lb q.tm x.b.node ≢ none) lb q.tq
          (insert_self lb q) (insert-named lb q q.tq v.named);
  }

  pub add_all-IsIndexed :
      (xs : List LimitedBroadcast) (q : BroadcastQueue)
      → All IsSized xs
      → IsIndexed q
      → IsIndexed (add_all xs q)
  unfolding add_all
  add_all-IsIndexed [] q s v = v
  add_all-IsIndexed (x ∷ xs) q s v =
      add_all-IsIndexed xs (add_item x q) s.1 (add_item-IsIndexed x q s.0 v)

  pub same_items :
      (q q' : BroadcastQueue) → q'.tq ≡ q.tq → q'.tm ≡ q.tm → IsIndexed q → IsIndexed q'
  same_items q q' e f v = record { sized = rw e v.sized; named = rw (e, f) v.named }
