-- ===== src/Queue/Fresh.antt =====
-- What `QueueBroadcast` leaves in the queue.
use cpp_gossip.Base.{
  ℕ, ◌-◌, ◌<◌, ◌≡◌, ◌≢◌, ◌⊎◌, inl, inr, refl, sym, ap, Bool, true, false, not, none, some, List, [],
  ◌∷◌, arith, All, All-keep, All-imp, keep, insert, u64_mod, Option-cases, Bool-cases,
}
use cpp_gossip.Message.{Broadcast}
use cpp_gossip.Queue.Order.{LimitedBroadcast, MemberlistBroadcast, before, set_insert}
use cpp_gossip.Queue.Select.{In}
use cpp_gossip.Queue.Indexed.{IsIndexed, All-set_insert, delete_item-IsIndexed, add_item-IsIndexed}
use cpp_gossip.Queue.{
  BroadcastQueue, delete_item, add_item, invalidates, next_id, queue_broadcast, queue_broadcast_at,
}

pub before_total : (x y : LimitedBroadcast) → y.id ≢ x.id → before x y ≡ false → before y x ≡ true
before_total x y other h = ground arith

pub In-set_insert_self :
    (x : LimitedBroadcast) (xs : List LimitedBroadcast)
    → All (λ y. y.id ≢ x.id) xs
    → In x (set_insert x xs)
unfolding set_insert
In-set_insert_self x [] h = inl refl
In-set_insert_self x (y ∷ ys) h = elim (Bool-cases (before x y)) [
  | inl first ↦ rw (first, set_insert) (inl refl)
  | inr later ↦
      rw (later, before_total x y h.0 later, set_insert) (inr (In-set_insert_self x ys h.1))
]

pub In-set_insert :
    (x y : LimitedBroadcast) (xs : List LimitedBroadcast) → In y xs → In y (set_insert x xs)
unfolding set_insert
In-set_insert x y [] i = absurd i
In-set_insert x y (z ∷ zs) (inl e) = elim (Bool-cases (before x z)) [
  | inl first ↦ rw (first, set_insert) (inr (inl e))
  | inr later ↦ elim (Bool-cases (before z x)) [
    | inl second ↦ rw (later, second, set_insert) (inl e)
    | inr equal ↦ rw (later, equal, set_insert) (inl e)
  ]
]
In-set_insert x y (z ∷ zs) (inr i) = elim (Bool-cases (before x z)) [
  | inl first ↦ rw (first, set_insert) (inr (inr i))
  | inr later ↦ elim (Bool-cases (before z x)) [
    | inl second ↦ rw (later, second, set_insert) (inr (In-set_insert x y zs i))
    | inr equal ↦ rw (later, equal, set_insert) (inr i)
  ]
]

pub In-keep :
    (p : LimitedBroadcast → Bool) (y : LimitedBroadcast) (xs : List LimitedBroadcast)
    → p y ≡ true
    → In y xs
    → In y (keep p xs)
In-keep p y [] t i = absurd i
In-keep p y (x ∷ xs) t (inl e) = rw (ap p (sym e), t) (inl e)
In-keep p y (x ∷ xs) t (inr i) = elim (Bool-cases (p x)) [
  | inl kept ↦ rw kept (inr (In-keep p y xs t i))
  | inr gone ↦ rw gone (In-keep p y xs t i)
]

keep-others :
    (lb : LimitedBroadcast) (xs : List LimitedBroadcast)
    → All (λ x. x.b.node ≢ lb.b.node) (keep (λ x. not (invalidates lb.b x)) xs)
keep-others lb [] = tt
keep-others lb (x ∷ xs) = ground (arith, keep-others lb xs)

none-others :
    (lb : LimitedBroadcast) (q : BroadcastQueue) (xs : List LimitedBroadcast)
    → q.tm lb.b.node ≡ none
    → All (λ x. q.tm x.b.node ≢ none) xs
    → All (λ x. x.b.node ≢ lb.b.node) xs
none-others lb q [] e h = tt
none-others lb q (x ∷ xs) e h = (λ s. h.0 (rw s e), none-others lb q xs e h.1)

module _ (byte_size : Broadcast → ℕ) (lb : LimitedBroadcast) (q : BroadcastQueue)
    (v : IsIndexed byte_size q) where
  delete_item-others : All (λ x. x.b.node ≢ lb.b.node) (delete_item lb q).tq
  unfolding delete_item
  delete_item-others = elim (Option-cases (q.tm lb.b.node)) [
    | inl e ↦ rw (e, delete_item) (none-others lb q q.tq e v.named)
    | inr (y, e) ↦ rw (e, delete_item) (keep-others lb q.tq)
  ]

  delete_item-All : (P : LimitedBroadcast → Type 0) → All P q.tq → All P (delete_item lb q).tq
  unfolding delete_item
  delete_item-All P h = elim (Option-cases (q.tm lb.b.node)) [
    | inl e ↦ rw (e, delete_item) h
    | inr (y, e) ↦ rw (e, delete_item) (All-keep P _ q.tq h)
  ]

  delete_item-In :
      (x : LimitedBroadcast) → x.b.node ≢ lb.b.node → In x q.tq → In x (delete_item lb q).tq
  unfolding delete_item
  delete_item-In x other i = elim (Option-cases (q.tm lb.b.node)) [
    | inl e ↦ rw (e, delete_item) i
    | inr (y, e) ↦ rw (e, delete_item) (In-keep _ x q.tq (ground arith) i)
  ]

-- The only element under its name, and all others as they were.
pub record IsReplaced (lb : LimitedBroadcast) (q q' : BroadcastQueue) : Type 0 where
  pub entry : q'.tm lb.b.node ≡ some lb
  pub present : In lb q'.tq
  pub only : All (λ x. (x ≡ lb) ⊎ (x.b.node ≢ lb.b.node)) q'.tq
  pub others : (x : LimitedBroadcast) → x.b.node ≢ lb.b.node → In x q.tq → In x q'.tq

module _ (byte_size : Broadcast → ℕ) where
  replace-IsReplaced :
      (lb : LimitedBroadcast) (q : BroadcastQueue)
      → IsIndexed byte_size q
      → All (λ x. x.id ≢ lb.id) q.tq
      → IsReplaced lb q (add_item lb (delete_item lb q))
  unfolding add_item insert
  replace-IsReplaced lb q v fresh = record {
    entry = ground arith;
    present =
        In-set_insert_self lb (delete_item lb q).tq
          (delete_item-All byte_size lb q v (λ x. x.id ≢ lb.id) fresh);
    only =
        All-set_insert (λ x. (x ≡ lb) ⊎ (x.b.node ≢ lb.b.node)) lb (delete_item lb q).tq (inl refl)
          (All-imp (λ x. x.b.node ≢ lb.b.node) _ (delete_item lb q).tq (λ x h. inr h)
            (delete_item-others byte_size lb q v));
    others = λ x other i.
        In-set_insert lb x (delete_item lb q).tq (delete_item-In byte_size lb q v x other i);
  }

  -- The element that `QueueBroadcast` makes.
  abbrev pub queued : MemberlistBroadcast → BroadcastQueue → LimitedBroadcast
  queued b q = record { transmits = 0; msg_len = byte_size b.msg; id = next_id q.id_gen; b = b }

  -- If the elements are in the map with their lengths and none has the next number yet, then
  -- `QueueBroadcast` replaces whatever was queued under the name by the new message, untransmitted, in
  -- the set and in the map, and leaves all elements of other names in the set.
  pub queue_broadcast-IsReplaced :
      (b : MemberlistBroadcast) (q : BroadcastQueue)
      → IsIndexed byte_size q
      → All (λ x. x.id ≢ next_id q.id_gen) q.tq
      → IsReplaced (queued b q) q (queue_broadcast byte_size b q)
  unfolding queue_broadcast queue_broadcast_at
  queue_broadcast-IsReplaced b q v fresh =
      let q' : BroadcastQueue = record q { id_gen = next_id q.id_gen } in
      let r =
        replace-IsReplaced (queued b q) q' (record { sized = v.sized; named = v.named }) fresh in
      record { entry = r.entry; present = r.present; only = r.only; others = r.others }

  -- `QueueBroadcast` of a message below 2 ^ 64 - 1 bytes keeps every element in the map, with the
  -- length of its message.
  pub queue_broadcast-IsIndexed :
      (b : MemberlistBroadcast) (q : BroadcastQueue)
      → byte_size b.msg < u64_mod - 1
      → IsIndexed byte_size q
      → IsIndexed byte_size (queue_broadcast byte_size b q)
  unfolding queue_broadcast queue_broadcast_at
  queue_broadcast-IsIndexed b q small v =
      add_item-IsIndexed byte_size (queued b q) _ (refl, small)
        (delete_item-IsIndexed byte_size (queued b q) _
          (record { sized = v.sized; named = v.named }))
