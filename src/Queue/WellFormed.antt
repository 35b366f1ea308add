-- ===== src/Queue/WellFormed.antt =====
-- What holds of the queue between two of its operations, for queues whose generator has not wrapped.
use cpp_gossip.Base.{
  ◌≤◌, ◌<◌, ◌≡◌, ◌≢◌, inl, inr, sym, Bool, true, not, Option, none, some, List, [], ◌∷◌, String,
  arith, All, All-keep, All-imp, keep, insert, erase, string_discrete, Bool-cases, u32_mod,
}
use cpp_gossip.Queue.Order.{LimitedBroadcast, before, set_insert}
use cpp_gossip.Queue.Select.{In, before_trans}
use cpp_gossip.Queue.Indexed.{All-set_insert}
use cpp_gossip.Queue.Fresh.{before_total, In-set_insert_self, In-set_insert, In-keep}
use cpp_gossip.Queue.{BroadcastQueue, invalidates}

-- In the order of the set.
abbrev pub Ordered : List LimitedBroadcast → Type 0
Ordered [] = Unit {0}
Ordered (x ∷ xs) = All (λ y. before x y ≡ true) xs × Ordered xs

-- Another name and another number.
abbrev pub Apart : LimitedBroadcast → LimitedBroadcast → Type 0
Apart x y = (y.b.node ≢ x.b.node) × (y.id ≢ x.id)

abbrev pub Unique : List LimitedBroadcast → Type 0
Unique [] = Unit {0}
Unique (x ∷ xs) = All (Apart x) xs × Unique xs

-- What the map says of the name `k`.
abbrev pub Held : String → Option LimitedBroadcast → List LimitedBroadcast → Type 0
Held k none tq = Unit {0}
Held k (some x) tq = (x.b.node ≡ k) × In x tq

pub record IsWellFormed (q : BroadcastQueue) : Type 0 where
  pub ordered : Ordered q.tq
  pub unique : Unique q.tq
  pub mapped : All (λ x. q.tm x.b.node ≡ some x) q.tq
  pub held : (k : String) → Held k (q.tm k) q.tq
  pub numbered : All (λ x. x.id ≤ q.id_gen) q.tq
  pub small : q.id_gen < u32_mod

pub Ordered-keep :
    (p : LimitedBroadcast → Bool) (xs : List LimitedBroadcast) → Ordered xs → Ordered (keep p xs)
Ordered-keep p [] h = tt
Ordered-keep p (x ∷ xs) h =
    ground (arith, Ordered-keep p xs h.1, All-keep (λ y. before x y ≡ true) p xs h.0)

pub Unique-keep :
    (p : LimitedBroadcast → Bool) (xs : List LimitedBroadcast) → Unique xs → Unique (keep p xs)
Unique-keep p [] h = tt
Unique-keep p (x ∷ xs) h = ground (arith, Unique-keep p xs h.1, All-keep (Apart x) p xs h.0)

pub Ordered-set_insert :
    (x : LimitedBroadcast) (xs : List LimitedBroadcast)
    → All (Apart x) xs
    → Ordered xs
    → Ordered (set_insert x xs)
unfolding set_insert
Ordered-set_insert x [] a h = (tt, tt)
Ordered-set_insert x (y ∷ ys) a h = elim (Bool-cases (before x y)) [
  | inl first ↦
      rw (first, set_insert)
        (
          (
            first,
            All-imp (λ z. before y z ≡ true) (λ z. before x z ≡ true) ys
                (λ z. before_trans x y z first) h.0,
          ),
          h,
        )
  | inr later ↦
      let second = before_total x y a.0.1 later in
      rw (later, second, set_insert)
        (All-set_insert (λ z. before y z ≡ true) x ys second h.0, Ordered-set_insert x ys a.1 h.1)
]

pub Unique-set_insert :
    (x : LimitedBroadcast) (xs : List LimitedBroadcast)
    → All (Apart x) xs
    → Unique xs
    → Unique (set_insert x xs)
unfolding set_insert
Unique-set_insert x [] a h = (tt, tt)
Unique-set_insert x (y ∷ ys) a h = elim (Bool-cases (before x y)) [
  | inl first ↦ rw (first, set_insert) (a, h)
  | inr later ↦ elim (Bool-cases (before y x)) [
    | inl second ↦
        rw (later, second, set_insert)
          (
            All-set_insert (Apart y) x ys (λ e. a.0.0 (sym e), λ e. a.0.1 (sym e)) h.0,
            Unique-set_insert x ys a.1 h.1,
          )
    | inr equal ↦ rw (later, equal, set_insert) h
  ]
]

-- Elements of other names than `lb` are still mapped to once its name is erased.
pub mapped-keep :
    (lb : LimitedBroadcast) (q : BroadcastQueue) (xs : List LimitedBroadcast)
    → All (λ x. q.tm x.b.node ≡ some x) xs
    → All
        (λ x. erase string_discrete lb.b.node q.tm x.b.node ≡ some x)
        (keep (λ x. not (invalidates lb.b x)) xs)
unfolding erase
mapped-keep lb q [] h = tt
mapped-keep lb q (x ∷ xs) h = ground (arith, mapped-keep lb q xs h.1, h.0)

pub mapped-insert :
    (lb : LimitedBroadcast) (q : BroadcastQueue) (xs : List LimitedBroadcast)
    → All (Apart lb) xs
    → All (λ x. q.tm x.b.node ≡ some x) xs
    → All (λ x. insert string_discrete lb.b.node lb q.tm x.b.node ≡ some x) xs
unfolding insert
mapped-insert lb q [] a h = tt
mapped-insert lb q (x ∷ xs) a h = ground (arith, mapped-insert lb q xs a.1 h.1, a.0, h.0)

pub insert_self :
    (lb : LimitedBroadcast) (q : BroadcastQueue)
    → insert string_discrete lb.b.node lb q.tm lb.b.node ≡ some lb
unfolding insert
insert_self lb q = ground arith

Held-keep :
    (lb : LimitedBroadcast) (k : String) (o : Option LimitedBroadcast) (tq : List LimitedBroadcast)
    → lb.b.node ≢ k
    → Held k o tq
    → Held k o (keep (λ x. not (invalidates lb.b x)) tq)
Held-keep lb k none tq other h = tt
Held-keep lb k (some x) tq other h =
    (h.0, In-keep (λ x. not (invalidates lb.b x)) x tq (ground arith) h.1)

pub Held-erase :
    (lb : LimitedBroadcast) (q : BroadcastQueue) (k : String)
    → Held k (q.tm k) q.tq
    → Held k (erase string_discrete lb.b.node q.tm k) (keep (λ x. not (invalidates lb.b x)) q.tq)
unfolding erase
Held-erase lb q k h = elim (string_discrete k lb.b.node) [
  | yes e ↦ ground arith
  | no e ↦ ground (arith, Held-keep lb k (q.tm k) q.tq (λ s. e (sym s)) h)
]

Held-set_insert :
    (lb : LimitedBroadcast) (k : String) (o : Option LimitedBroadcast) (tq : List LimitedBroadcast)
    → Held k o tq
    → Held k o (set_insert lb tq)
Held-set_insert lb k none tq h = tt
Held-set_insert lb k (some x) tq h = (h.0, In-set_insert lb x tq h.1)

pub Held-insert :
    (lb : LimitedBroadcast) (q : BroadcastQueue) (k : String)
    → All (Apart lb) q.tq
    → Held k (q.tm k) q.tq
    → Held k (insert string_discrete lb.b.node lb q.tm k) (set_insert lb q.tq)
unfolding insert
Held-insert lb q k a h = elim (string_discrete k lb.b.node) [
  | yes e ↦ ground (
    arith,
    In-set_insert_self lb q.tq (All-imp (Apart lb) (λ y. y.id ≢ lb.id) q.tq (λ y d. d.1) a),
  )
  | no e ↦ ground (arith, Held-set_insert lb k (q.tm k) q.tq h)
]
