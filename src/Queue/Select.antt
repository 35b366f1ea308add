-- ===== src/Queue/Select.antt =====
-- The element that `GetBroadcasts` finds between its two bounds.
use cpp_gossip.Base.{
  ℕ, ◌+◌, ◌-◌, ◌≤◌, ◌<◌, ◌≡◌, sym, ap, subst, ◌⊎◌, inl, inr, refl, true, false, not, Option, none,
  some, List, [], ◌∷◌, arith, All, keep, length, length-keep-le, ◌==◌, if◌then◌else◌, u64_mod,
  Bool-cases,
}
use cpp_gossip.Queue.Order.{LimitedBroadcast, before, lower_bound, upper_bound}
use cpp_gossip.Queue.{bound, first, select, invalidates}

abbrev pub In : LimitedBroadcast → List LimitedBroadcast → Type 0
In x [] = ⊥
In x (y ∷ ys) = (x ≡ y) ⊎ In x ys

pub In-All :
    (P : LimitedBroadcast → Type 0) (x : LimitedBroadcast) (xs : List LimitedBroadcast)
    → In x xs
    → All P xs
    → P x
In-All P x [] i h = absurd i
In-All P x (y ∷ ys) (inl e) h = subst P (sym e) h.0
In-All P x (y ∷ ys) (inr i) h = In-All P x ys i h.1

-- To drop all of one name drops at least the element that has it.
pub length-keep-In :
    (x : LimitedBroadcast) (xs : List LimitedBroadcast)
    → In x xs
    → length (keep (λ y. not (invalidates x.b y)) xs) < length xs
length-keep-In x [] i = absurd i
length-keep-In x (y ∷ ys) (inl e) = ground (
  arith,
  length-keep-le (λ y. not (invalidates x.b y)) ys,
  ap (λ (z : LimitedBroadcast). z.b.node) e,
)
length-keep-In x (y ∷ ys) (inr i) = ground (arith, length-keep-In x ys i)

pub length-upper_bound-le :
    (key : LimitedBroadcast) (xs : List LimitedBroadcast) → length (upper_bound key xs) ≤ length xs
unfolding upper_bound
length-upper_bound-le key [] = omega arith
length-upper_bound-le key (y ∷ ys) = ground (arith, length-upper_bound-le key ys)

pub before_trans :
    (x y z : LimitedBroadcast) → before x y ≡ true → before y z ≡ true → before x z ≡ true
before_trans x y z h k = ground arith

pub before_asym : (x y : LimitedBroadcast) → before x y ≡ true → before y x ≡ false
before_asym x y h = ground arith

-- What lies between the bounds.
pub record IsBetween (lo up x : LimitedBroadcast) (tq : List LimitedBroadcast) : Type 0 where
  pub present : In x tq
  pub from : before x lo ≡ false
  pub to : before up x ≡ false

abbrev pub between :
    LimitedBroadcast → LimitedBroadcast → List LimitedBroadcast → Option LimitedBroadcast
between lo up tq =
    let low = lower_bound lo tq in
    let high = upper_bound up tq in if length low == length high then none else first low

between-cases :
    (lo up : LimitedBroadcast) (tq : List LimitedBroadcast)
    → before lo up ≡ true
    → (between lo up tq ≡ none)
      ⊎ ((x : LimitedBroadcast) × (between lo up tq ≡ some x) × IsBetween lo up x tq)
unfolding lower_bound upper_bound
between-cases lo up [] h = inl refl
between-cases lo up (y ∷ ys) h = elim (Bool-cases (before y lo)) [
  | inl low ↦
      let lower : before up y ≡ false = before_asym y up (before_trans y lo up low h) in
      rw (low, lower)
        (elim (between-cases lo up ys h) [
          | inl none' ↦ inl none'
          | inr (x, e, b) ↦ inr (x, e, record { present = inr b.present; from = b.from; to = b.to })
        ])
  | inr high ↦ elim (Bool-cases (before up y)) [
    | inl over ↦ inl (rw (high, over) (ground arith))
    | inr inside ↦ inr (
      y,
      rw (high, inside) (ground (arith, length-upper_bound-le up ys)),
      record { present = inl refl; from = high; to = inside },
    )
  ]
]

-- A selected element is in the queue, of the tier, and fits, as long as lengths stay below the
-- greatest `size_t`.
pub select-cases :
    (tier free : ℕ) (tq : List LimitedBroadcast)
    → (select tier free tq ≡ none)
      ⊎ ((x : LimitedBroadcast) × (select tier free tq ≡ some x)
          × In x tq
          × (x.msg_len < u64_mod - 1 → (x.transmits ≡ tier) × (x.msg_len ≤ free)))
unfolding select
select-cases tier free tq =
    elim (between-cases (bound tier free) (bound (tier + 1) (u64_mod - 1)) tq (ground arith)) [
      | inl e ↦ inl e
      | inr (x, e, b) ↦ inr (x, e, b.present, λ small. ground (arith, b.from, b.to))
    ]
