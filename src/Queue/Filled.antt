-- ===== src/Queue/Filled.antt =====
-- `GetBroadcasts` leaves no message that would still fit.
use cpp_gossip.Base.{
  ℕ, zero, suc, ◌+◌, ◌-◌, ◌≤◌, ◌<◌, ◌≡◌, inl, inr, refl, ap, ◌∙◌, Bool, true, false, Option, none,
  some, List, [], ◌∷◌, arith, All, All-imp, ltb, ◌==◌, u64_mod, u32_mod, Bool-cases,
}
use cpp_gossip.Message.{Broadcast}
use cpp_gossip.Queue.Order.{LimitedBroadcast, before, lower_bound, upper_bound}
use cpp_gossip.Queue.Select.{In, In-All, select-cases, length-upper_bound-le}
use cpp_gossip.Queue.Indexed.{IsSized}
use cpp_gossip.Queue.Budget.{total, total-snoc}
use cpp_gossip.Queue.WellFormed.{IsWellFormed, Ordered}
use cpp_gossip.Queue.Kept.{delete_item-IsRemoved, delete_item-IsWellFormed}
use cpp_gossip.Queue.Delivery.{same-IsWellFormed, send-queue, send-lists}
use cpp_gossip.Queue.{Sweep, bound, delete_item, select, send, drain, tiers, free_bytes}

-- Nothing before the tier that is not of the tier is found, and nothing that fits is passed over.
unselected :
    (tier free : ℕ) (xs : List LimitedBroadcast)
    → Ordered xs
    → All (λ x. x.id < u32_mod) xs
    → select tier free xs ≡ none
    → All (λ x. x.transmits ≡ tier → free < x.msg_len) xs
unfolding select lower_bound upper_bound
unselected tier free [] o n e = tt
unselected tier free (x ∷ xs) o n e = elim (Bool-cases (before x (bound tier free))) [
  | inl low ↦
      (ground (arith, low), unselected tier free xs o.1 n.1 (ground (arith, low, e, o.0, n.0)))
  | inr high ↦ elim (Bool-cases (before (bound (tier + 1) (u64_mod - 1)) x)) [
    | inl over ↦ (
      λ t. ground (arith, over),
      All-imp (λ y. before x y ≡ true) (λ y. y.transmits ≡ tier → free < y.msg_len) xs
          (λ y after t. ground (arith, over, after)) o.0,
    )
    | inr inside ↦
        let shorter = length-upper_bound-le (bound (tier + 1) (u64_mod - 1)) xs in
        ground (arith, high, inside, e, shorter)
  ]
]

-- An element that is not sent does not fit.
abbrev pub Exceeds : ℕ → ℕ → LimitedBroadcast → Type 0
Exceeds limit used x = 0 < x.msg_len → limit < used + x.msg_len

All-any :
    (P : LimitedBroadcast → Type 0) (xs : List LimitedBroadcast)
    → ((x : LimitedBroadcast) → P x)
    → All P xs
All-any P [] f = tt
All-any P (x ∷ xs) f = (f x, All-any P xs f)

All-zip :
    (P Q R : LimitedBroadcast → Type 0) (xs : List LimitedBroadcast)
    → ((x : LimitedBroadcast) → P x → Q x → R x)
    → All P xs
    → All Q xs
    → All R xs
All-zip P Q R [] f p q = tt
All-zip P Q R (x ∷ xs) f p q = (f x p.0 q.0, All-zip P Q R xs f p.1 q.1)

send-bytes :
    (transmit_limit overhead limit : ℕ) (x : LimitedBroadcast) (s : Sweep)
    → s.bytes_used + overhead ≤ limit
    → limit < u64_mod
    → x.msg_len ≤ free_bytes overhead limit s.bytes_used
    → ((send transmit_limit x s).bytes_used ≡ s.bytes_used + x.msg_len)
      × (s.bytes_used + x.msg_len + overhead ≤ limit)
unfolding send
send-bytes transmit_limit overhead limit x s within small fit = ground arith

module _ (byte_size : Broadcast → ℕ) (overhead limit start transmit_limit : ℕ)
    (small : limit < u64_mod) where
  -- The variables of the loops before the tier `tier`, with no element above the tier `top`.
  pub record IsFilling (tier top : ℕ) (s : Sweep) : Type 0 where
    pub counted : total byte_size s.cbc ≡ start + s.bytes_used
    pub within : s.bytes_used + overhead ≤ limit
    pub whole : IsWellFormed s.queue
    pub sized : All (IsSized byte_size) s.queue.tq
    pub below : All (λ x. x.transmits ≤ top) s.queue.tq
    pub skipped :
        All (λ x. x.transmits < tier → Exceeds limit (overhead + s.bytes_used) x) s.queue.tq

  pub record IsFull (s : Sweep) : Type 0 where
    pub counted : total byte_size s.cbc ≡ start + s.bytes_used
    pub rest : All (Exceeds limit (overhead + s.bytes_used)) s.queue.tq

  send-IsFilling :
      (tier top : ℕ) (x : LimitedBroadcast) (s : Sweep)
      → In x s.queue.tq
      → x.msg_len ≤ free_bytes overhead limit s.bytes_used
      → IsFilling tier top s
      → IsFilling tier top (send transmit_limit x s)
  send-IsFilling tier top x s i fit w =
      let q' = delete_item x s.queue in
      let (eq, em, eg) = send-queue transmit_limit x s in
      let r = delete_item-IsRemoved x s.queue w.whole in
      let (bytes, room) = send-bytes transmit_limit overhead limit x s w.within small fit in
      let sized = In-All (IsSized byte_size) x s.queue.tq i w.sized in
      record {
        counted =
            ap (total byte_size) (send-lists transmit_limit x s).0
            ∙ omega (arith, total-snoc byte_size s.cbc x.b.msg, w.counted, bytes, sized.0);
        within = omega (arith, bytes, room);
        whole = same-IsWellFormed q' _ eq em eg (delete_item-IsWellFormed x s.queue w.whole);
        sized = rw eq (r.kept (IsSized byte_size) w.sized);
        below = rw eq (r.kept (λ y. y.transmits ≤ top) w.below);
        skipped =
            rw (eq, bytes)
              (r.kept
                (λ y. y.transmits < tier → Exceeds limit (overhead + (s.bytes_used + x.msg_len)) y)
                (All-imp _ _ s.queue.tq (λ y f t l. omega (arith, f t l)) w.skipped));
      }

  -- Nothing of the tier is left that fits: on to the next tier.
  tier_done :
      (tier top : ℕ) (s : Sweep)
      → select tier (free_bytes overhead limit s.bytes_used) s.queue.tq ≡ none
      → IsFilling tier top s
      → IsFilling (tier + 1) top s
  tier_done tier top s e w = record {
    counted = w.counted;
    within = w.within;
    whole = w.whole;
    sized = w.sized;
    below = w.below;
    skipped =
        All-zip _ _ _ s.queue.tq
          (λ y old new t l. elim (Bool-cases (ltb y.transmits tier)) [
            | inl before_it ↦ old (ground (arith, before_it)) l
            | inr of_it ↦ fits_not y (new (ground (arith, of_it, t)))
          ])
          w.skipped
          (unselected tier (free_bytes overhead limit s.bytes_used) s.queue.tq w.whole.ordered
            (All-imp (λ x. x.id ≤ s.queue.id_gen) (λ x. x.id < u32_mod) s.queue.tq
              (λ x h. omega (arith, h, w.whole.small)) w.whole.numbered)
            e);
  }
    where
      fits_not :
          (y : LimitedBroadcast)
          → free_bytes overhead limit s.bytes_used < y.msg_len
          → limit < overhead + s.bytes_used + y.msg_len
      fits_not y h = omega (arith, h, w.within)

  all-IsFull :
      (tier top : ℕ) (s : Sweep)
      → (free_bytes overhead limit s.bytes_used == 0) ≡ true
      → IsFilling tier top s
      → IsFull s
  all-IsFull tier top s e w =
      let nothing_free : limit ≡ overhead + s.bytes_used = ground (arith, e, w.within) in
      record {
        counted = w.counted;
        rest = All-any _ s.queue.tq (λ x l. omega (arith, nothing_free, l));
      }

  abbrev DrainFills : ℕ → ℕ → Option (Sweep × Bool) → Type 0
  DrainFills tier top none = Unit {0}
  DrainFills tier top (some (s, true)) = IsFull s
  DrainFills tier top (some (s, false)) = IsFilling (tier + 1) top s

  drain-fills :
      (fuel tier top : ℕ) (s : Sweep)
      → IsFilling tier top s
      → DrainFills tier top (drain fuel overhead limit transmit_limit tier s)
  unfolding drain
  drain-fills zero tier top s w = tt
  drain-fills (suc fuel) tier top s w =
      let free = free_bytes overhead limit s.bytes_used in
      elim (Bool-cases (free == 0)) [
        | inl full ↦ rw (full, drain) (all-IsFull tier top s full w)
        | inr room ↦ elim (select-cases tier free s.queue.tq) [
          | inl empty ↦ rw (room, empty, drain) (tier_done tier top s empty w)
          | inr (x, e, i, spec) ↦
              let sized = In-All (IsSized byte_size) x s.queue.tq i w.sized in
              rw (room, e, drain)
                (drain-fills fuel tier top (send transmit_limit x s)
                  (send-IsFilling tier top x s i (spec sized.1).1 w))
        ]
      ]

  abbrev pub TiersFill : Option Sweep → Type 0
  TiersFill none = Unit {0}
  TiersFill (some s) = IsFull s

  next_fills :
      (rounds fuel tier top : ℕ) (s : Sweep) (o : Option (Sweep × Bool))
      → drain fuel overhead limit transmit_limit tier s ≡ o
      → DrainFills tier top o
      → ((s' : Sweep)
          → IsFilling (tier + 1) top s'
          → TiersFill (tiers rounds fuel overhead limit transmit_limit (tier + 1) s'))
      → TiersFill (tiers (suc rounds) fuel overhead limit transmit_limit tier s)
  unfolding tiers
  next_fills rounds fuel tier top s none e p go = rw (e, tiers) tt
  next_fills rounds fuel tier top s (some (s', true)) e p go = rw (e, tiers) p
  next_fills rounds fuel tier top s (some (s', false)) e p go = rw (e, tiers) (go s' p)

  pub tiers-fill :
      (rounds fuel tier top : ℕ) (s : Sweep)
      → top < tier + rounds
      → IsFilling tier top s
      → TiersFill (tiers rounds fuel overhead limit transmit_limit tier s)
  unfolding tiers
  tiers-fill zero fuel tier top s enough w = record {
    counted = w.counted;
    rest = All-zip _ _ _ s.queue.tq (λ y f h. f (omega (arith, h))) w.skipped w.below;
  }
  tiers-fill (suc rounds) fuel tier top s enough w =
      next_fills rounds fuel tier top s _ refl (drain-fills fuel tier top s w)
        (λ s' w'. tiers-fill rounds fuel (tier + 1) top s' (omega (arith, enough)) w')
