-- ===== src/Queue/Loop.antt =====
-- A rule for the loops of `GetBroadcasts`: what each transmission keeps, the loops keep.
use cpp_gossip.Base.{
  ℕ, zero, suc, ◌+◌, Bool, true, false, Option, none, some, inl, inr, ◌==◌, Bool-cases, ◌≡◌, refl,
}
use cpp_gossip.Queue.Order.{LimitedBroadcast}
use cpp_gossip.Queue.Select.{In, select-cases}
use cpp_gossip.Queue.{Sweep, free_bytes, send, drain, tiers}

abbrev pub AfterDrain : (Sweep → Type 0) → Option (Sweep × Bool) → Type 0
AfterDrain P none = Unit
AfterDrain P (some (s, fin)) = P s

abbrev pub AfterTiers : (Sweep → Type 0) → Option Sweep → Type 0
AfterTiers P none = Unit
AfterTiers P (some s) = P s

module _ (overhead limit transmit_limit : ℕ) (P : Sweep → Type 0)
    (keeps : (x : LimitedBroadcast) (s : Sweep)
      → In x s.queue.tq
      → P s
      → P (send transmit_limit x s)) where
  pub drain-kept :
      (fuel tier : ℕ) (s : Sweep)
      → P s
      → AfterDrain P (drain fuel overhead limit transmit_limit tier s)
  unfolding drain
  drain-kept zero tier s p = tt
  drain-kept (suc fuel) tier s p =
      let free = free_bytes overhead limit s.bytes_used in
      elim (Bool-cases (free == 0)) [
        | inl full ↦ rw (full, drain) p
        | inr room ↦ elim (select-cases tier free s.queue.tq) [
          | inl empty ↦ rw (room, empty, drain) p
          | inr (x, e, i, spec) ↦
              rw (room, e, drain) (drain-kept fuel tier (send transmit_limit x s) (keeps x s i p))
        ]
      ]

  pub next_tier :
      (rounds fuel tier : ℕ) (s : Sweep) (o : Option (Sweep × Bool))
      → drain fuel overhead limit transmit_limit tier s ≡ o
      → AfterDrain P o
      → ((s' : Sweep)
          → P s'
          → AfterTiers P (tiers rounds fuel overhead limit transmit_limit (tier + 1) s'))
      → AfterTiers P (tiers (suc rounds) fuel overhead limit transmit_limit tier s)
  unfolding tiers
  next_tier rounds fuel tier s none e p go = rw (e, tiers) tt
  next_tier rounds fuel tier s (some (s', true)) e p go = rw (e, tiers) p
  next_tier rounds fuel tier s (some (s', false)) e p go = rw (e, tiers) (go s' p)

  pub tiers-kept :
      (rounds fuel tier : ℕ) (s : Sweep)
      → P s
      → AfterTiers P (tiers rounds fuel overhead limit transmit_limit tier s)
  unfolding tiers
  tiers-kept zero fuel tier s p = p
  tiers-kept (suc rounds) fuel tier s p =
      next_tier rounds fuel tier s _ refl (drain-kept fuel tier s p)
        (tiers-kept rounds fuel (tier + 1))
