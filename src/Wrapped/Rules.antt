-- ===== src/Wrapped/Rules.antt =====
-- What holds after a wrapped call, for any continuation: both of its ways out.
use cpp_gossip.Base.{◌≡◌, String, Bool, true, false, if◌then◌else◌, List, ◌∷◌}
use cpp_gossip.Base.Int.{ℤ}
use cpp_gossip.Wrapped.{
  Act, Answer, System, Result, Io, ◌>>=◌, ◌>>◌, is_negative, fail, checked, checked_value,
  checked_unit, pure, returned, thrown, corrupted, aborted, logged,
}

module _ {ℓ κ} {B : Type ℓ} (sys : System) (P : Result B × List Act → Type κ) (text : String)
    (c : Act) (h : List Act) where
  abbrev pub Throws : Type κ
  Throws = let e = sys.strerror (sys.answer (c ∷ h)).errno in P (thrown e, logged text e ∷ c ∷ h)

  -- The wrapper once it is known whether the value is negative.
  abbrev judged : Bool → Io Answer
  judged b = if b then fail sys text (sys.answer (c ∷ h)).errno else pure (sys.answer (c ∷ h))

  pub after_checked :
      (k : Answer → Io B)
      → Throws
      → P (k (sys.answer (c ∷ h)) (c ∷ h))
      → P ((checked sys text c >>= k) h)
  after_checked k t p =
      elim (is_negative (sys.answer (c ∷ h)).value) as (λ b. P ((judged b >>= k) (c ∷ h))) [
        | true ↦ t
        | false ↦ p
      ]

  -- A call that is known to fail.
  pub after_failed :
      (k : Answer → Io B)
      → is_negative (sys.answer (c ∷ h)).value ≡ true
      → Throws
      → P ((checked sys text c >>= k) h)
  after_failed k e t = by_value (is_negative (sys.answer (c ∷ h)).value) e
    where
      by_value : (b : Bool) → b ≡ true → P ((judged b >>= k) (c ∷ h))
      by_value true e = t
      by_value false e = cc

  pub after_value :
      (k : ℤ → Io B)
      → Throws
      → P (k (sys.answer (c ∷ h)).value (c ∷ h))
      → P ((checked_value sys text c >>= k) h)
  after_value k t p =
      elim (is_negative (sys.answer (c ∷ h)).value)
        as (λ b. P ((judged b >>= (λ a. pure a.value) >>= k) (c ∷ h))) [ true ↦ t | false ↦ p ]

  pub after_unit :
      (k : Unit {0} → Io B) → Throws → P (k tt (c ∷ h)) → P ((checked_unit sys text c >>= k) h)
  after_unit k t p =
      elim (is_negative (sys.answer (c ∷ h)).value)
        as (λ b. P ((judged b >> pure tt >>= k) (c ∷ h))) [ true ↦ t | false ↦ p ]

-- What holds after `m` and then `k`, when `Q` holds after `m`.
pub after_bind {ℓ κ} :
    {A B : Type ℓ} (P : Result B × List Act → Type κ) (Q : Result A × List Act → Type κ) (m : Io A)
    (k : A → Io B) (h : List Act)
    → Q (m h)
    → ((a : A) (h' : List Act) → Q (returned a, h') → P (k a h'))
    → ((e : String) (h' : List Act) → Q (thrown e, h') → P (thrown e, h'))
    → ((h' : List Act) → Q (corrupted, h') → P (corrupted, h'))
    → ((h' : List Act) → Q (aborted, h') → P (aborted, h'))
    → P ((m >>= k) h)
after_bind {A} {B} P Q m k h q back throws corrupts aborts = go (m h).0 (m h).1 q
  where
    go : (r : Result A) (h' : List Act) → Q (r, h') → P (((λ _. (r, h')) >>= k) h)
    go (returned a) h' q = back a h' q
    go (thrown e) h' q = throws e h' q
    go corrupted h' q = corrupts h' q
    go aborted h' q = aborts h' q
