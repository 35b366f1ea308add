-- ===== src/Suspicion/Laws.antt =====
-- What a confirmation does to a suspicion.
use cpp_gossip.Base.{
  List, [], ◌∷◌, suc, any, same, if◌then◌else◌, refl, Bool-cases, inl, inr, ap, ℕ, ◌+◌, ◌≤◌, ◌<◌,
  ◌≡◌, ◌↔◌, String, true, false, ◌||◌, ltb, arith, length,
}
use cpp_gossip.Base.Int.{pos, ltb_ℤ}
use cpp_gossip.Double.{Double}
use cpp_gossip.Timer.{stop}
use cpp_gossip.Suspicion.{
  Suspicion, refused, fires, note_confirmation, reschedule, confirm, has_confirmed, remaining,
}

-- Nobody is counted twice, and no more than one confirmation beyond the expected `k` is taken.
pub record IsCounted (s : Suspicion) : Type 0 where
  pub counted : length s.confirmations ≡ s.n + 1
  pub bounded : s.n ≤ s.k + 1
  pub small : s.k < 256

module _ (d : Double) (now : ℕ) (from : String) (s : Suspicion) where
  -- A confirmation leaves the callback alone.
  pub confirm-callback :
      ((confirm d now from s).0.node ≡ s.node)
      × ((confirm d now from s).0.suspected_at ≡ s.suspected_at)
  unfolding confirm note_confirmation reschedule
  confirm-callback = ground arith

  -- Whoever confirmed will be refused next time.
  pub confirm-counted :
      (let s' = (confirm d now from s).0 in (ltb s'.k s'.n || has_confirmed from s') ≡ true)
  unfolding confirm note_confirmation reschedule
  confirm-counted = ground arith

  pub confirm-IsCounted : IsCounted s → IsCounted (confirm d now from s).0
  unfolding confirm note_confirmation reschedule
  confirm-IsCounted c = ground arith

  pub confirm-refused :
      (confirm d now from s).1 ≡ refused → (ltb s.k s.n || has_confirmed from s) ≡ true
  unfolding confirm note_confirmation reschedule
  confirm-refused = ground arith

  -- A confirmation is refused exactly if more than `k` are there or its sender has confirmed. It calls
  -- the callback exactly if it is not refused, the timer runs, and no time remains after it.
  pub confirm-verdict :
      ((confirm d now from s).1 ≡ refused ↔ ((ltb s.k s.n || has_confirmed from s) ≡ true))
      × ((confirm d now from s).1 ≡ fires ↔ (
          ((ltb s.k s.n || has_confirmed from s) ≡ false)
          × (s.timer.running ≡ true)
          × (ltb_ℤ (pos 0) (remaining d now (note_confirmation from s)) ≡ false)))
  unfolding confirm note_confirmation reschedule stop
  confirm-verdict = ground arith

-- Confirmations one after the other, each with the time at which it comes.
unfoldable pub confirm_all : Double → List (ℕ × String) → Suspicion → Suspicion
confirm_all d [] s = s
confirm_all d ((now, from) ∷ xs) s = confirm_all d xs (confirm d now from s).0

-- How many names there are that were not seen before.
abbrev pub newcomers : List String → List (ℕ × String) → ℕ
newcomers seen [] = 0
newcomers seen ((now, from) ∷ xs) =
    if any (λ c. same c from) seen then newcomers seen xs else suc (newcomers (from ∷ seen) xs)

abbrev pub at_most : ℕ → ℕ → ℕ
at_most bound a = if ltb bound a then bound else a

module _ (d : Double) where
  -- When enough are there, all others are refused.
  confirm_all-full : (xs : List (ℕ × String)) (s : Suspicion) → s.k < s.n → confirm_all d xs s ≡ s
  unfolding confirm_all confirm
  confirm_all-full [] s h = refl
  confirm_all-full ((now, from) ∷ xs) s h = ground (arith, confirm_all-full xs s h, h)

  confirm-next :
      (now : ℕ) (from : String) (s : Suspicion)
      → IsCounted s
      → s.n ≤ s.k
      → has_confirmed from s ≡ false
      → (let s' = (confirm d now from s).0 in
          (s'.n ≡ s.n + 1) × (s'.k ≡ s.k) × (s'.confirmations ≡ from ∷ s.confirmations))
  unfolding confirm note_confirmation reschedule
  confirm-next now from s c h e = ground arith

  confirm-old :
      (now : ℕ) (from : String) (s : Suspicion)
      → has_confirmed from s ≡ true
      → (confirm d now from s).0 ≡ s
  unfolding confirm
  confirm-old now from s e = ground arith

  -- However many confirmations come, in whatever order and at whatever times: the suspicion counts each
  -- sender once that had not confirmed before, up to one more than the `k` that are expected. Before,
  -- `n` is one less than the size of the set of those that have confirmed, and at most `k + 1`, and `k`
  -- is below 256.
  pub confirm_all-newcomers :
      (xs : List (ℕ × String)) (s : Suspicion)
      → IsCounted s
      → (confirm_all d xs s).n ≡ at_most (s.k + 1) (s.n + newcomers s.confirmations xs)
  unfolding confirm_all
  confirm_all-newcomers [] s c = ground (arith, c.bounded)
  confirm_all-newcomers ((now, from) ∷ xs) s c = elim (Bool-cases (ltb s.k s.n)) [
    | inl over ↦
        rw (confirm_all-full ((now, from) ∷ xs) s (ground (arith, over)))
          (ground (arith, c.bounded, over))
    | inr more ↦ elim (Bool-cases (has_confirmed from s)) [
      | inl old ↦
          rw (confirm-old now from s old, confirm_all) (rw old (confirm_all-newcomers xs s c))
      | inr new ↦
          let (n, k, l) = confirm-next now from s c (ground (arith, more)) new in
          let rest =
            confirm_all-newcomers xs (confirm d now from s).0 (confirm-IsCounted d now from s c) in
          rw new (ground (arith, n, k, l, rest, ap (λ seen. newcomers seen xs) l))
    ]
  ]
