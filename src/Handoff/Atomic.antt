-- ===== src/Handoff/Atomic.antt =====
-- The steps of the listening thread against `handle_com_broadcast`, which is one step.
use cpp_gossip.Base.{
  ℕ, ◌+◌, ◌≤◌, ◌<◌, ◌≡◌, refl, sym, ap, subst, Bool, List, [], ◌∷◌, arith, length, inl, inr, ◌∙◌,
  Bool-cases, if◌then◌else◌,
}
use cpp_gossip.Message.{Broadcast}
use cpp_gossip.Handoff.{Handoff, SockAddr, hand_over, handle_com_broadcast}
use cpp_gossip.Handoff.Threads.{
  Listener, outside, looping, Threads, emplace, put, put_next, locked, emplaced, written, unlocked,
  Steps, here, next,
}

abbrev with_packet : Handoff → Handoff
with_packet h = record h { woken = h.woken + 1 }

abbrev told : Handoff × Bool → Handoff
told (h, room) = if room then with_packet h else h

-- A broadcast is put into its queue with a packet, or dropped.
hand_over-emplace :
    (depth : ℕ) (from : SockAddr) (bc : Broadcast) (h : Handoff)
    → (hand_over depth from bc h ≡ told (emplace depth from bc h))
      × ((emplace depth from bc h).0.woken ≡ h.woken)
unfolding emplace hand_over
hand_over-emplace depth from bc h = ground arith

module _ (capacity depth : ℕ) (from : SockAddr) where
  abbrev at : Listener → Handoff → Threads → Threads
  at l h s = record s { listener = l; handoff = h }

  hands_one :
      (bc : Broadcast) (bcs : List Broadcast) (h : Handoff) (s s₀ : Threads)
      → h.woken < capacity
      → Steps capacity depth s₀ (at (looping from (bc ∷ bcs)) h s)
      → Steps capacity depth s₀ (at (looping from bcs) (hand_over depth from bc h) s)
        × ((hand_over depth from bc h).woken ≤ h.woken + 1)
  unfolding put_next
  hands_one bc bcs h s s₀ room r =
      let (handed, same) = hand_over-emplace depth from bc h in
      let (h', fits) = emplace depth from bc h in
      let put_there = next r (emplaced from bc bcs refl) in
      elim (Bool-cases fits) [
        | inl e ↦
            let over : hand_over depth from bc h ≡ with_packet h' =
              handed ∙ ap (λ b. told (h', b)) e in
            let writes =
              subst (λ b. Steps capacity depth s₀ (at (put from bcs b) h' s)) e put_there in
            (
              subst (λ x. Steps capacity depth s₀ (at (looping from bcs) x s)) (sym over)
                  (next writes (written from bcs refl (omega (arith, room, same)))),
              omega (arith, ap (λ (x : Handoff). x.woken) over, same),
            )
        | inr e ↦
            let over : hand_over depth from bc h ≡ h' = handed ∙ ap (λ b. told (h', b)) e in
            (
              subst (λ x. Steps capacity depth s₀ (at (looping from bcs) x s)) (sym over)
                  (subst (λ b. Steps capacity depth s₀ (at (put from bcs b) h' s)) e put_there),
              omega (arith, ap (λ (x : Handoff). x.woken) over, same),
            )
      ]

  hands_all :
      (bcs : List Broadcast) (h : Handoff) (s s₀ : Threads)
      → h.woken + length bcs ≤ capacity
      → Steps capacity depth s₀ (at (looping from bcs) h s)
      → Steps capacity depth s₀ (at (looping from []) (handle_com_broadcast depth from bcs h) s)
  unfolding handle_com_broadcast
  hands_all [] h s s₀ room r = r
  hands_all (bc ∷ bcs) h s s₀ room r =
      let (r', less) = hands_one bc bcs h s s₀ (omega (arith, room)) r in
      hands_all bcs (hand_over depth from bc h) s s₀ (omega (arith, room, less)) r'

  -- If the pipe has room for a packet for each of its broadcasts, a compound message is handed over
  -- without a step of the handler, and what its single steps lead to is what `handle_com_broadcast`
  -- gives.
  pub Steps-handle_com_broadcast :
      (bcs : List Broadcast) (s : Threads)
      → s.listener ≡ outside
      → s.handoff.woken + length bcs ≤ capacity
      → Steps capacity depth s
          (record s { handoff = handle_com_broadcast depth from bcs s.handoff })
  Steps-handle_com_broadcast bcs s e room =
      subst (λ l. Steps capacity depth s (at l (handle_com_broadcast depth from bcs s.handoff) s))
        (sym e)
        (next (hands_all bcs s.handoff s s room (next here (locked from bcs e)))
          (unlocked from refl))
