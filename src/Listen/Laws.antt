-- ===== src/Listen/Laws.antt =====
-- What the loops do with what comes in.
use cpp_gossip.Base.{
  ℕ, ◌+◌, ◌-◌, ◌≤◌, ◌≡◌, refl, true, false, List, [], ◌∷◌, ◌++◌, Bool-cases, inl, inr, arith,
  length, ltb, ap, sym, subst, map, zero, suc, ◌<◌,
}
use cpp_gossip.Double.{Double}
use cpp_gossip.Message.{Broadcast}
use cpp_gossip.Member.{Member, Outcome, done, blocked, crashed, Env}
use cpp_gossip.Handoff.{
  Handoff, MsgHandoff, SockAddr, hand_over, handle_com_broadcast, handle_all, handle_broadcast,
  get_next_message,
}
use cpp_gossip.Listen.{
  Happening, came, select_back, handler_round, handle_taken, packet_handler, go_on, with_envs,
}

-- A packet in the pipe for each message in the queues.
abbrev pub IsAwake : Handoff → Type 0
IsAwake h = length h.high + length h.low ≤ h.woken

hand_over-IsAwake :
    (depth : ℕ) (from : SockAddr) (bc : Broadcast) (h : Handoff)
    → IsAwake h
    → IsAwake (hand_over depth from bc h)
unfolding hand_over
hand_over-IsAwake depth from bc h a = ground (arith, a)

handle_com_broadcast-IsAwake :
    (depth : ℕ) (from : SockAddr) (bcs : List Broadcast) (h : Handoff)
    → IsAwake h
    → IsAwake (handle_com_broadcast depth from bcs h)
unfolding handle_com_broadcast
handle_com_broadcast-IsAwake depth from [] h a = a
handle_com_broadcast-IsAwake depth from (bc ∷ bcs) h a =
    handle_com_broadcast-IsAwake depth from bcs _ (hand_over-IsAwake depth from bc h a)

module _ (byte_size : Broadcast → ℕ) (d : Double) (depth : ℕ) where
  -- The messages that are left when a handler does not come back.
  abbrev pub unhandled : List (Env × MsgHandoff) → Member → List MsgHandoff
  unhandled [] m = []
  unhandled ((env, msg) ∷ msgs) m = elim (handle_broadcast byte_size d env msg.b m) [
    | done m' ↦ unhandled msgs m'
    | blocked m' ↦ map (λ (x : Env × MsgHandoff). x.1) msgs
    | crashed m' ↦ map (λ (x : Env × MsgHandoff). x.1) msgs
  ]

  -- The messages are handled in their order; those that are not are still in the queues.
  abbrev pub IsHandled : List (Env × MsgHandoff) → Member → ℕ → Outcome × Handoff → Type 0
  IsHandled msgs m woken r =
      (r.0 ≡ handle_all byte_size d msgs m)
      × (r.1.high ++ r.1.low ≡ unhandled msgs m)
      × (r.1.woken ≡ woken)

  map-with_envs :
      (envs : ℕ → Env) (l : List MsgHandoff)
      → map (λ (x : Env × MsgHandoff). x.1) (with_envs envs l) ≡ l
  unfolding with_envs
  map-with_envs envs [] = refl
  map-with_envs envs (x ∷ l) = ap (λ k. x ∷ k) (map-with_envs (λ i. envs (suc i)) l)

  -- After one message, of the state `m`, whose handler has the outcome `o`.
  go_on-IsHandled :
      (env : Env) (msg : MsgHandoff) (m : Member) (o : Outcome) (envs : ℕ → Env) (h : Handoff)
      (f : Member → Handoff → Outcome × Handoff)
      → handle_broadcast byte_size d env msg.b m ≡ o
      → ((m' : Member) → IsHandled (with_envs envs (h.high ++ h.low)) m' h.woken (f m' h))
      → IsHandled
          ((env, msg) ∷ with_envs envs (h.high ++ h.low))
          m
          h.woken
          (go_on byte_size d depth f (o, h))
  unfolding handle_all
  go_on-IsHandled env msg m (done m') envs h f e more = rw (e, handle_all, unhandled) (more m')
  go_on-IsHandled env msg m (blocked m') envs h f e more =
      rw (e, handle_all, unhandled) (refl, sym (map-with_envs envs (h.high ++ h.low)), refl)
  go_on-IsHandled env msg m (crashed m') envs h f e more =
      rw (e, handle_all, unhandled) (refl, sym (map-with_envs envs (h.high ++ h.low)), refl)

  handle_taken-IsHandled :
      (fuel : ℕ) (envs : ℕ → Env) (m : Member) (high low : List MsgHandoff) (woken : ℕ)
      → length high + length low < fuel
      → IsHandled (with_envs envs (high ++ low)) m woken (
          handle_taken byte_size d depth fuel envs m
            (record { high = high; low = low; woken = woken }))
  unfolding handle_taken get_next_message with_envs handle_all
  handle_taken-IsHandled zero envs m high low woken enough = absurd (omega (arith, enough))
  handle_taken-IsHandled (suc fuel) envs m [] [] woken enough = (refl, refl, refl)
  handle_taken-IsHandled (suc fuel) envs m [] (x ∷ low) woken enough =
      go_on-IsHandled (envs 0) x m _ (λ i. envs (suc i))
        (record { high = []; low = low; woken = woken })
        (handle_taken byte_size d depth fuel (λ i. envs (suc i))) refl
        (λ m'.
          handle_taken-IsHandled fuel (λ i. envs (suc i)) m' [] low woken (omega (arith, enough)))
  handle_taken-IsHandled (suc fuel) envs m (x ∷ high) low woken enough =
      go_on-IsHandled (envs 0) x m _ (λ i. envs (suc i))
        (record { high = high; low = low; woken = woken })
        (handle_taken byte_size d depth fuel (λ i. envs (suc i))) refl
        (λ m'.
          handle_taken-IsHandled fuel (λ i. envs (suc i)) m' high low woken (omega (arith, enough)))

  round_asleep :
      (envs : ℕ → Env) (m : Member) (high low : List MsgHandoff) (woken : ℕ)
      → length high + length low ≤ woken
      → woken ≡ 0
      → IsHandled
          (with_envs envs (high ++ low))
          m
          (woken - 1)
          (done m, record { high = high; low = low; woken = woken })
  unfolding with_envs handle_all
  round_asleep envs m [] [] woken a e = (refl, refl, omega (arith, e))
  round_asleep envs m (x ∷ high) low woken a e = absurd (omega arith)
  round_asleep envs m [] (x ∷ low) woken a e = absurd (omega arith)

  -- If the pipe holds a packet for each message in the queues, a round of `packetHandler` handles all
  -- of them, those of high priority first and the latest first, up to one whose handler does not come
  -- back, and leaves the rest in the queues.
  pub handler_round-IsHandled :
      (envs : ℕ → Env) (m : Member) (h : Handoff)
      → IsAwake h
      → IsHandled
          (with_envs envs (h.high ++ h.low))
          m
          (h.woken - 1)
          (handler_round byte_size d depth envs m h)
  unfolding handler_round
  handler_round-IsHandled envs m h a = elim (Bool-cases (ltb 0 h.woken)) [
    | inl more ↦
        rw (more, handler_round)
          (handle_taken-IsHandled (length h.high + length h.low + 1) envs m h.high h.low
            (h.woken - 1) (omega arith))
    | inr none_left ↦
        rw (none_left, handler_round)
          (round_asleep envs m h.high h.low h.woken a (ground (arith, none_left)))
  ]

  then_ended :
      (envs : ℕ → Env) (rest : List Happening) (o : Outcome) (h : Handoff)
      → go_on byte_size d depth
          (packet_handler byte_size d depth (select_back true envs ∷ rest))
          (o, h)
        ≡ (o, h)
  unfolding packet_handler
  then_ended envs rest (done m) h = refl
  then_ended envs rest (blocked m) h = refl
  then_ended envs rest (crashed m) h = refl

  -- A compound message that comes in is handled at the next time that `Select` comes back, as far as
  -- the queues had room: when the pipe holds a packet for each message that waits before, then the
  -- broadcasts are handled with those, one after the other, the alive messages first and the latest
  -- first, up to one whose handler does not come back. Those after it stay in the queues; if there is
  -- none such, both are empty. One packet has been read, and a shutdown ends the loop with nothing more
  -- done.
  pub packet_handler-next :
      (from : SockAddr) (bcs : List Broadcast) (envs envs' : ℕ → Env) (rest : List Happening)
      (m : Member) (h : Handoff)
      → IsAwake h
      → (let h' = handle_com_broadcast depth from bcs h in
          IsHandled (with_envs envs (h'.high ++ h'.low)) m (h'.woken - 1) (
            packet_handler byte_size d depth
              (came from bcs ∷ select_back false envs ∷ select_back true envs' ∷ rest)
              m
              h))
  unfolding packet_handler
  packet_handler-next from bcs envs envs' rest m h a =
      let h' = handle_com_broadcast depth from bcs h in
      let r = handler_round byte_size d depth envs m h' in
      subst (IsHandled (with_envs envs (h'.high ++ h'.low)) m (h'.woken - 1))
        (sym (then_ended envs' rest r.0 r.1))
        (handler_round-IsHandled envs m h' (handle_com_broadcast-IsAwake depth from bcs h a))
