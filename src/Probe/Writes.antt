-- ===== src/Probe/Writes.antt =====
-- The steps of a probe that write to its pipes: those of `handleAck`, the timer, and the ping over TCP.
use cpp_gossip.Base.{ℕ, ◌≡◌, refl, sym, subst, Bool, true, false, List, [], ◌∷◌, ◌++◌, arith}
use cpp_gossip.Config.{Config}
use cpp_gossip.Node.{NodeState}
use cpp_gossip.Probe.{ProbeResult, answered, tcp_only, suspects, stuck}
use cpp_gossip.Probe.Threads.{
  Prober, selecting, reading, falling_back, over, ProbeTimer, armed, fired, TcpPing, unstarted,
  running, told, Probing, put_nack, put_ack, put_fallback, stop_timer,
}
use cpp_gossip.Probe.Phases.{
  has_ack, has_expiry, has_ack-snoc, has_expiry-snoc, IsTold, IsVerdict, IsPhase, IsProbing,
  IsDue-reply,
}

module _ (c : Config) (node : NodeState) where
  unphased :
      (s : Probing) {p : Prober} → s.prober ≡ p → IsPhase c node p s → IsPhase c node s.prober s
  unphased s e h = subst (λ p. IsPhase c node p s) (sym e) h

  -- The phase that a write to the ack pipe has to lead to.
  abbrev Lands : Bool → Prober → Probing → Type 0
  Lands b selecting s = IsPhase c node selecting (record s { acks = s.acks ++ b ∷ [] })
  Lands b reading s = IsPhase c node reading (record s { acks = s.acks ++ b ∷ [] })
  Lands b falling_back s = IsPhase c node falling_back (record s { acks = s.acks ++ b ∷ [] })
  Lands b (over v) s = IsVerdict c node v s

  pub ended-IsPhase :
      (p : Prober) (s : Probing) → IsPhase c node p s → IsPhase c node p (record s { ended = true })
  ended-IsPhase selecting s h = h
  ended-IsPhase reading s h = h
  ended-IsPhase falling_back s h = h
  ended-IsPhase (over answered) s h = h
  ended-IsPhase (over tcp_only) s h = h
  ended-IsPhase (over (suspects x)) s h = h
  ended-IsPhase (over stuck) s h = h

  -- The nacks, and the end of the process, matter to no phase.
  nack-IsPhase :
      (p : Prober) (s : Probing) (nacking : Bool) (nacks : ℕ) (ended : Bool)
      → IsPhase c node p s
      → IsPhase c node p (record s { nacking = nacking; nacks = nacks; ended = ended })
  nack-IsPhase selecting s b n e h = h
  nack-IsPhase reading s b n e h = h
  nack-IsPhase falling_back s b n e h = h
  nack-IsPhase (over answered) s b n e h = h
  nack-IsPhase (over tcp_only) s b n e h = h
  nack-IsPhase (over (suspects x)) s b n e h = h
  nack-IsPhase (over stuck) s b n e h = h

  pub nack-IsProbing :
      (s : Probing) (nacking : Bool) (nacks : ℕ)
      → IsProbing c node s
      → IsProbing c node (record s { nacking = nacking; nacks = nacks })
  nack-IsProbing s b n i = record {
    phase = nack-IsPhase s.prober s b n s.ended i.phase;
    acked = i.acked;
    lapsed = i.lapsed;
    replying = i.replying;
  }

  pub put_nack-IsProbing :
      (p : Prober) (s : Probing)
      → s.prober ≡ p
      → IsProbing c node s
      → IsProbing c node (put_nack p (record s { nacking = false }))
  put_nack-IsProbing selecting s e i = nack-IsProbing s false s.nacks i
  put_nack-IsProbing reading s e i = nack-IsProbing s false s.nacks i
  put_nack-IsProbing falling_back s e i = nack-IsProbing s false s.nacks i
  put_nack-IsProbing (over v) s e i = record {
    phase = nack-IsPhase s.prober s false s.nacks true i.phase;
    acked = i.acked;
    lapsed = i.lapsed;
    replying = i.replying;
  }

  put_ack-IsProbing :
      (b : Bool) (p : Prober) (s : Probing)
      → s.prober ≡ p
      → Lands b p s
      → (has_ack (s.acks ++ b ∷ []) ≡ true → s.registered ≡ false)
      → (has_expiry (s.acks ++ b ∷ []) ≡ true → s.timer ≡ fired)
      → (s.answering ≡ true → s.registered ≡ false)
      → IsProbing c node (put_ack b p s)
  put_ack-IsProbing b selecting s e h a l r = record {
    phase = unphased (record s { acks = s.acks ++ b ∷ [] }) e h;
    acked = a;
    lapsed = l;
    replying = r;
  }
  put_ack-IsProbing b reading s e h a l r = record {
    phase = unphased (record s { acks = s.acks ++ b ∷ [] }) e h;
    acked = a;
    lapsed = l;
    replying = r;
  }
  put_ack-IsProbing b falling_back s e h a l r = record {
    phase = unphased (record s { acks = s.acks ++ b ∷ [] }) e h;
    acked = a;
    lapsed = l;
    replying = r;
  }
  put_ack-IsProbing b (over v) s e h a l r = record {
    phase = unphased (record s { ended = true }) e (ended-IsPhase (over v) s h);
    acked = λ k. a (ground (arith, k, has_ack-snoc s.acks b));
    lapsed = λ k. l (ground (arith, k, has_expiry-snoc s.acks b));
    replying = r;
  }

  -- A verdict stands when the timer is stopped, or fires while it is armed.
  IsVerdict-timer :
      (v : ProbeResult) (s : Probing) (t : ProbeTimer) (answering : Bool)
      → (s.timer ≡ fired → t ≡ fired)
      → IsVerdict c node v s
      → IsVerdict c node v (record s { timer = t; answering = answering })
  IsVerdict-timer answered s t b f h = h
  IsVerdict-timer tcp_only s t b f h = (f h.0, h.1)
  IsVerdict-timer (suspects x) s t b f h = (h.0, f h.1, h.2, h.3)
  IsVerdict-timer stuck s t b f h = h

  replied-Lands :
      (p : Prober) (s : Probing)
      → IsPhase c node p s
      → Lands true p (record s { answering = false; timer = stop_timer s.timer })
  replied-Lands selecting s h = (h.0, h.1, IsDue-reply c node s.timer s.acks h.2)
  replied-Lands reading s h = (h.0, IsDue-reply c node s.timer s.acks h.1)
  replied-Lands falling_back s h = (h.0, ground (arith, h.1))
  replied-Lands (over v) s h =
      IsVerdict-timer v s (stop_timer s.timer) false (λ e. ground (arith, e)) h

  pub replied-IsProbing :
      (s : Probing)
      → s.answering ≡ true
      → IsProbing c node s
      → IsProbing c node
          (put_ack true s.prober (record s { answering = false; timer = stop_timer s.timer }))
  replied-IsProbing s u i =
      put_ack-IsProbing true s.prober _ refl (replied-Lands s.prober s i.phase) (λ k. i.replying u)
        (λ k. ground (arith, i.lapsed, k, has_expiry-snoc s.acks true)) (λ k. i.replying u)

  expired-Lands :
      (p : Prober) (s : Probing)
      → s.timer ≡ armed
      → IsPhase c node p s
      → Lands false p (record s { timer = fired })
  expired-Lands selecting s t h = (h.0, h.1, ground (arith, has_expiry-snoc s.acks false))
  expired-Lands reading s t h = (h.0, ground (arith, has_expiry-snoc s.acks false))
  expired-Lands falling_back s t h = (h.0, refl)
  expired-Lands (over v) s t h = IsVerdict-timer v s fired s.answering (λ e. refl) h

  pub expired-IsProbing :
      (s : Probing)
      → s.timer ≡ armed
      → IsProbing c node s
      → IsProbing c node (put_ack false s.prober (record s { timer = fired }))
  expired-IsProbing s t i =
      put_ack-IsProbing false s.prober _ refl (expired-Lands s.prober s t i.phase)
        (λ k. ground (arith, i.acked, k, has_ack-snoc s.acks false)) (λ k. refl) i.replying

  IsTold-more :
      (t : TcpPing) (fallback : List Bool) (b : Bool)
      → t ≡ running
      → IsTold c node t fallback
      → IsTold c node (told b) (fallback ++ b ∷ [])
  IsTold-more unstarted fallback b e h = cc
  IsTold-more running fallback b e h = ground (arith, h)
  IsTold-more (told a) fallback b e h = cc

  IsVerdict-tcp :
      (v : ProbeResult) (s : Probing) (b : Bool)
      → s.tcp ≡ running
      → IsVerdict c node v s
      → IsVerdict c node v (record s { tcp = told b; ended = true })
  IsVerdict-tcp answered s b e h = h
  IsVerdict-tcp tcp_only s b e h = cc
  IsVerdict-tcp (suspects x) s b e h = cc
  IsVerdict-tcp stuck s b e h = h

  pub pinged-IsProbing :
      (b : Bool) (p : Prober) (s : Probing)
      → s.prober ≡ p
      → s.tcp ≡ running
      → IsPhase c node p s
      → IsProbing c node s
      → IsProbing c node (put_fallback b p (record s { tcp = told b }))
  pinged-IsProbing b selecting s e t h i = cc
  pinged-IsProbing b reading s e t h i = record {
    phase =
        unphased (record s { tcp = told b; fallback = s.fallback ++ b ∷ [] }) e
          (IsTold-more s.tcp s.fallback b t h.0, h.1);
    acked = i.acked;
    lapsed = i.lapsed;
    replying = i.replying;
  }
  pinged-IsProbing b falling_back s e t h i = record {
    phase =
        unphased (record s { tcp = told b; fallback = s.fallback ++ b ∷ [] }) e
          (IsTold-more s.tcp s.fallback b t h.0, h.1);
    acked = i.acked;
    lapsed = i.lapsed;
    replying = i.replying;
  }
  pinged-IsProbing b (over v) s e t h i = record {
    phase = unphased (record s { tcp = told b; ended = true }) e (IsVerdict-tcp v s b t h);
    acked = i.acked;
    lapsed = i.lapsed;
    replying = i.replying;
  }
