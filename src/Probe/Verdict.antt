-- ===== src/Probe/Verdict.antt =====
-- What the end of a probe says, in every order of the steps.
use cpp_gossip.Base.{ℕ, true, ◌≡◌, refl, subst, false, [], ◌∷◌, ◌++◌, arith}
use cpp_gossip.Config.{Config}
use cpp_gossip.Node.{NodeState}
use cpp_gossip.Probe.{ProbeResult}
use cpp_gossip.Probe.Threads.{
  over, Probing, Step, heard_first, put_back, timed_out, heard_second, missed, concluded,
  nack_found, nacked, found, replied, expired, pinged, threw, Steps, here, next, probing,
}
use cpp_gossip.Probe.Phases.{
  has_ack-snoc, IsDue, IsVerdict, IsProbing, IsDue-back, IsTold-read, at-IsPhase,
  heard_first-IsProbing, ask_others-IsProbing, missed-IsProbing, conclude-allowed,
  concluding-IsProbing, found-IsProbing,
}
use cpp_gossip.Probe.Writes.{
  nack-IsProbing, put_nack-IsProbing, ended-IsPhase, replied-IsProbing, expired-IsProbing,
  pinged-IsProbing,
}

module _ (c : Config) (node : NodeState) where
  pub Step-IsProbing : (s t : Probing) → Step c node s t → IsProbing c node s → IsProbing c node t
  Step-IsProbing s t (heard_first rest u e a) i = heard_first-IsProbing c node s rest a i
  Step-IsProbing s t (put_back rest u e a) i =
      let h = at-IsPhase c node s e i in
      ask_others-IsProbing c node (record s { acks = rest ++ false ∷ [] }) h.1
        (IsDue-back c node s.timer rest (subst (IsDue c node s.timer) a h.2))
        (λ k. ground (arith, a, i.acked, k, has_ack-snoc rest false))
        (λ k. ground (arith, a, i.lapsed)) i.replying
  Step-IsProbing s t (timed_out u e a) i =
      let h = at-IsPhase c node s e i in
      ask_others-IsProbing c node s h.1 h.2 i.acked i.lapsed i.replying
  Step-IsProbing s t (heard_second rest u e a) i = heard_first-IsProbing c node s rest a i
  Step-IsProbing s t (missed rest u e a) i = missed-IsProbing c node s rest e a i
  Step-IsProbing s t (concluded b rest u e f) i =
      let h = at-IsPhase c node s e i in
      let (allowed, it) = IsTold-read c node s.tcp s.fallback b rest h.0 f in
      subst (IsProbing c node) (conclude-allowed c node b (record s { fallback = rest }) allowed) (
        concluding-IsProbing c node b (record s { fallback = rest }) h.1 it allowed i.acked i.lapsed
          i.replying)
  Step-IsProbing s t (found u r a k) i = found-IsProbing c node s i
  Step-IsProbing s t (nack_found left u r a k n) i = nack-IsProbing c node s true left i
  Step-IsProbing s t (nacked u a) i = put_nack-IsProbing c node s.prober s refl i
  Step-IsProbing s t (replied u a) i = replied-IsProbing c node s a i
  Step-IsProbing s t (expired u a) i = expired-IsProbing c node s a i
  Step-IsProbing s t (pinged b u r) i = pinged-IsProbing c node b s.prober s refl r i.phase i
  Step-IsProbing s t (threw u r) i = record {
    phase = ended-IsPhase c node s.prober s i.phase;
    acked = i.acked;
    lapsed = i.lapsed;
    replying = i.replying;
  }

  probing-IsProbing : (nacks : ℕ) → IsProbing c node (probing nacks)
  probing-IsProbing nacks = record {
    phase = (refl, refl, tt);
    acked = λ h. ground (arith, h);
    lapsed = λ h. ground (arith, h);
    replying = λ h. ground (arith, h);
  }

  pub Steps-IsProbing :
      {nacks : ℕ} {s : Probing} → Steps c node (probing nacks) s → IsProbing c node s
  Steps-IsProbing {nacks} here = probing-IsProbing nacks
  Steps-IsProbing (next r step) = Step-IsProbing _ _ step (Steps-IsProbing r)

  -- In every state that the threads of a probe reach, if the prober has closed its pipes, then: when an
  -- ack answered it, the handler has been taken out of the table; when the ping over TCP alone got
  -- through, the timer had fired and the ping had told true; when it suspects the node, it does so at
  -- the incarnation the node had, the timer had fired, the ping over TCP was allowed, and had told
  -- false. There is no other end.
  pub Steps-IsVerdict :
      {nacks : ℕ} (s : Probing) (v : ProbeResult)
      → Steps c node (probing nacks) s
      → s.prober ≡ over v
      → IsVerdict c node v s
  Steps-IsVerdict s v r e = at-IsPhase c node s e (Steps-IsProbing r)
