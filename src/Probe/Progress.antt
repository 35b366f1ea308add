-- ===== src/Probe/Progress.antt =====
-- A probe comes to an end: no run of the threads of `probeNode` is long, and none of them waits for
-- ever while the ping over TCP is allowed.
use cpp_gossip.Base.{
  ℕ, ◌⊎◌, ◌+◌, ◌*◌, ◌≤◌, ◌<◌, ◌≡◌, refl, subst, Bool, true, false, List, [], ◌∷◌, ◌++◌, ◌&&◌,
  if◌then◌else◌, arith, Bool-cases, inl, inr,
}
use cpp_gossip.Config.{Config}
use cpp_gossip.Node.{NodeState}
use cpp_gossip.Probe.{tcp_only}
use cpp_gossip.Probe.Threads.{
  Prober, selecting, reading, falling_back, over, ProbeTimer, armed, fired, stopped, TcpPing,
  unstarted, running, told, Probing, put_ack, put_nack, put_fallback, stop_timer, ask_others,
  suspicion, conclude, Step, heard_first, put_back, timed_out, heard_second, missed, concluded,
  nack_found, nacked, found, replied, expired, pinged, threw, Steps, here, next, steps_taken,
  probing,
}
use cpp_gossip.Probe.Phases.{IsDue, IsTold, IsPhase}
use cpp_gossip.Probe.Verdict.{Steps-IsProbing}

abbrev waits_left : Prober → ℕ
waits_left selecting = 5
waits_left reading = 2
waits_left falling_back = 1
waits_left (over v) = 0

abbrev timer_left : ProbeTimer → ℕ
timer_left armed = 1
timer_left fired = 0
timer_left stopped = 0

abbrev ping_left : TcpPing → ℕ
ping_left unstarted = 2
ping_left running = 1
ping_left (told b) = 0

abbrev pub is_over : Prober → Bool
is_over selecting = false
is_over reading = false
is_over falling_back = false
is_over (over v) = true

abbrev once : Bool → ℕ
once true = 1
once false = 0

abbrev unless : Bool → ℕ
unless true = 0
unless false = 1

-- A bound of the steps that are left.
abbrev budget : Probing → ℕ
budget s =
    waits_left s.prober
    + timer_left s.timer
    + ping_left s.tcp
    + 2 * once s.registered
    + once s.answering
    + 2 * s.nacks
    + once s.nacking
    + unless s.ended

ping_left-bound : (t : TcpPing) → ping_left t ≤ 2
ping_left-bound unstarted = ground arith
ping_left-bound running = ground arith
ping_left-bound (told b) = ground arith

timer_left-stop : (t : ProbeTimer) → timer_left (stop_timer t) ≤ timer_left t
timer_left-stop armed = ground arith
timer_left-stop fired = ground arith
timer_left-stop stopped = ground arith

module _ (c : Config) (node : NodeState) where
  ended-budget : (s : Probing) → budget (record s { ended = true }) ≤ budget s
  ended-budget s = by_ended s.ended
    where
      by_ended : (e : Bool) → budget (record s { ended = true }) ≤ budget (record s { ended = e })
      by_ended true = ground arith
      by_ended false = ground arith

  put_ack-budget : (b : Bool) (p : Prober) (s : Probing) → budget (put_ack b p s) ≤ budget s
  put_ack-budget b selecting s = ground arith
  put_ack-budget b reading s = ground arith
  put_ack-budget b falling_back s = ground arith
  put_ack-budget b (over v) s = ended-budget s

  put_nack-budget : (p : Prober) (s : Probing) → budget (put_nack p s) ≤ budget s
  put_nack-budget selecting s = ground arith
  put_nack-budget reading s = ground arith
  put_nack-budget falling_back s = ground arith
  put_nack-budget (over v) s = ended-budget s

  put_fallback-budget :
      (b : Bool) (p : Prober) (s : Probing) → budget (put_fallback b p s) ≤ budget s
  put_fallback-budget b selecting s = ground arith
  put_fallback-budget b reading s = ground arith
  put_fallback-budget b falling_back s = ground arith
  put_fallback-budget b (over v) s = ended-budget s

  conclude-budget :
      (b : Bool) (s : Probing) → s.prober ≡ falling_back → budget (conclude c node b s) < budget s
  conclude-budget b s e = by_test (c.allow_tcp_ping && b)
    where
      by_test :
          (k : Bool)
          → budget (
              if k
              then record s { prober = over tcp_only }
              else record s { prober = over (suspicion c node); registered = false })
            < budget s
      by_test true = ground (arith, e)
      by_test false = ground (arith, e)

  asked-budget : (s : Probing) → s.prober ≡ selecting → budget (ask_others c node s) < budget s
  asked-budget s e =
      ground (arith, e, ping_left-bound (if c.allow_tcp_ping then running else unstarted))

  Step-budget : {s t : Probing} → Step c node s t → budget t < budget s
  Step-budget {s} (heard_first rest u e a) = ground (arith, e)
  Step-budget {s} (put_back rest u e a) = asked-budget (record s { acks = rest ++ false ∷ [] }) e
  Step-budget {s} (timed_out u e a) = asked-budget s e
  Step-budget {s} (heard_second rest u e a) = ground (arith, e)
  Step-budget {s} (missed rest u e a) = ground (arith, e)
  Step-budget {s} (concluded b rest u e f) = conclude-budget b (record s { fallback = rest }) e
  Step-budget {s} (found u r a k) = ground (arith, r, a)
  Step-budget {s} (nack_found left u r a k n) = ground (arith, n, k)
  Step-budget {s} (nacked u a) =
      ground (arith, a, put_nack-budget s.prober (record s { nacking = false }))
  Step-budget {s} (replied u a) = ground (
    arith,
    a,
    timer_left-stop s.timer,
    put_ack-budget true s.prober (record s { answering = false; timer = stop_timer s.timer }),
  )
  Step-budget {s} (expired u a) =
      ground (arith, a, put_ack-budget false s.prober (record s { timer = fired }))
  Step-budget {s} (pinged b u r) =
      ground (arith, r, put_fallback-budget b s.prober (record s { tcp = told b }))
  Step-budget {s} (threw u r) = ground (arith, u)

  Steps-budget : {s t : Probing} (r : Steps c node s t) → steps_taken c node r + budget t ≤ budget s
  unfolding steps_taken
  Steps-budget here = ground arith
  Steps-budget (next r step) = omega (arith, Steps-budget r, Step-budget step)

  abbrev pub Goes : Probing → Type 0
  Goes s = (t : Probing) × Step c node s t

  select-Goes :
      (s : Probing) (l : List Bool) → s.ended ≡ false → s.prober ≡ selecting → s.acks ≡ l → Goes s
  select-Goes s [] u e a = (_, timed_out u e a)
  select-Goes s (true ∷ l) u e a = (_, heard_first l u e a)
  select-Goes s (false ∷ l) u e a = (_, put_back l u e a)

  read-Goes :
      (s : Probing) (t : ProbeTimer) (l : List Bool)
      → s.ended ≡ false
      → s.prober ≡ reading
      → s.timer ≡ t
      → s.acks ≡ l
      → IsDue c node t l
      → Goes s
  read-Goes s t (true ∷ l) u e k a h = (_, heard_second l u e a)
  read-Goes s t (false ∷ l) u e k a h = (_, missed l u e a)
  read-Goes s armed [] u e k a h = (_, expired u k)
  read-Goes s fired [] u e k a h = cc
  read-Goes s stopped [] u e k a h = cc

  fall_back-Goes :
      (s : Probing) (t : TcpPing)
      → c.allow_tcp_ping ≡ true
      → s.ended ≡ false
      → s.prober ≡ falling_back
      → s.tcp ≡ t
      → IsTold c node t s.fallback
      → Goes s
  fall_back-Goes s unstarted allowed u e k h = cc
  fall_back-Goes s running allowed u e k h = (_, pinged true u k)
  fall_back-Goes s (told b) allowed u e k h = (_, concluded b [] u e h.1)

  progress :
      (s : Probing) (p : Prober)
      → c.allow_tcp_ping ≡ true
      → s.ended ≡ false
      → s.prober ≡ p
      → IsPhase c node p s
      → (is_over p ≡ true) ⊎ Goes s
  progress s selecting allowed u e h = inr (select-Goes s s.acks u e refl)
  progress s reading allowed u e h = inr (read-Goes s s.timer s.acks u e refl refl h.1)
  progress s falling_back allowed u e h = inr (fall_back-Goes s s.tcp allowed u e refl h.0)
  progress s (over v) allowed u e h = inl refl

  -- While the ping over TCP is allowed, a run of the threads of a probe has at most eleven steps,
  -- and two more for each nack message that comes, and where it stops, the process has ended or the
  -- prober has come back: in every other state a thread can go on.
  pub Steps-ends :
      {nacks : ℕ} {s : Probing} (r : Steps c node (probing nacks) s)
      → c.allow_tcp_ping ≡ true
      → (steps_taken c node r ≤ 11 + 2 * nacks)
        × ((s.ended ≡ true) ⊎ (is_over s.prober ≡ true) ⊎ Goes s)
  Steps-ends {s} r allowed = (
    omega (arith, Steps-budget r),
    elim (Bool-cases s.ended) [
      | inl e ↦ inl e
      | inr u ↦ inr (progress s s.prober allowed u refl (Steps-IsProbing c node r).phase)
    ],
  )

  -- What keeps the prober at its read of the fallback pipe.
  record IsHung (s : Probing) : Type 0 where
    waits : s.prober ≡ falling_back
    alone : s.tcp ≡ unstarted
    dry : s.fallback ≡ []

  put_ack-IsHung :
      (b : Bool) (p : Prober) (s : Probing) → p ≡ falling_back → IsHung s → IsHung (put_ack b p s)
  put_ack-IsHung b selecting s e h = cc
  put_ack-IsHung b reading s e h = cc
  put_ack-IsHung b falling_back s e h = record { waits = h.waits; alone = h.alone; dry = h.dry }
  put_ack-IsHung b (over v) s e h = cc

  put_nack-IsHung : (p : Prober) (s : Probing) → p ≡ falling_back → IsHung s → IsHung (put_nack p s)
  put_nack-IsHung selecting s e h = cc
  put_nack-IsHung reading s e h = cc
  put_nack-IsHung falling_back s e h = h
  put_nack-IsHung (over v) s e h = cc

  Step-IsHung : {s t : Probing} → Step c node s t → IsHung s → IsHung t
  Step-IsHung {s} (heard_first rest u e a) h = cc (e, h.waits)
  Step-IsHung {s} (put_back rest u e a) h = cc (e, h.waits)
  Step-IsHung {s} (timed_out u e a) h = cc (e, h.waits)
  Step-IsHung {s} (heard_second rest u e a) h = cc (e, h.waits)
  Step-IsHung {s} (missed rest u e a) h = cc (e, h.waits)
  Step-IsHung {s} (concluded b rest u e f) h = cc (f, h.dry)
  Step-IsHung {s} (found u r a k) h = record { waits = h.waits; alone = h.alone; dry = h.dry }
  Step-IsHung {s} (nack_found left u r a k n) h = record {
    waits = h.waits;
    alone = h.alone;
    dry = h.dry;
  }
  Step-IsHung {s} (nacked u a) h =
      put_nack-IsHung s.prober (record s { nacking = false }) h.waits
        (record { waits = h.waits; alone = h.alone; dry = h.dry })
  Step-IsHung {s} (replied u a) h =
      put_ack-IsHung true s.prober (record s { answering = false; timer = stop_timer s.timer })
        h.waits (record { waits = h.waits; alone = h.alone; dry = h.dry })
  Step-IsHung {s} (expired u a) h =
      put_ack-IsHung false s.prober (record s { timer = fired }) h.waits
        (record { waits = h.waits; alone = h.alone; dry = h.dry })
  Step-IsHung {s} (pinged b u r) h = cc (r, h.alone)
  Step-IsHung {s} (threw u r) h = cc (r, h.alone)

  Steps-IsHung : {s t : Probing} → IsHung s → Steps c node s t → IsHung t
  Steps-IsHung h here = h
  Steps-IsHung h (next r step) = Step-IsHung step (Steps-IsHung h r)

  unstarted_of :
      (t : TcpPing) (fallback : List Bool)
      → c.allow_tcp_ping ≡ false
      → IsTold c node t fallback
      → (t ≡ unstarted) × (fallback ≡ [])
  unstarted_of unstarted fallback f h = (refl, h.1)
  unstarted_of running fallback f h = cc
  unstarted_of (told b) fallback f h = cc

  -- While the ping over TCP is not allowed, a prober that has come to its read of the fallback pipe
  -- stays there, whatever the other threads do: the probe returns never, and suspects nobody.
  pub Steps-hangs :
      {nacks : ℕ} {s t : Probing}
      → c.allow_tcp_ping ≡ false
      → Steps c node (probing nacks) s
      → s.prober ≡ falling_back
      → Steps c node s t
      → t.prober ≡ falling_back
  Steps-hangs {s} f r e more =
      let h = subst (λ p. IsPhase c node p s) e (Steps-IsProbing c node r).phase in
      let (alone, dry) = unstarted_of s.tcp s.fallback f h.0 in
      (Steps-IsHung (record { waits = e; alone = alone; dry = dry }) more).waits
