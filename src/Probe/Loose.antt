-- ===== src/Probe/Loose.antt =====
-- What can still end the process once a probe is over: a write to a pipe that the prober has closed.
use cpp_gossip.Base.{◌≡◌, ◌↔◌, refl, subst, Bool, true, false, ◌||◌, arith, Bool-cases, inl, inr}
use cpp_gossip.Config.{Config}
use cpp_gossip.Node.{NodeState}
use cpp_gossip.Probe.{ProbeResult}
use cpp_gossip.Probe.Threads.{
  Prober, selecting, reading, falling_back, over, ProbeTimer, armed, fired, stopped, TcpPing,
  unstarted, running, told, Probing, put_ack, put_nack, Step, heard_first, put_back, timed_out,
  heard_second, missed, concluded, nack_found, nacked, found, replied, expired, pinged, threw,
  Steps, here, next,
}

abbrev is_armed : ProbeTimer → Bool
is_armed armed = true
is_armed fired = false
is_armed stopped = false

abbrev is_running : TcpPing → Bool
is_running unstarted = false
is_running running = true
is_running (told b) = false

-- Some thread has yet to write, or the table still has the handler.
abbrev pub is_loose : Probing → Bool
is_loose s = s.registered || s.answering || s.nacking || is_running s.tcp || is_armed s.timer

put_ack-over :
    (b : Bool) (p : Prober) (v : ProbeResult) (s : Probing)
    → p ≡ over v
    → (put_ack b p s).ended ≡ true
put_ack-over b selecting v s e = cc
put_ack-over b reading v s e = cc
put_ack-over b falling_back v s e = cc
put_ack-over b (over w) v s e = refl

put_nack-over :
    (p : Prober) (v : ProbeResult) (s : Probing) → p ≡ over v → (put_nack p s).ended ≡ true
put_nack-over selecting v s e = cc
put_nack-over reading v s e = cc
put_nack-over falling_back v s e = cc
put_nack-over (over w) v s e = refl

module _ (c : Config) (node : NodeState) where
  abbrev Ends : Probing → Type 0
  Ends s = (t : Probing) × Steps c node s t × (t.ended ≡ true)

  answering-Ends :
      (s : Probing) (v : ProbeResult)
      → s.ended ≡ false
      → s.prober ≡ over v
      → s.answering ≡ true
      → Ends s
  answering-Ends s v u e a = (_, next here (replied u a), put_ack-over true s.prober v _ e)

  nacking-Ends :
      (s : Probing) (v : ProbeResult)
      → s.ended ≡ false
      → s.prober ≡ over v
      → s.nacking ≡ true
      → Ends s
  nacking-Ends s v u e a = (_, next here (nacked u a), put_nack-over s.prober v _ e)

  registered-Ends :
      (s : Probing) (v : ProbeResult)
      → s.ended ≡ false
      → s.prober ≡ over v
      → s.registered ≡ true
      → Ends s
  registered-Ends s v u e r = elim (Bool-cases s.answering) [
    | inl a ↦ answering-Ends s v u e a
    | inr a ↦ elim (Bool-cases s.nacking) [
      | inl k ↦ nacking-Ends s v u e k
      | inr k ↦
          (_, next (next here (found u r a k)) (replied u refl), put_ack-over true s.prober v _ e)
    ]
  ]

  running-Ends :
      (s : Probing) (t : TcpPing) → s.ended ≡ false → s.tcp ≡ t → is_running t ≡ true → Ends s
  running-Ends s unstarted u e h = cc
  running-Ends s running u e h = (_, next here (threw u e), refl)
  running-Ends s (told b) u e h = cc

  armed-Ends :
      (s : Probing) (v : ProbeResult) (t : ProbeTimer)
      → s.ended ≡ false
      → s.prober ≡ over v
      → s.timer ≡ t
      → is_armed t ≡ true
      → Ends s
  armed-Ends s v armed u e k h = (_, next here (expired u k), put_ack-over false s.prober v _ e)
  armed-Ends s v fired u e k h = cc
  armed-Ends s v stopped u e k h = cc

  loose-Ends :
      (s : Probing) (v : ProbeResult)
      → s.ended ≡ false
      → s.prober ≡ over v
      → is_loose s ≡ true
      → Ends s
  loose-Ends s v u e h = elim (Bool-cases s.registered) [
    | inl r ↦ registered-Ends s v u e r
    | inr r ↦ elim (Bool-cases s.answering) [
      | inl a ↦ answering-Ends s v u e a
      | inr a ↦ elim (Bool-cases s.nacking) [
        | inl n ↦ nacking-Ends s v u e n
        | inr n ↦ elim (Bool-cases (is_running s.tcp)) [
          | inl k ↦ running-Ends s s.tcp u refl k
          | inr k ↦ armed-Ends s v s.timer u e refl (ground (arith, h, r, a, n, k))
        ]
      ]
    ]
  ]

  -- A probe that is over, with nothing loose, has no step.
  quiet :
      {s t : Probing} (v : ProbeResult)
      → s.prober ≡ over v
      → is_loose s ≡ false
      → Step c node s t
      → ⊥
  quiet {s} v e h (heard_first rest u p a) = cc
  quiet {s} v e h (put_back rest u p a) = cc
  quiet {s} v e h (timed_out u p a) = cc
  quiet {s} v e h (heard_second rest u p a) = cc
  quiet {s} v e h (missed rest u p a) = cc
  quiet {s} v e h (concluded b rest u p f) = cc
  quiet {s} v e h (found u r a k) = ground (arith, h, r)
  quiet {s} v e h (nack_found left u r a k n) = ground (arith, h, r)
  quiet {s} v e h (nacked u a) = ground (arith, h, a)
  quiet {s} v e h (replied u a) = ground (arith, h, a)
  quiet {s} v e h (expired u a) = ground (arith, h, a)
  quiet {s} v e h (pinged b u r) = ground (arith, h, r)
  quiet {s} v e h (threw u r) = ground (arith, h, r)

  quiet-here :
      {s t : Probing} (v : ProbeResult)
      → s.prober ≡ over v
      → is_loose s ≡ false
      → Steps c node s t
      → t ≡ s
  quiet-here v e h here = refl
  quiet-here {s} {t} v e h (next r step) =
      absurd (quiet v e h (subst (λ x. Step c node x t) (quiet-here v e h r) step))

  -- Once the prober has closed its pipes, with whatever result, and the process still runs: the
  -- threads can come to end it, by a write to a closed pipe or an exception of the ping, exactly if
  -- the table still has the handler of the probe, or it is about to be called, for an ack or for a
  -- nack, or the ping over TCP still runs, or the timer is still armed.
  pub over-is_loose :
      (s : Probing) (v : ProbeResult)
      → s.ended ≡ false
      → s.prober ≡ over v
      → ((t : Probing) × Steps c node s t × (t.ended ≡ true)) ↔ (is_loose s ≡ true)
  over-is_loose s v u e = (
    λ (t, r, k). elim (Bool-cases (is_loose s)) [ inl h ↦ h | inr h ↦ cc (quiet-here v e h r) ],
    loose-Ends s v u e,
  )
