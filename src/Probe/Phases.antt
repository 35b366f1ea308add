-- ===== src/Probe/Phases.antt =====
-- What holds of the threads of a probe wherever the prober waits, and the steps of the prober itself.
use cpp_gossip.Base.{
  ◌≡◌, refl, subst, Bool, true, false, not, List, [], ◌∷◌, ◌++◌, ◌||◌, if◌then◌else◌, any, arith,
}
use cpp_gossip.Config.{Config}
use cpp_gossip.Node.{NodeState}
use cpp_gossip.Probe.{ProbeResult, answered, tcp_only, suspects, stuck}
use cpp_gossip.Probe.Threads.{
  Prober, selecting, reading, falling_back, over, ProbeTimer, armed, fired, stopped, TcpPing,
  unstarted, running, told, Probing, stop_timer, ask_others, suspicion, conclude,
}

abbrev pub has_ack : List Bool → Bool
has_ack = any (λ complete. complete)

abbrev pub has_expiry : List Bool → Bool
has_expiry = any not

pub has_ack-snoc : (l : List Bool) (b : Bool) → has_ack (l ++ b ∷ []) ≡ has_ack l || b
has_ack-snoc [] b = ground arith
has_ack-snoc (x ∷ l) b = ground (arith, has_ack-snoc l b)

pub has_expiry-snoc : (l : List Bool) (b : Bool) → has_expiry (l ++ b ∷ []) ≡ has_expiry l || not b
has_expiry-snoc [] b = ground arith
has_expiry-snoc (x ∷ l) b = ground (arith, has_expiry-snoc l b)

module _ (c : Config) (node : NodeState) where
  -- The message of the timer, or that of the ack, is on its way to the prober.
  abbrev pub IsDue : ProbeTimer → List Bool → Type 0
  IsDue armed acks = Unit {0}
  IsDue fired acks = has_expiry acks ≡ true
  IsDue stopped acks = has_ack acks ≡ true

  -- The fallback pipe holds what the ping over TCP has written.
  abbrev pub IsTold : TcpPing → List Bool → Type 0
  IsTold unstarted fallback = (c.allow_tcp_ping ≡ false) × (fallback ≡ [])
  IsTold running fallback = (c.allow_tcp_ping ≡ true) × (fallback ≡ [])
  IsTold (told b) fallback = (c.allow_tcp_ping ≡ true) × (fallback ≡ b ∷ [])

  -- What each end of a probe says.
  abbrev pub IsVerdict : ProbeResult → Probing → Type 0
  IsVerdict answered s = s.registered ≡ false
  IsVerdict tcp_only s = (s.timer ≡ fired) × (s.tcp ≡ told true)
  IsVerdict (suspects x) s =
      (suspects x ≡ suspicion c node)
      × (s.timer ≡ fired)
      × (s.tcp ≡ told false)
      × (c.allow_tcp_ping ≡ true)
  IsVerdict stuck s = ⊥

  abbrev pub IsPhase : Prober → Probing → Type 0
  IsPhase selecting s = (s.tcp ≡ unstarted) × (s.fallback ≡ []) × IsDue s.timer s.acks
  IsPhase reading s = IsTold s.tcp s.fallback × IsDue s.timer s.acks
  IsPhase falling_back s = IsTold s.tcp s.fallback × (s.timer ≡ fired)
  IsPhase (over v) s = IsVerdict v s

  pub record IsProbing (s : Probing) : Type 0 where
    pub phase : IsPhase s.prober s
    pub acked : has_ack s.acks ≡ true → s.registered ≡ false
    pub lapsed : has_expiry s.acks ≡ true → s.timer ≡ fired
    pub replying : s.answering ≡ true → s.registered ≡ false

  IsDue-snoc : (t : ProbeTimer) (l : List Bool) (b : Bool) → IsDue t l → IsDue t (l ++ b ∷ [])
  IsDue-snoc armed l b h = tt
  IsDue-snoc fired l b h = ground (arith, h, has_expiry-snoc l b)
  IsDue-snoc stopped l b h = ground (arith, h, has_ack-snoc l b)

  pub IsDue-back :
      (t : ProbeTimer) (rest : List Bool) → IsDue t (false ∷ rest) → IsDue t (rest ++ false ∷ [])
  IsDue-back armed rest h = tt
  IsDue-back fired rest h = ground (arith, has_expiry-snoc rest false)
  IsDue-back stopped rest h = ground (arith, h, has_ack-snoc rest false)

  pub IsDue-reply :
      (t : ProbeTimer) (l : List Bool) → IsDue t l → IsDue (stop_timer t) (l ++ true ∷ [])
  IsDue-reply armed l h = ground (arith, has_ack-snoc l true)
  IsDue-reply fired l h = IsDue-snoc fired l true h
  IsDue-reply stopped l h = IsDue-snoc stopped l true h

  IsTold-start :
      (fallback : List Bool)
      → fallback ≡ []
      → IsTold (if c.allow_tcp_ping then running else unstarted) fallback
  IsTold-start fallback e = by_setting c.allow_tcp_ping refl
    where
      by_setting :
          (b : Bool) → c.allow_tcp_ping ≡ b → IsTold (if b then running else unstarted) fallback
      by_setting true a = (a, e)
      by_setting false a = (a, e)

  -- What was read from the fallback pipe is what the ping has told.
  pub IsTold-read :
      (t : TcpPing) (fallback : List Bool) (connected : Bool) (rest : List Bool)
      → IsTold t fallback
      → fallback ≡ connected ∷ rest
      → (c.allow_tcp_ping ≡ true) × (t ≡ told connected)
  IsTold-read unstarted fallback connected rest h e = cc
  IsTold-read running fallback connected rest h e = cc
  IsTold-read (told b) fallback connected rest h e = ground (arith, h, e)

  pub at-IsPhase : (s : Probing) {p : Prober} → s.prober ≡ p → IsProbing s → IsPhase p s
  at-IsPhase s e i = subst (λ p. IsPhase p s) e i.phase

  pub heard_first-IsProbing :
      (s : Probing) (rest : List Bool)
      → s.acks ≡ true ∷ rest
      → IsProbing s
      → IsProbing (record s { prober = over answered; acks = rest })
  heard_first-IsProbing s rest a i = record {
    phase = ground (arith, a, i.acked);
    acked = ground (arith, a, i.acked);
    lapsed = ground (arith, a, i.lapsed);
    replying = i.replying;
  }

  pub ask_others-IsProbing :
      (s : Probing)
      → s.fallback ≡ []
      → IsDue s.timer s.acks
      → (has_ack s.acks ≡ true → s.registered ≡ false)
      → (has_expiry s.acks ≡ true → s.timer ≡ fired)
      → (s.answering ≡ true → s.registered ≡ false)
      → IsProbing (ask_others c node s)
  ask_others-IsProbing s f d a l r = record {
    phase = (IsTold-start s.fallback f, d);
    acked = a;
    lapsed = l;
    replying = r;
  }

  pub missed-IsProbing :
      (s : Probing) (rest : List Bool)
      → s.prober ≡ reading
      → s.acks ≡ false ∷ rest
      → IsProbing s
      → IsProbing (record s { prober = falling_back; acks = rest })
  missed-IsProbing s rest e a i = record {
    phase = ((at-IsPhase s e i).0, ground (arith, a, i.lapsed));
    acked = ground (arith, a, i.acked);
    lapsed = ground (arith, a, i.lapsed);
    replying = i.replying;
  }

  abbrev concluding : Bool → Probing → Probing
  concluding true s = record s { prober = over tcp_only }
  concluding false s = record s { prober = over (suspicion c node); registered = false }

  pub conclude-allowed :
      (connected : Bool) (s : Probing)
      → c.allow_tcp_ping ≡ true
      → concluding connected s ≡ conclude c node connected s
  conclude-allowed true s a = ground (arith, a)
  conclude-allowed false s a = ground (arith, a)

  pub concluding-IsProbing :
      (connected : Bool) (s : Probing)
      → s.timer ≡ fired
      → s.tcp ≡ told connected
      → c.allow_tcp_ping ≡ true
      → (has_ack s.acks ≡ true → s.registered ≡ false)
      → (has_expiry s.acks ≡ true → s.timer ≡ fired)
      → (s.answering ≡ true → s.registered ≡ false)
      → IsProbing (concluding connected s)
  concluding-IsProbing true s late t a k l r = record {
    phase = (late, t);
    acked = k;
    lapsed = l;
    replying = r;
  }
  concluding-IsProbing false s late t a k l r = record {
    phase = (refl, late, t, a);
    acked = λ h. refl;
    lapsed = l;
    replying = λ h. refl;
  }

  pub found-IsProbing :
      (s : Probing) → IsProbing s → IsProbing (record s { registered = false; answering = true })
  found-IsProbing s i = record {
    phase = by_prober s.prober i.phase;
    acked = λ h. refl;
    lapsed = i.lapsed;
    replying = λ h. refl;
  }
    where
      by_verdict :
          (v : ProbeResult)
          → IsVerdict v s
          → IsVerdict v (record s { registered = false; answering = true })
      by_verdict answered h = refl
      by_verdict tcp_only h = h
      by_verdict (suspects x) h = h
      by_verdict stuck h = h

      by_prober :
          (p : Prober) → IsPhase p s → IsPhase p (record s { registered = false; answering = true })
      by_prober selecting h = h
      by_prober reading h = h
      by_prober falling_back h = h
      by_prober (over v) h = by_verdict v h
