-- ===== src/Probe/Threads.antt =====
-- One run of `probeNode` of src/memberlist/state.cpp with the threads around it: the one that probes,
-- the one of `packetListen` in `handleAck`, the timer of `setProbePipes`, and the thread of the ping
-- over TCP. A step of a thread is what it does up to its next wait.
use cpp_gossip.Base.{ℕ, suc, ◌≡◌, Bool, true, false, List, [], ◌∷◌, ◌++◌, ◌&&◌, if◌then◌else◌}
use cpp_gossip.Config.{Config}
use cpp_gossip.Node.{NodeState}
use cpp_gossip.Probe.{ProbeResult, answered, tcp_only, suspects}

-- Where the prober waits: at its `Select` on the ack pipe, at its read of that, or at its read of the
-- fallback pipe; or it has closed the pipes, and come back.
pub data Prober : Type 0 where
  selecting : Prober
  reading : Prober
  falling_back : Prober
  over : ProbeResult → Prober

pub data ProbeTimer : Type 0 where
  armed : ProbeTimer
  fired : ProbeTimer
  stopped : ProbeTimer

-- The thread of the ping over TCP, and what it has written.
pub data TcpPing : Type 0 where
  unstarted : TcpPing
  running : TcpPing
  told : Bool → TcpPing

-- `acks` and `fallback` are what the pipes hold, the oldest first: for an ack message, its `Complete`.
-- `registered` says whether `ackHandlers` has the handler, `answering` whether `handleAck` has taken it
-- and not yet called it, `nacking` whether `handleNack` has found it and not yet called it, `nacks` how
-- many nack messages for the probe are still to come, and `ended` whether an exception that no thread
-- catches ends the process.
pub record Probing : Type 0 where
  pub prober : Prober
  pub acks : List Bool
  pub fallback : List Bool
  pub registered : Bool
  pub answering : Bool
  pub nacking : Bool
  pub nacks : ℕ
  pub timer : ProbeTimer
  pub tcp : TcpPing
  pub ended : Bool

-- A write to the ack pipe or the fallback pipe: `Write` throws if the pipe is closed.
abbrev pub put_ack : Bool → Prober → Probing → Probing
put_ack complete (over v) s = record s { ended = true }
put_ack complete selecting s = record s { acks = s.acks ++ complete ∷ [] }
put_ack complete reading s = record s { acks = s.acks ++ complete ∷ [] }
put_ack complete falling_back s = record s { acks = s.acks ++ complete ∷ [] }

abbrev pub put_fallback : Bool → Prober → Probing → Probing
put_fallback connected (over v) s = record s { ended = true }
put_fallback connected selecting s = record s { fallback = s.fallback ++ connected ∷ [] }
put_fallback connected reading s = record s { fallback = s.fallback ++ connected ∷ [] }
put_fallback connected falling_back s = record s { fallback = s.fallback ++ connected ∷ [] }

-- A write to the nack pipe, which nobody reads; it has room for the nacks of a probe.
abbrev pub put_nack : Prober → Probing → Probing
put_nack (over v) s = record s { ended = true }
put_nack selecting s = s
put_nack reading s = s
put_nack falling_back s = s

abbrev pub stop_timer : ProbeTimer → ProbeTimer
stop_timer armed = stopped
stop_timer fired = fired
stop_timer stopped = stopped

module _ (c : Config) (node : NodeState) where
  -- The prober asks other nodes, and starts the ping over TCP if that is allowed.
  abbrev pub ask_others : Probing → Probing
  ask_others s = record s {
    prober = reading;
    tcp = if c.allow_tcp_ping then running else unstarted;
  }

  abbrev pub suspicion : ProbeResult
  suspicion =
      suspects (record { incarnation = node.incarnation; node = node.n.name; from = c.name })

  -- After the read of the fallback pipe: only a suspicion takes the handler out of the table.
  abbrev pub conclude : Bool → Probing → Probing
  conclude connected s =
      if c.allow_tcp_ping && connected
      then record s { prober = over tcp_only }
      else record s { prober = over suspicion; registered = false }

  pub data Step (s : Probing) : Probing → Type 0 where
    heard_first :
        (rest : List Bool)
        → s.ended ≡ false
        → s.prober ≡ selecting
        → s.acks ≡ true ∷ rest
        → Step s (record s { prober = over answered; acks = rest })
    put_back :
        (rest : List Bool)
        → s.ended ≡ false
        → s.prober ≡ selecting
        → s.acks ≡ false ∷ rest
        → Step s (ask_others (record s { acks = rest ++ false ∷ [] }))
    timed_out : s.ended ≡ false → s.prober ≡ selecting → s.acks ≡ [] → Step s (ask_others s)
    heard_second :
        (rest : List Bool)
        → s.ended ≡ false
        → s.prober ≡ reading
        → s.acks ≡ true ∷ rest
        → Step s (record s { prober = over answered; acks = rest })
    missed :
        (rest : List Bool)
        → s.ended ≡ false
        → s.prober ≡ reading
        → s.acks ≡ false ∷ rest
        → Step s (record s { prober = falling_back; acks = rest })
    concluded :
        (connected : Bool) (rest : List Bool)
        → s.ended ≡ false
        → s.prober ≡ falling_back
        → s.fallback ≡ connected ∷ rest
        → Step s (conclude connected (record s { fallback = rest }))
    found :
        s.ended ≡ false
        → s.registered ≡ true
        → s.answering ≡ false
        → s.nacking ≡ false
        → Step s (record s { registered = false; answering = true })
    nack_found :
        (left : ℕ)
        → s.ended ≡ false
        → s.registered ≡ true
        → s.answering ≡ false
        → s.nacking ≡ false
        → s.nacks ≡ suc left
        → Step s (record s { nacking = true; nacks = left })
    nacked :
        s.ended ≡ false
        → s.nacking ≡ true
        → Step s (put_nack s.prober (record s { nacking = false }))
    replied :
        s.ended ≡ false
        → s.answering ≡ true
        → Step s
            (put_ack true s.prober (record s { answering = false; timer = stop_timer s.timer }))
    expired :
        s.ended ≡ false
        → s.timer ≡ armed
        → Step s (put_ack false s.prober (record s { timer = fired }))
    pinged :
        (connected : Bool)
        → s.ended ≡ false
        → s.tcp ≡ running
        → Step s (put_fallback connected s.prober (record s { tcp = told connected }))
    threw : s.ended ≡ false → s.tcp ≡ running → Step s (record s { ended = true })

  pub data Steps (s : Probing) : Probing → Type 0 where
    here : Steps s s
    next : {t u : Probing} → Steps s t → Step t u → Steps s u

  unfoldable pub steps_taken : {s t : Probing} → Steps s t → ℕ
  steps_taken here = 0
  steps_taken (next r step) = suc (steps_taken r)

-- After `setProbePipes` and the sends, with so many nack messages to come.
abbrev pub probing : ℕ → Probing
probing nacks = record {
  prober = selecting;
  acks = [];
  fallback = [];
  registered = true;
  answering = false;
  nacking = false;
  nacks = nacks;
  timer = armed;
  tcp = unstarted;
  ended = false;
}
