-- ===== src/Tests/Probes.antt =====
-- Runs of the threads of `probeNode`, and the theorems on them.
use cpp_gossip.Base.{
  string_discrete, List, ◌∷◌, ℕ, zero, suc, ◌+◌, ◌*◌, some, length, Has, at_head, in_tail, ◌≡◌, ◌≤◌,
  ◌⊎◌, ◌↔◌, refl, true, false, [],
}
use cpp_gossip.Config.{Config}
use cpp_gossip.Probe.{answered, tcp_only}
use cpp_gossip.Probe.Threads.{
  falling_back, over, Probing, suspicion, Steps, here, next, probing, steps_taken, timed_out,
  missed, expired, pinged, concluded, found, replied, heard_second,
}
use cpp_gossip.Probe.Phases.{IsVerdict}
use cpp_gossip.Probe.Verdict.{Steps-IsVerdict}
use cpp_gossip.Probe.Progress.{Goes, is_over, Steps-ends, Steps-hangs}
use cpp_gossip.Probe.Rounds.{probes, probes-reach}
use cpp_gossip.Probe.Loose.{is_loose, over-is_loose}
use cpp_gossip.Node.{NodeState, new_node_state, state_alive, state_dead}
use cpp_gossip.Tests.{config_a}

abbrev node_b : NodeState
node_b = new_node_state (record { name = "b"; addr = "127.0.0.1"; port = 6666 }) 1 state_alive 0

abbrev tcp_allowed : Config
tcp_allowed = record config_a { allow_tcp_ping = true }

abbrev tcp_barred : Config
tcp_barred = record config_a { allow_tcp_ping = false }

-- The timer fires, nobody answers, and the ping over TCP fails.
abbrev silent :
    (s : Probing) × Steps tcp_allowed node_b (probing 3) s
    × (s.prober ≡ over (suspicion tcp_allowed node_b))
silent = (
  _,
  next
      (next
        (next (next (next here (timed_out refl refl refl)) (expired refl refl))
          (missed [] refl refl refl))
        (pinged false refl refl))
      (concluded false [] refl refl refl),
  refl,
)

Steps-IsVerdict_example : IsVerdict tcp_allowed node_b (suspicion tcp_allowed node_b) silent.0
Steps-IsVerdict_example =
    Steps-IsVerdict tcp_allowed node_b silent.0 (suspicion tcp_allowed node_b) silent.1 silent.2

Steps-ends_example :
    (steps_taken tcp_allowed node_b silent.1 ≤ 11 + 2 * 3)
    × ((silent.0.ended ≡ true)
        ⊎ (is_over silent.0.prober ≡ true)
        ⊎ Goes tcp_allowed node_b silent.0)
Steps-ends_example = Steps-ends tcp_allowed node_b silent.1 refl

-- An ack that came by another node: the ping over TCP still runs.
abbrev by_another :
    (s : Probing) × Steps tcp_allowed node_b (probing 3) s × (s.prober ≡ over answered)
by_another = (
  _,
  next
      (next (next (next here (timed_out refl refl refl)) (found refl refl refl refl))
        (replied refl refl))
      (heard_second [] refl refl refl),
  refl,
)

over-is_loose_example :
    ((t : Probing) × Steps tcp_allowed node_b by_another.0 t × (t.ended ≡ true))
    ↔ (is_loose by_another.0 ≡ true)
over-is_loose_example = over-is_loose tcp_allowed node_b by_another.0 answered refl by_another.2

-- The ping over TCP gets through, and the table keeps the handler.
abbrev over_tcp :
    (s : Probing) × Steps tcp_allowed node_b (probing 3) s × (s.prober ≡ over tcp_only)
over_tcp = (
  _,
  next
      (next
        (next (next (next here (timed_out refl refl refl)) (expired refl refl))
          (missed [] refl refl refl))
        (pinged true refl refl))
      (concluded true [] refl refl refl),
  refl,
)

over_tcp-registered : over_tcp.0.registered ≡ true
over_tcp-registered = refl

late_ack : (t : Probing) × Steps tcp_allowed node_b over_tcp.0 t × (t.ended ≡ true)
late_ack = (over-is_loose tcp_allowed node_b over_tcp.0 tcp_only refl over_tcp.2).1 refl

-- Nobody answers, and the ping over TCP is barred.
abbrev barred : (s : Probing) × Steps tcp_barred node_b (probing 3) s × (s.prober ≡ falling_back)
barred = (
  _,
  next (next (next here (timed_out refl refl refl)) (expired refl refl)) (missed [] refl refl refl),
  refl,
)

Steps-hangs_example : barred.0.prober ≡ falling_back
Steps-hangs_example = Steps-hangs tcp_barred node_b refl barred.1 barred.2 here

abbrev node_c : NodeState
node_c = new_node_state (record { name = "c"; addr = "127.0.0.1"; port = 6667 }) 1 state_dead 0

-- `c`, which is dead, and `b`.
abbrev cells : ℕ → NodeState
cells zero = node_c
cells (suc p) = node_b

abbrev both : List ℕ
both = 0 ∷ 1 ∷ []

probes-reach_example :
    Has (some node_b) (probes "a" cells (λ i j l. l) (2 * length both + 1) 0 2 both)
unfolding string_discrete
probes-reach_example =
    probes-reach "a" cells (λ i j l. l) (λ i j l. refl) (λ i j l b. refl) 1 0 2 both
      (in_tail at_head) refl
