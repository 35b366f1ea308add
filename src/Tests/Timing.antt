-- ===== src/Tests/Timing.antt =====
-- The theorems on timers, suspicions, samples, probes and the schedule.
use cpp_gossip.Base.{
  zero, suc, ℕ, ◌≡◌, refl, false, none, some, List, [], ◌∷◌, arith, length, String, ◌+◌,
}
use cpp_gossip.Base.Int.{pos}
use cpp_gossip.Node.{NodeState, state_alive, state_dead}
use cpp_gossip.Timer.{new_timer, run, stop}
use cpp_gossip.Suspicion.{Suspicion, new_suspicion}
use cpp_gossip.Suspicion.Laws.{IsCounted, confirm_all, newcomers, at_most, confirm_all-newcomers}
use cpp_gossip.Sample.{k_random_nodes, not_other_alive, IsSample, k_random_nodes-IsSample}
use cpp_gossip.Probe.{Choice, probe, IsTarget, probe_ends, Replies}
use cpp_gossip.Tests.{whole, config_a}

program : Unit {0}
unfolding new_timer run stop new_suspicion
program = tt

abbrev under_suspicion : Suspicion
under_suspicion = new_suspicion "c" 2 (pos 10) (pos 60) 0 "b" 0

under_suspicion-IsCounted : IsCounted under_suspicion
unfolding program
under_suspicion-IsCounted = record {
  counted = omega arith;
  bounded = omega arith;
  small = omega arith;
}

-- `d` confirms twice, and `e` once.
abbrev confirmations : List (ℕ × String)
confirmations = (5, "d") ∷ (6, "d") ∷ (7, "e") ∷ []

confirm_all-newcomers_example :
    (confirm_all whole confirmations under_suspicion).n
    ≡ at_most
        (under_suspicion.k + 1)
        (under_suspicion.n + newcomers under_suspicion.confirmations confirmations)
confirm_all-newcomers_example =
    confirm_all-newcomers whole confirmations under_suspicion under_suspicion-IsCounted

abbrev node_b : NodeState
node_b = record {
  n = record { name = "b"; addr = "127.0.0.1"; port = 6666 };
  incarnation = 1;
  state = state_alive;
  state_change = 101;
}

abbrev node_c : NodeState
node_c = record node_b { n = record (node_b.n) { name = "c" }; state = state_dead }

k_random_nodes-IsSample_example :
    IsSample 1
      (node_c ∷ node_b ∷ [])
      (not_other_alive config_a)
      (k_random_nodes 1 (node_c ∷ node_b ∷ []) (not_other_alive config_a) (λ i. i))
k_random_nodes-IsSample_example =
    k_random_nodes-IsSample 1 (node_c ∷ node_b ∷ []) (not_other_alive config_a) (λ i. i)

-- A `random_shuffle` that moves nothing.
abbrev unmoved : ℕ → List ℕ → List ℕ
unmoved i l = l

unmoved-length : (i : ℕ) (l : List ℕ) → length (unmoved i l) ≡ length l
unmoved-length i l = refl

abbrev cells : ℕ → NodeState
cells zero = node_c
cells (suc p) = node_b

probe_ends_example :
    (c : Choice) × (probe unmoved "a" cells 2 (0 ∷ 1 ∷ []) ≡ some c)
    × IsTarget unmoved "a" cells c.target
    × (length c.nodes ≡ 2)
probe_ends_example = probe_ends unmoved "a" cells unmoved-length 2 (0 ∷ 1 ∷ [])

abbrev silent : Replies
silent = record { first = none; second = false; tcp = false }

-- The first two attempts fail.
