-- ===== src/Probe/Rounds.antt =====
-- Successive calls of `probe`, each of which goes on where the one before stopped.
use cpp_gossip.Base.{
  ℕ, zero, suc, ◌+◌, ◌*◌, ◌≤◌, ◌<◌, ◌≡◌, String, false, Option, none, some, List, [], ◌∷◌, length,
  get_or, count, Has, at_head, in_tail, arith, inl, inr,
}
use cpp_gossip.Node.{NodeState}
use cpp_gossip.Probe.{skips, probe}
use cpp_gossip.Probe.Search.{Has-place, probe_loop-Ahead, probe_loop-Found}

module _ (self : String) (cell : ℕ → NodeState) where
  -- The targets of the next calls; call `i` shuffles with `shuffle i`. The nodes are the same in all.
  unfoldable pub probes : (ℕ → ℕ → List ℕ → List ℕ) → ℕ → ℕ → ℕ → List ℕ → List (Option NodeState)
  probes shuffle zero i index nodes = []
  probes shuffle (suc calls) i index nodes = elim (probe (shuffle i) self cell index nodes) [
    | none ↦ []
    | some c ↦ c.target ∷ probes shuffle calls (i + 1) c.probe_index c.nodes
  ]

  module _ (a : ℕ) (wanted : skips self (cell a) ≡ false) where
    module _ (shuffle : ℕ → ℕ → List ℕ → List ℕ) where
      probes-ahead :
          (calls i index pos : ℕ) (nodes : List ℕ)
          → index ≤ pos
          → pos < length nodes
          → get_or nodes pos 0 ≡ a
          → pos < calls + index
          → Has (some (cell a)) (probes shuffle calls i index nodes)
      unfolding probes probe
      probes-ahead zero i index pos nodes before room e left = absurd (omega arith)
      probes-ahead (suc calls) i index pos nodes before room e left =
          let (c, ends, found) =
            probe_loop-Ahead self cell a wanted (shuffle i) (length nodes + 1) 0 index pos nodes
              (omega arith) (omega arith) before room e in
          rw (ends, probes)
            (elim found [
              | inl hit ↦ rw hit at_head
              | inr (kept, upto, on, strictly) ↦ in_tail (
                  probes-ahead calls (i + 1) c.probe_index pos c.nodes upto (rw kept room)
                    (rw kept e) (omega (arith, strictly (omega arith))))
            ])

      probes-found :
          (keeps : (i j : ℕ) (l : List ℕ) → length (shuffle i j l) ≡ length l)
          (moves : (i j : ℕ) (l : List ℕ) (b : ℕ) → count b (shuffle i j l) ≡ count b l)
          (calls i index : ℕ) (nodes : List ℕ)
          → length nodes < calls
          → 2 * length nodes < calls + index
          → Has a nodes
          → Has (some (cell a)) (probes shuffle calls i index nodes)
      unfolding probes probe
      probes-found keeps moves zero i index nodes enough left h = elim enough [ ]
      probes-found keeps moves (suc calls) i index nodes enough left h =
          let (c, ends, found) =
            probe_loop-Found self cell a wanted (shuffle i) (keeps i) (moves i) (length nodes + 1) 0
              index nodes (omega arith) (omega arith) h in
          let some_node : (0 < length nodes) = ground (arith, (Has-place h).1) in
          rw (ends, probes)
            (elim found [
              | inl hit ↦ rw hit at_head
              | inr (inl (pos, upto, room, e, same)) ↦ in_tail (
                  probes-ahead calls (i + 1) c.probe_index pos c.nodes upto room e
                    (omega (arith, same)))
              | inr (inr (kept, on, strictly, bound, within)) ↦ in_tail (
                  rw kept (
                    probes-found keeps moves calls (i + 1) c.probe_index nodes
                      (omega (arith, strictly some_node, bound some_node))
                      (omega (arith, strictly some_node)) h))
            ])

-- Every node that may be probed is probed again and again: of any `2 * n + 1` successive calls,
-- where `n` nodes are known and stay as they are, one has it for its target, wherever the first of
-- them starts. The node is another than the local one, neither dead nor gone, and each
-- `random_shuffle` keeps the length of the vector and how often an element stands in it.
pub probes-reach :
    (self : String) (cell : ℕ → NodeState) (shuffle : ℕ → ℕ → List ℕ → List ℕ)
    → ((i j : ℕ) (l : List ℕ) → length (shuffle i j l) ≡ length l)
    → ((i j : ℕ) (l : List ℕ) (b : ℕ) → count b (shuffle i j l) ≡ count b l)
    → (a i index : ℕ) (nodes : List ℕ) → Has a nodes
    → skips self (cell a) ≡ false
    → Has (some (cell a)) (probes self cell shuffle (2 * length nodes + 1) i index nodes)
probes-reach self cell shuffle keeps moves a i index nodes h wanted =
    probes-found self cell a wanted shuffle keeps moves (2 * length nodes + 1) i index nodes
      (omega arith) (omega arith) h
