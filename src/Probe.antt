-- ===== src/Probe.antt =====
-- `probe` and `probeNode` of src/memberlist/state.cpp: which node is probed, what is sent, and how a
-- probe ends. `shuffle` is `random_shuffle`, at the round of the search.
pub mod Loose
pub mod Phases
pub mod Progress
pub mod Rounds
pub mod Search
pub mod Threads
pub mod Verdict
pub mod Writes
use cpp_gossip.Base.{
  ℕ, zero, suc, ◌+◌, ◌<◌, ◌≡◌, ◌↔◌, refl, String, Bool, true, false, ◌||◌, Option, none, some, List,
  [], ◌∷◌, map, same, leb, if◌then◌else◌, length, get_or, arith, Bool-cases, inl, inr,
}
use cpp_gossip.Config.{Config}
use cpp_gossip.Node.{Node, NodeState, dead_or_left, is_alive}
use cpp_gossip.Message.{MessageData, Suspect, gen_ping, gen_indirect_ping, gen_suspect_msg}

-- The probed node, if any, the new `probeIndex`, and the vector as it was shuffled.
pub record Choice : Type 0 where
  pub target : Option NodeState
  pub probe_index : ℕ
  pub nodes : List ℕ

abbrev pub skips : String → NodeState → Bool
skips self st = same st.n.name self || dead_or_left st

module _ (shuffle : ℕ → List ℕ → List ℕ) (self : String) (cell : ℕ → NodeState) where
  -- The loop of `START`; `none` says that the fuel ran out.
  unfoldable pub probe_loop : ℕ → ℕ → ℕ → List ℕ → Option Choice
  probe_loop zero num_check index nodes = none
  probe_loop (suc fuel) num_check index nodes = elim (leb (length nodes) num_check) [
    | true ↦ some (record { target = none; probe_index = index; nodes = nodes })
    | false ↦ elim (leb (length nodes) index) [
      | true ↦ probe_loop fuel (num_check + 1) 0 (shuffle num_check nodes)
      | false ↦ elim (skips self (cell (get_or nodes index 0))) [
        | true ↦ probe_loop fuel (num_check + 1) (index + 1) nodes
        | false ↦ some (record {
          target = some (cell (get_or nodes index 0));
          probe_index = index + 1;
          nodes = nodes;
        })
      ]
    ]
  ]

  unfoldable pub probe : ℕ → List ℕ → Option Choice
  probe index nodes = probe_loop (length nodes + 1) 0 index nodes

  -- The target is another node, and none that is dead or gone.
  abbrev pub IsTarget : Option NodeState → Type 0
  IsTarget none = Unit
  IsTarget (some st) = skips self st ≡ false

  module _ (keeps : (i : ℕ) (l : List ℕ) → length (shuffle i l) ≡ length l) where
    -- The result, which the rest of the search gives.
    abbrev Ends : Option Choice → ℕ → Type 0
    Ends o n = (c : Choice) × (o ≡ some c) × IsTarget c.target × (length c.nodes ≡ n)

    probe_loop-Ends :
        (fuel num_check index : ℕ) (nodes : List ℕ)
        → length nodes < fuel + num_check
        → 0 < fuel
        → Ends (probe_loop fuel num_check index nodes) (length nodes)
    unfolding probe_loop
    probe_loop-Ends zero num_check index nodes h pos = elim pos [ ]
    probe_loop-Ends (suc fuel) num_check index nodes h pos =
        elim (Bool-cases (leb (length nodes) num_check)) [
          | inl over ↦
              rw (over, probe_loop)
                (record { target = none; probe_index = index; nodes = nodes }, refl, tt, refl)
          | inr more ↦ elim (Bool-cases (leb (length nodes) index)) [
            | inl wrap ↦
                rw (more, wrap, probe_loop, ← keeps num_check nodes)
                  (probe_loop-Ends fuel (num_check + 1) 0 (shuffle num_check nodes)
                    (omega (arith, keeps num_check nodes)) (ground arith))
            | inr at ↦ elim (Bool-cases (skips self (cell (get_or nodes index 0)))) [
              | inl skip ↦
                  rw (more, at, skip, probe_loop)
                    (probe_loop-Ends fuel (num_check + 1) (index + 1) nodes (omega arith)
                      (ground arith))
              | inr target ↦
                  rw (more, at, target, probe_loop)
                    (
                      record {
                        target = some (cell (get_or nodes index 0));
                        probe_index = index + 1;
                        nodes = nodes;
                      },
                      refl,
                      target,
                      refl,
                    )
            ]
          ]
        ]

    -- The search ends after at most as many rounds as there are nodes, for any `random_shuffle` that
    -- keeps their number; and a node that it chooses is neither the local node nor dead or gone.
    pub probe_ends :
        (index : ℕ) (nodes : List ℕ)
        → (c : Choice) × (probe index nodes ≡ some c)
          × IsTarget c.target
          × (length c.nodes ≡ length nodes)
    unfolding probe
    probe_ends index nodes =
        probe_loop-Ends (length nodes + 1) 0 index nodes (omega arith) (omega arith)

-- What the probing node hears: the ack message that is there within `ProbeTimeout`, the one that the
-- read after it gets if there was none, and whether the ping over TCP came back.
pub record Replies : Type 0 where
  pub first : Option Bool
  pub second : Bool
  pub tcp : Bool

pub data ProbeResult : Type 0 where
  answered tcp_only stuck : ProbeResult
  suspects : Suspect → ProbeResult

-- A message `Complete == false` is put back, and read once more.
abbrev pub second_read : Replies → Bool
second_read r = elim r.first [ none ↦ r.second | some complete ↦ complete ]

abbrev pub first_complete : Replies → Bool
first_complete r = elim r.first [ none ↦ false | some complete ↦ complete ]

-- How `probeNode` ends. Nobody writes to the pipe that it reads if TCP pings are not allowed.
unfoldable pub probe_result : Config → NodeState → Replies → ProbeResult
probe_result c node r =
    if first_complete r
    then answered
    else if second_read r
    then answered
    else if c.allow_tcp_ping
    then (if r.tcp
        then tcp_only
        else suspects
            (record { incarnation = node.incarnation; node = node.n.name; from = c.name }))
    else stuck

-- What `probeNode` sends at first, and to the nodes that it asks for help.
unfoldable pub first_sends : Config → ℕ → NodeState → List (Node × MessageData)
first_sends c seq node =
    let ping = gen_ping seq node.n.name c.advertise_addr c.advertise_port c.name in
    let suspect = gen_suspect_msg node.incarnation node.n.name c.name in
    if is_alive node.state then (node.n, ping) ∷ [] else (node.n, ping) ∷ (node.n, suspect) ∷ []

unfoldable pub indirect_sends : Config → ℕ → NodeState → List NodeState → List (Node × MessageData)
indirect_sends c seq node helpers =
    map
      (λ helper. (
        helper.n,
        gen_indirect_ping seq node.n.name node.n.addr node.n.port true c.advertise_addr
            c.advertise_port c.name,
      ))
      helpers

-- A probe ends in a suspicion exactly if no complete ack came, TCP pings are allowed and none came
-- back; and it never ends exactly if no complete ack came and TCP pings are not allowed.
pub probe_result-cases :
    (c : Config) (node : NodeState) (r : Replies)
    → (probe_result c node r
          ≡ suspects (record { incarnation = node.incarnation; node = node.n.name; from = c.name })
        ↔ ((first_complete r ≡ false)
            × (second_read r ≡ false)
            × (c.allow_tcp_ping ≡ true)
            × (r.tcp ≡ false)))
      × (probe_result c node r ≡ stuck
          ↔ ((first_complete r ≡ false) × (second_read r ≡ false) × (c.allow_tcp_ping ≡ false)))
unfolding probe_result
probe_result-cases c node r = ground arith
