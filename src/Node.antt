-- ===== src/Node.antt =====
-- include/misc/node.h and src/misc/node.cpp: a node of the cluster and our view of its state.
use cpp_gossip.Base.{ℕ, String, Bool, true, false, ◌||◌}

pub data NodeStateType : Type 0 where
  state_alive state_suspect state_dead state_left : NodeStateType

pub record Node : Type 0 where
  pub name : String
  pub addr : String
  pub port : ℕ

-- `StateChange` is the time of the last change, in microseconds since the epoch.
pub record NodeState : Type 0 where
  pub n : Node
  pub incarnation : ℕ
  pub state : NodeStateType
  pub state_change : ℕ

-- The constructor leaves `StateChange` as it finds it: `unset` is what was there.
abbrev pub new_node_state : Node → ℕ → NodeStateType → ℕ → NodeState
new_node_state node inc st unset = record {
  n = node;
  incarnation = inc;
  state = st;
  state_change = unset;
}

-- The comparisons `State == StateAlive` and so on.
abbrev pub is_alive : NodeStateType → Bool
is_alive state_alive = true
is_alive _ = false

abbrev pub is_suspect : NodeStateType → Bool
is_suspect state_suspect = true
is_suspect _ = false

abbrev pub is_dead : NodeStateType → Bool
is_dead state_dead = true
is_dead _ = false

abbrev pub is_left : NodeStateType → Bool
is_left state_left = true
is_left _ = false

abbrev pub dead_or_left : NodeState → Bool
dead_or_left s = is_dead s.state || is_left s.state
