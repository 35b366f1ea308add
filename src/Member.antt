-- ===== src/Member.antt =====
-- The state of include/memberlist/memberlist.h that `nodeMutex` guards, with the atomics beside it, and
-- the steps that the handlers of src/memberlist/state.cpp share. `cell` is the store of the
-- `nodeState` objects, which `nodes` and `nodeMap` share by pointers; `next_cell` of them are made.
pub mod Handlers
pub mod Invariant
pub mod Objects
pub mod Local
pub mod Run
pub mod Consistent
pub mod Order
pub mod Leave
pub mod Refute
pub mod Merge
pub mod Rises
pub mod Learns
use cpp_gossip.Base.{
  ℕ, suc, ◌+◌, ◌-◌, ◌%◌, String, Bool, true, false, Option, none, some, List, [], ◌∷◌, ◌++◌, Map,
  empty_map, insert, store, string_discrete, leb, ◌==◌, if◌then◌else◌, length, get_or, set, u16_mod,
  u32_mod,
}
use cpp_gossip.Config.{Config}
use cpp_gossip.Node.{Node, NodeState, new_node_state, state_dead}
use cpp_gossip.Message.{Broadcast, Alive, gen_alive_broadcast}
use cpp_gossip.Queue.Order.{MemberlistBroadcast}
use cpp_gossip.Queue.{BroadcastQueue, new_queue, queue_broadcast}
use cpp_gossip.Suspicion.{Suspicion}

pub record Member : Type 0 where
  pub config : Config
  pub sequence_num : ℕ
  pub incarnation : ℕ
  pub num_nodes : ℕ
  pub leave : Bool
  pub leave_fd : ℕ
  pub shutdown : Bool
  pub cell : ℕ → NodeState
  pub next_cell : ℕ
  pub nodes : List ℕ
  pub node_map : Map String ℕ
  pub node_timers : Map String Suspicion
  pub queue : BroadcastQueue

-- A call ends, blocks for good on a mutex that its own thread holds, or crashes the process.
pub data Outcome : Type 0 where
  done blocked crashed : Member → Outcome

infixl 5 ◌>>=◌
abbrev pub ◌>>=◌ : Outcome → (Member → Outcome) → Outcome
done m >>= f = f m
blocked m >>= f = blocked m
crashed m >>= f = crashed m

-- The state that a call leaves, whether or not it comes back.
abbrev pub after : Outcome → Member
after (done m) = m
after (blocked m) = m
after (crashed m) = m

-- What a handler reads from outside: the clock where it checks an age and where it stamps a change,
-- `rand()`, and what the uninitialised `StateChange` of a new object holds.
pub record Env : Type 0 where
  pub checked_at : ℕ
  pub changed_at : ℕ
  pub random : ℕ
  pub unset : ℕ

-- `newmemberlist`: nobody is known yet, and no object made; the store's content does not matter.
unfoldable pub new_member : Config → ℕ → Member
new_member c leave_fd = record {
  config = c;
  sequence_num = 0;
  incarnation = 0;
  num_nodes = 0;
  leave = false;
  leave_fd = leave_fd;
  shutdown = false;
  cell = λ p. new_node_state (record { name = ""; addr = ""; port = 0 }) 0 state_dead 0;
  next_cell = 0;
  nodes = [];
  node_map = empty_map;
  node_timers = empty_map;
  queue = new_queue c.retransmit_mult;
}

-- `nextSeqNum`, `nextIncarnation` and `skipIncarnation`: the counters wrap.
unfoldable pub next_seq_num : Member → Member × ℕ
next_seq_num m = let s = (m.sequence_num + 1) % u32_mod in (record m { sequence_num = s }, s)

unfoldable pub skip_incarnation : ℕ → Member → Member
skip_incarnation offset m = record m { incarnation = (m.incarnation + offset) % u32_mod }

unfoldable pub next_incarnation : Member → Member
next_incarnation m = skip_incarnation 1 m

-- The new address goes to a random place of `nodes`, and the one that was there to the end.
unfoldable pub place : ℕ → ℕ → List ℕ → List ℕ
place random new [] = new ∷ []
place random new (x ∷ xs) =
    let offset = random % length (x ∷ xs) in
    set ((x ∷ xs) ++ get_or (x ∷ xs) offset x ∷ []) offset new

-- A new object for a node that is heard of for the first time.
unfoldable pub add_node : Env → Alive → Member → Member
add_node env a m = record m {
  cell = store m.next_cell new m.cell;
  next_cell = suc m.next_cell;
  nodes = place env.random m.next_cell m.nodes;
  node_map = insert string_discrete a.node m.next_cell m.node_map;
  num_nodes = (m.num_nodes + 1) % u32_mod;
}
  where
    node : Node
    node = record { name = a.node; addr = a.addr; port = a.port % u16_mod }

    new : NodeState
    new = new_node_state node 0 state_dead env.unset

module _ (byte_size : Broadcast → ℕ) where
  -- `BroadcastNotify`, and `onlyBroadcast`, which asks for no notice.
  unfoldable pub broadcast_notify : String → Broadcast → Option ℕ → Member → Member
  broadcast_notify node bc fd m = record m { queue = queue_broadcast byte_size b m.queue }
    where
      b : MemberlistBroadcast
      b = record { node = node; msg = bc; notify_fd = fd }

  unfoldable pub only_broadcast : String → Broadcast → Member → Member
  only_broadcast node bc m = broadcast_notify node bc none m

  -- The incarnation that `refute` announces.
  abbrev pub refuting : ℕ → Member → Member
  refuting accused m =
      if leb m.incarnation accused
      then skip_incarnation ((accused + u32_mod - m.incarnation + 1) % u32_mod) m
      else m

  -- `refute`, of the local node at the address `me`.
  unfoldable pub refute : ℕ → ℕ → Member → Member
  refute me accused m =
      let m' = refuting accused m in
      let st = m.cell me in
      only_broadcast st.n.name (gen_alive_broadcast m'.incarnation st.n.name st.n.addr st.n.port)
        (record m' { cell = store me (record st { incarnation = m'.incarnation }) m.cell })
