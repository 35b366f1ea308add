-- ===== src/Member/Local.antt =====
-- The calls of src/memberlist/memberlist.cpp and `mergeRemoteState` of src/memberlist/state.cpp: what
-- they do to the tables, by way of the handlers.
use cpp_gossip.Base.{
  ℕ, suc, Bool, Option, true, false, not, ◌&&◌, ◌||◌, none, some, List, [], ◌∷◌, same,
  if◌then◌else◌,
}
use cpp_gossip.Node.{
  Node, NodeStateType, dead_or_left, state_alive, state_suspect, state_dead, state_left,
}
use cpp_gossip.Double.{Double}
use cpp_gossip.Message.{
  Broadcast, PushNodeState, PushPull, Dead, gen_push_pull, add_push_node_state,
}
use cpp_gossip.Suspicion.{Suspicion}
use cpp_gossip.Member.{Member, Outcome, done, crashed, ◌>>=◌, Env, next_incarnation}
use cpp_gossip.Member.Handlers.{alive_node, dead_node, suspect_node, timeout_message}

-- `anyAlive`: is there another node that is neither dead nor gone?
unfoldable pub any_alive_in : Member → List ℕ → Bool
any_alive_in m [] = false
any_alive_in m (p ∷ ps) =
    not (dead_or_left (m.cell p)) && not (same (m.cell p).n.name m.config.name) || any_alive_in m ps

unfoldable pub any_alive : Member → Bool
any_alive m = any_alive_in m m.nodes

-- `Members` and `NumMembers`
unfoldable pub members_in : Member → List ℕ → List Node
members_in m [] = []
members_in m (p ∷ ps) =
    if dead_or_left (m.cell p) then members_in m ps else (m.cell p).n ∷ members_in m ps

unfoldable pub members : Member → List Node
members m = members_in m m.nodes

unfoldable pub num_members_in : Member → List ℕ → ℕ
num_members_in m [] = 0
num_members_in m (p ∷ ps) =
    if dead_or_left (m.cell p) then num_members_in m ps else suc (num_members_in m ps)

unfoldable pub num_members : Member → ℕ
num_members m = num_members_in m m.nodes

-- `EstNumNodes`: it counts the dead, too.
unfoldable pub est_num_nodes : Member → ℕ
est_num_nodes m = m.num_nodes

-- The message of `sendLocalState`.
unfoldable pub add_states : Member → List ℕ → PushPull → PushPull
add_states m [] msg = msg
add_states m (p ∷ ps) msg =
    let st = m.cell p in
    add_states m ps (add_push_node_state msg st.n.name st.n.addr st.n.port st.incarnation st.state)

unfoldable pub local_state : Bool → Member → PushPull
local_state join m = add_states m m.nodes (gen_push_pull join)

-- What `Leave` does at first: it stops, or goes on.
pub data LeaveAnswer : Type 0 where
  fatal already_left goes_on : LeaveAnswer

-- `Leave`, in the steps between which other threads may come. At first it reads the two flags, and sets
-- one.
unfoldable pub begin_leave : Member → Member × LeaveAnswer
begin_leave m =
    if m.shutdown
    then (m, fatal)
    else if m.leave
    then (m, already_left)
    else (record m { leave = true }, goes_on)

-- Then it looks its own entry up under `nodeMutex`, and returns if there is none. Of the entry, which
-- stays the same object, it makes a dead message that names its own sender, after it has released the
-- mutex; and it gives the message to `deadNode`, which takes the mutex again. Last it calls `anyAlive`,
-- and waits.
unfoldable pub leave_message : Member → Option Dead
leave_message m = elim (m.node_map m.config.name) [
  | none ↦ none
  | some p ↦
      let st = m.cell p in
      some (record { incarnation = st.incarnation; node = st.n.name; from = st.n.name })
]

module _ (byte_size : Broadcast → ℕ) where
  unfoldable pub set_alive : Env → Member → Member
  set_alive env m =
      let m' = next_incarnation m in
      let c = m.config in
      alive_node byte_size env
        (record {
          incarnation = m'.incarnation;
          node = c.name;
          addr = c.advertise_addr;
          port = c.advertise_port;
        })
        true none m'

  -- `UpdateNode`, up to its wait, with the write end of its pipe. `nodeMap[...]` of an unknown name is
  -- a null pointer, which is then read.
  unfoldable pub update_node : Env → ℕ → Member → Outcome
  update_node env fd m = elim (m.node_map m.config.name) [
    | none ↦ crashed m
    | some p ↦
        let m' = next_incarnation m in
        let st = m.cell p in
        done (
          alive_node byte_size env
            (record {
              incarnation = m'.incarnation;
              node = m.config.name;
              addr = st.n.addr;
              port = st.n.port;
            })
            false (some fd) m')
  ]

  -- The callback of a suspicion, with nothing between its check and `deadNode`.
  unfoldable pub suspicion_timeout_fired : Env → Suspicion → Member → Member
  suspicion_timeout_fired env s m = elim (timeout_message s m) [
    | none ↦ m
    | some msg ↦ dead_node byte_size env msg m
  ]

  module _ (d : Double) where
    -- One entry of a remote state: a dead node is only suspected.
    abbrev pub merge_as : NodeStateType → Env → PushNodeState → Member → Outcome
    merge_as state_alive env st m = done (
        alive_node byte_size env
          (record { incarnation = st.incarnation; node = st.name; addr = st.addr; port = st.port })
          false none m)
    merge_as state_left env st m = done (
        dead_node byte_size env
          (record { incarnation = st.incarnation; node = st.name; from = st.name }) m)
    merge_as state_dead env st m =
        suspect_node byte_size d env
          (record { incarnation = st.incarnation; node = st.name; from = m.config.name }) m
    merge_as state_suspect env st m =
        suspect_node byte_size d env
          (record { incarnation = st.incarnation; node = st.name; from = m.config.name }) m

    unfoldable pub merge_entry : Env → PushNodeState → Member → Outcome
    merge_entry env st m = merge_as st.state env st m

    -- `mergeRemoteState`: each entry with what its handler reads from outside.
    unfoldable pub merge_remote_state : List (Env × PushNodeState) → Member → Outcome
    merge_remote_state [] m = done m
    merge_remote_state ((env, st) ∷ rest) m =
        merge_entry env st m >>= (λ m'. merge_remote_state rest m')
