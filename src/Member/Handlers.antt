-- ===== src/Member/Handlers.antt =====
-- `aliveNode`, `suspectNode` and `deadNode` of src/memberlist/state.cpp. Each holds `nodeMutex` from
-- its first read to its end, so it is one step.
use cpp_gossip.Base.{
  ℕ, ◌+◌, ◌-◌, ◌%◌, String, Bool, true, false, not, ◌&&◌, ◌||◌, Option, none, some, insert, erase,
  store, string_discrete, same, ltb, leb, ◌==◌, if◌then◌else◌, u16_mod, u32_mod,
}
use cpp_gossip.Node.{
  NodeState, state_alive, state_suspect, state_dead, state_left, is_alive, is_suspect, is_dead,
  is_left, dead_or_left,
}
use cpp_gossip.Double.{Double}
use cpp_gossip.Message.{Broadcast, Alive, Suspect, Dead, alive_msg, suspect_msg, dead_msg}
use cpp_gossip.Suspicion.{
  Suspicion, refused, accepted, fires, new_suspicion, confirm, suspicion_timeout, scale_ℤ,
}
use cpp_gossip.Member.{
  Member, Outcome, done, blocked, Env, add_node, broadcast_notify, only_broadcast, refute,
}

abbrev pub is_local : Member → NodeState → Bool
is_local m st = same st.n.name m.config.name

-- May a node that was lost be replaced by one with another address?
abbrev pub can_replace : Env → Member → NodeState → Bool
can_replace env m st =
    let reclaim = m.config.dead_node_reclaim_time in
    let can_reclaim = ltb 0 reclaim && leb (st.state_change + reclaim) env.checked_at in
    is_left st.state || (is_dead st.state && can_reclaim)

abbrev pub other_address : Alive → NodeState → Bool
other_address a st = not (same a.addr st.n.addr) || not (a.port == st.n.port)

-- Is the message older than what we know?
abbrev pub is_stale : Member → NodeState → Alive → Bool → Bool
is_stale m st a update_node =
    if is_local m st
    then ltb a.incarnation st.incarnation
    else leb a.incarnation st.incarnation && not update_node

abbrev pub clear_timer : String → Member → Member
clear_timer node m = record m { node_timers = erase string_discrete node m.node_timers }

-- The state that an accepted alive message gives a node.
abbrev pub revive : Env → Alive → NodeState → NodeState
revive env a st = record st {
  incarnation = a.incarnation;
  n = record (st.n) { addr = a.addr; port = a.port % u16_mod };
  state = state_alive;
  state_change = if is_alive st.state then st.state_change else env.changed_at;
}

abbrev pub write : ℕ → NodeState → Member → Member
write p st m = record m { cell = store p st m.cell }

module _ (byte_size : Broadcast → ℕ) where
  -- The part of `aliveNode` below the checks of the address, for the node at the address `p`.
  unfoldable pub apply_alive : Env → Alive → Bool → Option ℕ → Bool → ℕ → Member → Member
  apply_alive env a bootstrap notify_fd update_node p m =
      let st = m.cell p in
      let m' = clear_timer a.node m in
      if is_stale m st a update_node
      then m
      else if not bootstrap && is_local m st
      then (if a.incarnation == st.incarnation then m' else refute byte_size p a.incarnation m')
      else write p (revive env a st) (broadcast_notify byte_size a.node (alive_msg a) notify_fd m')

  unfoldable pub alive_node : Env → Alive → Bool → Option ℕ → Member → Member
  alive_node env a bootstrap notify_fd m =
      if m.leave && same a.node m.config.name then m else elim (m.node_map a.node) [
        | none ↦ apply_alive env a bootstrap notify_fd false m.next_cell (add_node env a m)
        | some p ↦
            if other_address a (m.cell p)
            then (if can_replace env m (m.cell p)
                then apply_alive env a bootstrap notify_fd true p m
                else m)
            else apply_alive env a bootstrap notify_fd false p m
      ]

  -- The end of `deadNode`: the message is passed on, and the node marked.
  unfoldable pub mark_dead : Env → Dead → ℕ → Option ℕ → Member → Member
  mark_dead env msg p fd m =
      write p
        (record (m.cell p) {
          incarnation = msg.incarnation;
          state = if same msg.node msg.from then state_left else state_dead;
          state_change = env.changed_at;
        })
        (broadcast_notify byte_size msg.node (dead_msg msg) fd m)

  unfoldable pub dead_node : Env → Dead → Member → Member
  dead_node env msg m = elim (m.node_map msg.node) [
    | none ↦ m
    | some p ↦
        let st = m.cell p in
        let m' = clear_timer msg.node m in
        if ltb msg.incarnation st.incarnation
        then m
        else if dead_or_left st
        then m'
        else if is_local m st
        then (if m.leave
            then mark_dead env msg p (some m.leave_fd) m'
            else refute byte_size p msg.incarnation m')
        else mark_dead env msg p none m'
  ]

  module _ (d : Double) where
    -- `uint8_t k`, and the comparison `n - 2 < k` in `uint32_t`.
    abbrev pub expected_confirmations : Member → ℕ
    expected_confirmations m =
        let k = (m.config.suspicion_mult + 256 - 2) % 256 in
        if ltb ((m.num_nodes + u32_mod - 2) % u32_mod) k then 0 else k

    unfoldable pub start_suspicion : Env → Suspect → Member → Suspicion
    start_suspicion env s m =
        let min = suspicion_timeout d m.config.suspicion_mult m.num_nodes m.config.probe_interval in
        let max = scale_ℤ m.config.suspicion_max_timeout_mult min in
        new_suspicion s.from (expected_confirmations m) min max env.checked_at s.node env.changed_at

    -- A confirmation of a suspicion that is under way. Where it fires, the callback waits for
    -- `nodeMutex`, which this thread holds.
    unfoldable pub confirm_suspicion : Env → Suspect → Suspicion → Member → Outcome
    confirm_suspicion env s old m =
        let (new, verdict) = confirm d env.checked_at s.from old in
        let m' = record m { node_timers = insert string_discrete s.node new m.node_timers } in
        elim verdict [
          | refused ↦ done m
          | accepted ↦ done (only_broadcast byte_size s.node (suspect_msg s) m')
          | fires ↦ blocked m'
        ]

    -- The end of `suspectNode`: an alive node, not the local one, becomes suspect.
    unfoldable pub mark_suspect : Env → Suspect → ℕ → Member → Member
    mark_suspect env s p m =
        let m' =
          write p
            (record (m.cell p) {
              incarnation = s.incarnation;
              state = state_suspect;
              state_change = env.changed_at;
            })
            (only_broadcast byte_size s.node (suspect_msg s) m) in
        record m' {
          node_timers = insert string_discrete s.node (start_suspicion env s m) m.node_timers;
        }

    unfoldable pub suspect_node : Env → Suspect → Member → Outcome
    suspect_node env s m = elim (m.node_map s.node) [
      | none ↦ done m
      | some p ↦
          let st = m.cell p in
          if ltb s.incarnation st.incarnation then done m else elim (m.node_timers s.node) [
            | some old ↦ confirm_suspicion env s old m
            | none ↦
                if not (is_alive st.state)
                then done m
                else if is_local m st
                then done (refute byte_size p s.incarnation m)
                else done (mark_suspect env s p m)
          ]
    ]

-- The callback of a suspicion: the message that it hands to `deadNode`, if the node is still under
-- this very suspicion.
unfoldable pub timeout_message : Suspicion → Member → Option Dead
timeout_message s m = elim (m.node_map s.node) [
  | none ↦ none
  | some p ↦
      let st = m.cell p in
      if is_suspect st.state && st.state_change == s.suspected_at
      then some (record { incarnation = st.incarnation; node = st.n.name; from = m.config.name })
      else none
]
