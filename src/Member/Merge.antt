-- ===== src/Member/Merge.antt =====
-- What a remote state can do to the nodes that are known.
use cpp_gossip.Base.{ℕ, ◌<◌, ◌≡◌, false, none, List, [], ◌∷◌, arith, store}
use cpp_gossip.Double.{Double}
use cpp_gossip.Node.{NodeStateType, is_dead, state_alive, state_suspect, state_dead, state_left}
use cpp_gossip.Message.{Broadcast, Alive, Suspect, PushNodeState}
use cpp_gossip.Member.{
  Member, after, Env, add_node, skip_incarnation, refute, broadcast_notify, only_broadcast,
}
use cpp_gossip.Member.Handlers.{
  apply_alive, alive_node, mark_dead, dead_node, mark_suspect, confirm_suspicion, suspect_node,
}
use cpp_gossip.Member.Local.{merge_as, merge_entry, merge_remote_state}
use cpp_gossip.Member.Run.{bind-kept}

-- The object at `p` is made, and its node not dead.
abbrev pub NotDead : ℕ → Member → Type 0
NotDead p m = (p < m.next_cell) × (is_dead (m.cell p).state ≡ false)

module _ (byte_size : Broadcast → ℕ) (p : ℕ) where
  alive_node-NotDead :
      (env : Env) (a : Alive) (m : Member)
      → NotDead p m
      → NotDead p (alive_node byte_size env a false none m)
  unfolding alive_node apply_alive add_node broadcast_notify refute only_broadcast skip_incarnation
      store
  alive_node-NotDead env a m h = ground arith

  left-NotDead :
      (env : Env) (inc : ℕ) (st : PushNodeState) (m : Member)
      → NotDead p m
      → NotDead p
          (dead_node byte_size env (record { incarnation = inc; node = st.name; from = st.name }) m)
  unfolding dead_node mark_dead broadcast_notify refute only_broadcast skip_incarnation store
  left-NotDead env inc st m h = ground arith

  suspect_node-NotDead :
      (d : Double) (env : Env) (s : Suspect) (m : Member)
      → NotDead p m
      → NotDead p (after (suspect_node byte_size d env s m))
  unfolding suspect_node confirm_suspicion mark_suspect broadcast_notify refute only_broadcast
      skip_incarnation store
  suspect_node-NotDead d env s m h = ground arith

  module _ (d : Double) where
    merge_entry-NotDead :
        (env : Env) (st : PushNodeState) (m : Member)
        → NotDead p m
        → NotDead p (after (merge_entry byte_size d env st m))
    unfolding merge_entry
    merge_entry-NotDead env st m h = by_state st.state
      where
        by_state : (s : NodeStateType) → NotDead p (after (merge_as byte_size d s env st m))
        by_state state_alive = alive_node-NotDead env _ m h
        by_state state_left = left-NotDead env st.incarnation st m h
        by_state state_dead = suspect_node-NotDead d env _ m h
        by_state state_suspect = suspect_node-NotDead d env _ m h

    -- A remote state of any length never makes a known node dead: a node that was known and not dead is
    -- not dead after it.
    pub merge_remote_state-NotDead :
        (states : List (Env × PushNodeState)) (m : Member)
        → NotDead p m
        → NotDead p (after (merge_remote_state byte_size d states m))
    unfolding merge_remote_state
    merge_remote_state-NotDead [] m h = h
    merge_remote_state-NotDead ((env, st) ∷ rest) m h =
        bind-kept byte_size d (NotDead p) (merge_entry byte_size d env st m) _
          (merge_entry-NotDead env st m h) (merge_remote_state-NotDead rest)
