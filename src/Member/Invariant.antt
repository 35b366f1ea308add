-- ===== src/Member/Invariant.antt =====
-- What holds of the tables of a member between two handlers.
use cpp_gossip.Base.{
  ℕ, refl, inl, inr, Option-cases, ◌<◌, ◌≡◌, String, Bool, true, false, Option, none, some, arith,
  insert, erase, store,
}
use cpp_gossip.Node.{NodeState, is_suspect}
use cpp_gossip.Double.{Double}
use cpp_gossip.Message.{Broadcast, Alive, Suspect, Dead}
use cpp_gossip.Suspicion.{Suspicion, new_suspicion}
use cpp_gossip.Suspicion.Laws.{confirm-callback}
use cpp_gossip.Member.{
  Member, after, Env, add_node, skip_incarnation, refute, broadcast_notify, only_broadcast,
}
use cpp_gossip.Member.Handlers.{
  apply_alive, alive_node, mark_dead, dead_node, mark_suspect, confirm_suspicion, suspect_node,
  start_suspicion,
}

-- A node is suspect exactly if it has a suspicion, which is about it and dates from its last change.
abbrev pub TimerOk : Option Suspicion → String → NodeState → Type 0
TimerOk none k st = is_suspect st.state ≡ false
TimerOk (some s) k st =
    (is_suspect st.state ≡ true) × (s.node ≡ k) × (s.suspected_at ≡ st.state_change)

-- What the tables say of the name `k`: only known nodes have a suspicion, and the local node never.
abbrev pub EntryOk : Member → String → Option ℕ → Type 0
EntryOk m k none = m.node_timers k ≡ none
EntryOk m k (some p) =
    (p < m.next_cell)
    × ((m.cell p).n.name ≡ k)
    × TimerOk (m.node_timers k) k (m.cell p)
    × (k ≡ m.config.name → is_suspect (m.cell p).state ≡ false)

abbrev pub KeysOk : Member → Type 0
KeysOk m = (k : String) → EntryOk m k (m.node_map k)

add_node-entry :
    (env : Env) (a : Alive) (m : Member) → (add_node env a m).node_map a.node ≡ some m.next_cell
unfolding add_node insert
add_node-entry env a m = ground arith

module _ (byte_size : Broadcast → ℕ) (env : Env) where
  add_node-KeysOk :
      (a : Alive) (m : Member) → m.node_map a.node ≡ none → KeysOk m → KeysOk (add_node env a m)
  unfolding add_node store insert
  add_node-KeysOk a m e h k = ground (arith, h k, h a.node)

  apply_alive-KeysOk :
      (a : Alive) (bootstrap : Bool) (fd : Option ℕ) (update : Bool) (p : ℕ) (m : Member)
      → m.node_map a.node ≡ some p
      → KeysOk m
      → KeysOk (apply_alive byte_size env a bootstrap fd update p m)
  unfolding apply_alive broadcast_notify refute only_broadcast skip_incarnation store erase
  apply_alive-KeysOk a bootstrap fd update p m e h k = ground (arith, h k, h a.node)

  pub alive_node-KeysOk :
      (a : Alive) (bootstrap : Bool) (fd : Option ℕ) (m : Member)
      → KeysOk m
      → KeysOk (alive_node byte_size env a bootstrap fd m)
  unfolding alive_node
  alive_node-KeysOk a bootstrap fd m h k = elim (Option-cases (m.node_map a.node)) [
    | inl e ↦
        rw (e, alive_node)
          (ground (
            arith,
            h k,
            apply_alive-KeysOk a bootstrap fd false m.next_cell (add_node env a m)
                (add_node-entry env a m) (add_node-KeysOk a m e h) k,
          ))
    | inr (p, e) ↦
        rw (e, alive_node)
          (ground (
            arith,
            h k,
            apply_alive-KeysOk a bootstrap fd true p m e h k,
            apply_alive-KeysOk a bootstrap fd false p m e h k,
          ))
  ]

  pub dead_node-KeysOk :
      (msg : Dead) (m : Member) → KeysOk m → KeysOk (dead_node byte_size env msg m)
  unfolding dead_node mark_dead broadcast_notify refute only_broadcast skip_incarnation store erase
  dead_node-KeysOk msg m h k = ground (arith, h k, h msg.node)

  module _ (d : Double) where
    mark_suspect-EntryOk :
        (s : Suspect) (p : ℕ) (m : Member) (k : String)
        → m.node_map s.node ≡ some p
        → (s.node ≡ m.config.name → ⊥)
        → EntryOk m k (m.node_map k)
        → EntryOk m s.node (m.node_map s.node)
        → (let m' = mark_suspect byte_size d env s p m in EntryOk m' k (m'.node_map k))
    unfolding mark_suspect start_suspicion new_suspicion only_broadcast broadcast_notify store
        insert
    mark_suspect-EntryOk s p m k e other h h' = ground arith

    confirm_suspicion-EntryOk :
        (s : Suspect) (old : Suspicion) (m : Member) (k : String)
        → m.node_timers s.node ≡ some old
        → EntryOk m k (m.node_map k)
        → EntryOk m s.node (m.node_map s.node)
        → (let m' = after (confirm_suspicion byte_size d env s old m) in
            EntryOk m' k (m'.node_map k))
    unfolding confirm_suspicion only_broadcast broadcast_notify insert
    confirm_suspicion-EntryOk s old m k e h h' =
        ground (arith, confirm-callback d env.checked_at s.from old)

    suspect_known-EntryOk :
        (s : Suspect) (m : Member) (k : String) (p : ℕ) (o : Option Suspicion)
        → m.node_map s.node ≡ some p
        → m.node_timers s.node ≡ o
        → KeysOk m
        → (let m' = after (suspect_node byte_size d env s m) in EntryOk m' k (m'.node_map k))
    unfolding suspect_node refute only_broadcast broadcast_notify skip_incarnation store
    suspect_known-EntryOk s m k p (some old) e t h =
        rw (e, suspect_node)
          (rw (t, suspect_node)
            (ground (arith, h k, h s.node, confirm_suspicion-EntryOk s old m k t (h k) (h s.node))))
    suspect_known-EntryOk s m k p none e t h =
        rw (e, suspect_node)
          (rw (t, suspect_node) (ground (arith, h k, h s.node, mark_suspect-EntryOk s p m k e)))

    pub suspect_node-KeysOk :
        (s : Suspect) (m : Member) → KeysOk m → KeysOk (after (suspect_node byte_size d env s m))
    unfolding suspect_node
    suspect_node-KeysOk s m h k = elim (Option-cases (m.node_map s.node)) [
      | inl e ↦ rw (e, suspect_node) (h k)
      | inr (p, e) ↦ suspect_known-EntryOk s m k p _ e refl h
    ]
