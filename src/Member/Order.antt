-- ===== src/Member/Order.antt =====
-- How the handlers order what they hear: by incarnations, and once.
use cpp_gossip.Base.{
  ℕ, ◌≤◌, ◌<◌, u16_mod, ◌≡◌, ◌≢◌, ◌⊎◌, ap, ◌∙◌, String, Map, ltb, refl, Bool, true, false, ◌||◌,
  Option, none, some, arith, inl, inr, insert, store, string_discrete, erase_absent,
}
use cpp_gossip.Suspicion.{Suspicion, new_suspicion, confirm, has_confirmed}
use cpp_gossip.Suspicion.Laws.{confirm-counted, confirm-refused}
use cpp_gossip.Config.{Config}
use cpp_gossip.Double.{Double}
use cpp_gossip.Node.{NodeState, dead_or_left, is_alive}
use cpp_gossip.Message.{Broadcast, Alive, Suspect, Dead}
use cpp_gossip.Member.{
  Member, done, after, Env, add_node, skip_incarnation, refute, broadcast_notify, only_broadcast,
}
use cpp_gossip.Member.Handlers.{
  apply_alive, alive_node, mark_dead, dead_node, mark_suspect, confirm_suspicion, suspect_node,
  start_suspicion, other_address, clear_timer,
}
use cpp_gossip.Member.Consistent.{IsConsistent, IsConsistent-kept}

module _ (byte_size : Broadcast → ℕ) (env : Env) where
  -- In tables that are in order a dead message lowers the incarnation of no node but the local one.
  pub dead_node-incarnation :
      (msg : Dead) (m : Member) (p : ℕ)
      → IsConsistent m
      → (m.cell p).n.name ≢ m.config.name
      → (m.cell p).incarnation ≤ ((dead_node byte_size env msg m).cell p).incarnation
  unfolding dead_node mark_dead broadcast_notify refute only_broadcast skip_incarnation store
  dead_node-incarnation msg m p c other = ground (arith, c.keys msg.node)

  -- In tables that are in order a suspicion lowers the incarnation of no node but the local one.
  pub suspect_node-incarnation :
      (d : Double) (s : Suspect) (m : Member) (p : ℕ)
      → IsConsistent m
      → (m.cell p).n.name ≢ m.config.name
      → (m.cell p).incarnation ≤ ((after (suspect_node byte_size d env s m)).cell p).incarnation
  unfolding suspect_node confirm_suspicion mark_suspect broadcast_notify refute only_broadcast
      skip_incarnation store
  suspect_node-incarnation d s m p c other = ground (arith, c.keys s.node)

  -- In tables that are in order an alive message about another node, known with that address and with
  -- an incarnation not below that of the message, changes nothing.
  pub alive_node-stale :
      (a : Alive) (fd : Option ℕ) (boot : Bool) (m : Member) (p : ℕ)
      → m.node_map a.node ≡ some p
      → IsConsistent m
      → a.node ≢ m.config.name
      → other_address a (m.cell p) ≡ false
      → a.incarnation ≤ (m.cell p).incarnation
      → alive_node byte_size env a boot fd m ≡ m
  unfolding alive_node apply_alive
  alive_node-stale a fd boot m p e c other same old =
      rw (e, alive_node) (ground (arith, c.keys a.node))

  -- A dead message finds nothing to do: the node is unknown, known to be newer, or dead or gone.
  abbrev DeadSettled : Dead → Member → Option ℕ → Type 0
  DeadSettled msg m none = Unit
  DeadSettled msg m (some p) =
      ltb msg.incarnation (m.cell p).incarnation ≡ false → dead_or_left (m.cell p) ≡ true

  clear_timer_absent : (m : Member) (k : String) → m.node_timers k ≡ none → clear_timer k m ≡ m
  clear_timer_absent m k e =
      ap (λ (t : Map String Suspicion). record m { node_timers = t })
        (erase_absent string_discrete k m.node_timers e)

  dead_node_settled :
      (msg : Dead) (m : Member)
      → IsConsistent m
      → DeadSettled msg m (m.node_map msg.node)
      → dead_node byte_size env msg m ≡ m
  unfolding dead_node
  dead_node_settled msg m c s = ground (arith, c.keys msg.node, clear_timer_absent m msg.node)

  dead_node-DeadSettled :
      (msg : Dead) (m : Member)
      → IsConsistent m
      → msg.node ≢ m.config.name
      → (let m' = dead_node byte_size env msg m in DeadSettled msg m' (m'.node_map msg.node))
  unfolding dead_node mark_dead broadcast_notify store
  dead_node-DeadSettled msg m c other = ground (arith, c.keys msg.node)

  -- An alive message finds nothing to do.
  abbrev AliveSettled : Alive → Member → Option ℕ → Type 0
  AliveSettled a m none = ⊥
  AliveSettled a m (some p) =
      (a.incarnation ≤ (m.cell p).incarnation) × (other_address a (m.cell p) ≡ false)

  alive_node-config :
      (a : Alive) (fd : Option ℕ) (m : Member)
      → (alive_node byte_size env a false fd m).config ≡ m.config
  unfolding alive_node apply_alive add_node broadcast_notify only_broadcast refute skip_incarnation
  alive_node-config a fd m = ground arith

  alive_node-AliveSettled :
      (a : Alive) (fd : Option ℕ) (m : Member)
      → IsConsistent m
      → a.node ≢ m.config.name
      → a.port < u16_mod
      → (let m' = alive_node byte_size env a false fd m in
          AliveSettled a m' (m'.node_map a.node) ⊎ (m' ≡ m))
  unfolding alive_node apply_alive add_node broadcast_notify store insert
  alive_node-AliveSettled a fd m c other small = ground (arith, c.keys a.node)

  alive_node_settled :
      (a : Alive) (fd : Option ℕ) (m : Member)
      → IsConsistent m
      → a.node ≢ m.config.name
      → AliveSettled a m (m.node_map a.node)
      → alive_node byte_size env a false fd m ≡ m
  unfolding alive_node apply_alive
  alive_node_settled a fd m c other s = ground (arith, c.keys a.node)

  -- A suspicion message finds nothing to do.
  abbrev Counted : Suspect → Option Suspicion → NodeState → Type 0
  Counted s none st = is_alive st.state ≡ false
  Counted s (some t) st = (ltb t.k t.n || has_confirmed s.from t) ≡ true

  abbrev SuspectSettled : Suspect → Member → Option ℕ → Type 0
  SuspectSettled s m none = Unit
  SuspectSettled s m (some p) =
      ltb s.incarnation (m.cell p).incarnation ≡ false → Counted s (m.node_timers s.node) (m.cell p)

  suspected-SuspectSettled :
      (d : Double) (s : Suspect) (m : Member) (o : Option Suspicion)
      → m.node_timers s.node ≡ o
      → IsConsistent m
      → s.node ≢ m.config.name
      → (let m' = after (suspect_node byte_size d env s m) in
          SuspectSettled s m' (m'.node_map s.node))
  unfolding suspect_node confirm_suspicion mark_suspect start_suspicion new_suspicion
      broadcast_notify only_broadcast store insert
  suspected-SuspectSettled d s m none e c other = ground (arith, c.keys s.node)
  suspected-SuspectSettled d s m (some t) e c other = ground (
    arith,
    c.keys s.node,
    confirm-counted d env.checked_at s.from t,
    confirm-refused d env.checked_at s.from t,
  )

  suspect_node_settled :
      (d : Double) (s : Suspect) (m : Member)
      → SuspectSettled s m (m.node_map s.node)
      → suspect_node byte_size d env s m ≡ done m
  unfolding suspect_node confirm_suspicion confirm
  suspect_node_settled d s m h = ground arith

module _ (byte_size : Broadcast → ℕ) (d : Double) (env env' : Env) where
  -- In tables that are in order the second of two equal dead messages about another node changes
  -- nothing, whatever the first did: the message is not passed on again.
  pub dead_node_twice :
      (msg : Dead) (m : Member)
      → IsConsistent m
      → msg.node ≢ m.config.name
      → (let m' = dead_node byte_size env msg m in dead_node byte_size env' msg m' ≡ m')
  dead_node_twice msg m c other =
      dead_node_settled byte_size env' msg _ ((IsConsistent-kept byte_size d).dead env msg m c)
        (dead_node-DeadSettled byte_size env msg m c other)

  -- In tables that are in order the second of two equal alive messages about another node, with a port
  -- of 16 bits and read at the same time, changes nothing.
  pub alive_node_twice :
      (a : Alive) (fd : Option ℕ) (m : Member)
      → IsConsistent m
      → a.node ≢ m.config.name
      → a.port < u16_mod
      → (let m' = alive_node byte_size env a false fd m in
          alive_node byte_size env a false fd m' ≡ m')
  alive_node_twice a fd m c other small =
      elim (alive_node-AliveSettled byte_size env a fd m c other small) [
        | inl s ↦
            alive_node_settled byte_size env a fd _
              ((IsConsistent-kept byte_size d).alive env a false fd m (λ other. tt) c)
              (λ e.
                other (e ∙ ap (λ (c : Config). c.name) (alive_node-config byte_size env a fd m)))
              s
        | inr e ↦ ap (alive_node byte_size env a false fd) e
      ]

  -- In tables that are in order the second of two equal suspicions of another node, by the same
  -- accuser, changes nothing and comes back, whatever the first did.
  pub suspect_node_twice :
      (s : Suspect) (m : Member)
      → IsConsistent m
      → s.node ≢ m.config.name
      → (let m' = after (suspect_node byte_size d env s m) in
          suspect_node byte_size d env' s m' ≡ done m')
  suspect_node_twice s m c other =
      suspect_node_settled byte_size env' d s _
        (suspected-SuspectSettled byte_size env d s m _ refl c other)
