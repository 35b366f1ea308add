-- ===== src/Member/Rises.antt =====
-- The precedence of what is known of a node: by incarnation, then alive before suspect before dead.
use cpp_gossip.Base.{
  ℕ, ◌+◌, ◌*◌, ◌≤◌, ◌<◌, ◌≡◌, ◌≢◌, refl, subst, String, Bool, true, false, Option, some, List,
  arith, All, store, u16_mod, inl, inr, Option-cases,
}
use cpp_gossip.Node.{
  NodeState, NodeStateType, state_alive, state_suspect, state_dead, state_left, is_alive,
}
use cpp_gossip.Double.{Double}
use cpp_gossip.Message.{Broadcast, Alive, Suspect, Dead}
use cpp_gossip.Member.{
  Member, after, Env, add_node, skip_incarnation, refute, broadcast_notify, only_broadcast,
}
use cpp_gossip.Member.Handlers.{
  apply_alive, alive_node, mark_dead, dead_node, mark_suspect, confirm_suspicion, suspect_node,
}
use cpp_gossip.Member.Local.{begin_leave}
use cpp_gossip.Member.Consistent.{begin_leave-IsConsistent, IsConsistent, IsConsistent-kept}
use cpp_gossip.Member.Run.{Event, Hears, IsKept, run, run-kept}

abbrev pub rank : NodeStateType → ℕ
rank state_alive = 0
rank state_suspect = 1
rank state_dead = 2
rank state_left = 2

abbrev pub precedence : NodeState → ℕ
precedence st = st.incarnation * 3 + rank st.state

pub rank-bound : (st : NodeState) → rank st.state ≤ 2
rank-bound st = by_state st.state
  where
    by_state : (s : NodeStateType) → rank s ≤ 2
    by_state state_alive = ground arith
    by_state state_suspect = ground arith
    by_state state_dead = ground arith
    by_state state_left = ground arith

rank-alive : (s : NodeStateType) → is_alive s ≡ true → rank s ≡ 0
rank-alive state_alive h = refl
rank-alive state_suspect h = cc
rank-alive state_dead h = cc
rank-alive state_left h = cc

pub known-name :
    (m : Member) (k : String) (q : ℕ)
    → IsConsistent m
    → m.node_map k ≡ some q
    → (m.cell q).n.name ≡ k
known-name m k q c e = ground (arith, c.keys k)

-- If this alive message is about the node `k`, it has this address.
abbrev pub IsSettled : String → String → ℕ → Alive → Type 0
IsSettled k addr port a = a.node ≡ k → (a.addr ≡ addr) × (a.port ≡ port)

-- The object at `p` is that of another node, called `k`, at this address, and what is known of it
-- has at least the precedence `floor`.
module _ (p : ℕ) (k addr : String) (port floor : ℕ) where
  abbrev pub IsAbove : Member → Type 0
  IsAbove m =
      (p < m.next_cell)
      × ((m.cell p).n.name ≡ k)
      × (k ≢ m.config.name)
      × ((m.cell p).n.addr ≡ addr)
      × ((m.cell p).n.port ≡ port)
      × (floor ≤ precedence (m.cell p))

  begin_leave-IsAbove : (m : Member) → IsAbove m → IsAbove (begin_leave m).0
  unfolding begin_leave
  begin_leave-IsAbove m h = ground (arith, h)

  module _ (byte_size : Broadcast → ℕ) (env : Env) where
    apply_alive-IsAbove :
        (a : Alive) (boot : Bool) (fd : Option ℕ) (update : Bool) (q : ℕ) (m : Member)
        → port < u16_mod
        → (update ≡ true → p ≢ q)
        → (a.node ≢ m.config.name → IsSettled k addr port a)
        → (m.cell q).n.name ≡ a.node
        → IsAbove m
        → IsAbove (apply_alive byte_size env a boot fd update q m)
    unfolding apply_alive broadcast_notify refute only_broadcast skip_incarnation store
    apply_alive-IsAbove a boot fd update q m small u g e h = ground (arith, rank-bound (m.cell p))

    add_node-IsAbove : (a : Alive) (m : Member) → IsAbove m → IsAbove (add_node env a m)
    unfolding add_node store
    add_node-IsAbove a m h = ground (arith, h)

    add_node-name : (a : Alive) (m : Member) → ((add_node env a m).cell m.next_cell).n.name ≡ a.node
    unfolding add_node store
    add_node-name a m = ground arith

    add_node-config : (a : Alive) (m : Member) → (add_node env a m).config ≡ m.config
    unfolding add_node
    add_node-config a m = refl

    alive_node-IsAbove :
        (a : Alive) (boot : Bool) (fd : Option ℕ) (m : Member)
        → port < u16_mod
        → IsConsistent m
        → (a.node ≢ m.config.name → IsSettled k addr port a)
        → IsAbove m
        → IsAbove (alive_node byte_size env a boot fd m)
    unfolding alive_node add_node-config
    alive_node-IsAbove a boot fd m small c g h = elim (Option-cases (m.node_map a.node)) [
      | inl e ↦
          let new =
            apply_alive-IsAbove a boot fd false m.next_cell (add_node env a m) small (λ u. cc) g
              (add_node-name a m) (add_node-IsAbove a m h) in
          rw (e, alive_node) (ground (arith, h, new))
      | inr (q, e) ↦
          let name = known-name m a.node q c e in
          let moved : (p ≢ q → IsAbove (apply_alive byte_size env a boot fd true q m)) =
            λ other. apply_alive-IsAbove a boot fd true q m small (λ u. other) g name h in
          rw (e, alive_node)
            (ground (
              arith,
              h,
              name,
              apply_alive-IsAbove a boot fd false q m small (λ u. cc) g name h,
              moved,
            ))
    ]

    dead_node-IsAbove :
        (msg : Dead) (m : Member)
        → IsConsistent m
        → IsAbove m
        → IsAbove (dead_node byte_size env msg m)
    unfolding dead_node mark_dead broadcast_notify refute only_broadcast skip_incarnation store
    dead_node-IsAbove msg m c h = ground (arith, c.keys msg.node, rank-bound (m.cell p))

    suspect_node-IsAbove :
        (d : Double) (s : Suspect) (m : Member)
        → IsConsistent m
        → IsAbove m
        → IsAbove (after (suspect_node byte_size d env s m))
    unfolding suspect_node confirm_suspicion mark_suspect broadcast_notify refute only_broadcast
        skip_incarnation store
    suspect_node-IsAbove d s m c h = ground (arith, c.keys s.node, rank-alive (m.cell p).state)

  module _ (byte_size : Broadcast → ℕ) (d : Double) (small : port < u16_mod) where
    pub IsAbove-kept : IsKept byte_size d (IsSettled k addr port) (λ m. IsConsistent m × IsAbove m)
    IsAbove-kept = record {
      alive = λ env a boot fd m g h. (
        good.alive env a boot fd m (λ other. tt) h.0,
        alive_node-IsAbove byte_size env a boot fd m small h.0 g h.1,
      );
      dead =
          λ env msg m h. (good.dead env msg m h.0, dead_node-IsAbove byte_size env msg m h.0 h.1);
      suspect =
          λ env s m h. (good.suspect env s m h.0, suspect_node-IsAbove byte_size env d s m h.0 h.1);
      counter = λ m inc h. (good.counter m inc h.0, h.1);
    }
      where
        good : IsKept byte_size d (λ a. Unit) IsConsistent
        good = IsConsistent-kept byte_size d

    run-IsAbove :
        (es : List (Env × Event)) (m : Member)
        → All (λ x. Hears (IsSettled k addr port) x.1) es
        → IsConsistent m
        → IsAbove m
        → IsConsistent (after (run byte_size d es m)) × IsAbove (after (run byte_size d es m))
    run-IsAbove es m heard c h =
        run-kept byte_size d (IsSettled k addr port) (λ m. IsConsistent m × IsAbove m) IsAbove-kept
          (Hears (IsSettled k addr port)) (λ e g. g)
          (λ m _ h. (begin_leave-IsConsistent m h.0, begin_leave-IsAbove m h.1)) es m heard (c, h)

module _ (byte_size : Broadcast → ℕ) (d : Double) where
  -- Whatever a consistent member goes through, it keeps its object for another node that it knows,
  -- and the precedence of what it knows of that node never sinks: by incarnation first, then alive
  -- below suspect below dead or gone. All alive messages about that node that it hears, received or
  -- merged, have to name the address that is known, with a port of 16 bits.
  pub run-rises :
      (es : List (Env × Event)) (m : Member) (k : String) (p : ℕ)
      → IsConsistent m
      → k ≢ m.config.name
      → m.node_map k ≡ some p
      → (m.cell p).n.port < u16_mod
      → All (λ x. Hears (IsSettled k (m.cell p).n.addr (m.cell p).n.port) x.1) es
      → (let m' = after (run byte_size d es m) in
          (m'.node_map k ≡ some p) × (precedence (m.cell p) ≤ precedence (m'.cell p)))
  run-rises es m k p c other e small heard =
      let st = m.cell p in
      let h =
        run-IsAbove p k st.n.addr st.n.port (precedence st) byte_size d small es m heard c
          (ground (arith, c.keys k), known-name m k p c e, other, refl, refl, omega arith) in
      let m' = after (run byte_size d es m) in
      (subst (λ n. m'.node_map n ≡ some p) h.1.1 (h.0.objects.named p h.1.0), h.1.5)
