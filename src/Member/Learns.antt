-- ===== src/Member/Learns.antt =====
-- What a member has learned once it has merged a remote state.
use cpp_gossip.Base.{
  ℕ, Has, at_head, in_tail, ◌*◌, ◌≤◌, ◌<◌, ◌≡◌, ◌≢◌, refl, subst, sym, ap, ◌∙◌, String, Bool, false,
  Option, none, some, List, [], ◌∷◌, arith, All, store, insert, u16_mod,
}
use cpp_gossip.Node.{state_alive}
use cpp_gossip.Double.{Double}
use cpp_gossip.Message.{Broadcast, Alive, Suspect, Dead, PushNodeState}
use cpp_gossip.Member.{
  Member, Outcome, done, blocked, crashed, ◌>>=◌, after, Env, add_node, skip_incarnation, refute,
  broadcast_notify, only_broadcast,
}
use cpp_gossip.Member.Handlers.{
  apply_alive, alive_node, mark_dead, dead_node, mark_suspect, confirm_suspicion, suspect_node,
}
use cpp_gossip.Member.Local.{merge_as, merge_entry, merge_remote_state}
use cpp_gossip.Member.Consistent.{IsConsistent, IsConsistent-kept}
use cpp_gossip.Member.Run.{merge_entry-kept, alive_of, IsKept, merge_remote_state-kept}
use cpp_gossip.Member.Rises.{rank-bound, IsAbove-kept, IsAbove, IsSettled, known-name}

bind-done :
    (o : Outcome) (f : Member → Outcome) (m' : Member)
    → (o >>= f) ≡ done m'
    → (m : Member) × (o ≡ done m) × (f m ≡ done m')
bind-done (done m) f m' e = (m, refl, e)
bind-done (blocked m) f m' e = cc
bind-done (crashed m) f m' e = cc

-- The node `k`, which is not the local one, has this address, if it is known.
module _ (k addr : String) (port : ℕ) where
  abbrev At : Member → Option ℕ → Type 0
  At m none = Unit
  At m (some p) = ((m.cell p).n.addr ≡ addr) × ((m.cell p).n.port ≡ port)

  abbrev pub IsAt : Member → Type 0
  IsAt m = (k ≢ m.config.name) × At m (m.node_map k)

  -- The node is known, at this address, and its incarnation is at least this one.
  abbrev pub Knows : ℕ → Member → Option ℕ → Type 0
  Knows inc m none = ⊥
  Knows inc m (some p) =
      ((m.cell p).n.addr ≡ addr) × ((m.cell p).n.port ≡ port) × (inc ≤ (m.cell p).incarnation)

  module _ (byte_size : Broadcast → ℕ) (env : Env) where
    dead_node-IsAt :
        (msg : Dead) (m : Member) → IsConsistent m → IsAt m → IsAt (dead_node byte_size env msg m)
    unfolding dead_node mark_dead broadcast_notify refute only_broadcast skip_incarnation store
    dead_node-IsAt msg m c h = ground (arith, c.keys k, c.keys msg.node)

    suspect_node-IsAt :
        (d : Double) (s : Suspect) (m : Member)
        → IsConsistent m
        → IsAt m
        → IsAt (after (suspect_node byte_size d env s m))
    unfolding suspect_node confirm_suspicion mark_suspect broadcast_notify refute only_broadcast
        skip_incarnation store
    suspect_node-IsAt d s m c h = ground (arith, c.keys k, c.keys s.node)

    alive_node-IsAt :
        (a : Alive) (boot : Bool) (fd : Option ℕ) (m : Member)
        → port < u16_mod
        → IsConsistent m
        → (a.node ≢ m.config.name → IsSettled k addr port a)
        → IsAt m
        → IsAt (alive_node byte_size env a boot fd m)
    unfolding alive_node apply_alive add_node broadcast_notify refute only_broadcast
        skip_incarnation store insert
    alive_node-IsAt a boot fd m small c g h = ground (arith, c.keys k, c.keys a.node)

    alive_node-Knows :
        (a : Alive) (boot : Bool) (fd : Option ℕ) (m : Member)
        → port < u16_mod
        → IsConsistent m
        → a.node ≡ k
        → a.addr ≡ addr
        → a.port ≡ port
        → IsAt m
        → (let m' = alive_node byte_size env a boot fd m in Knows a.incarnation m' (m'.node_map k))
    unfolding alive_node apply_alive add_node broadcast_notify refute only_broadcast
        skip_incarnation store insert
    alive_node-Knows a boot fd m small c e f g h = ground (arith, c.keys k)

  module _ (byte_size : Broadcast → ℕ) (d : Double) where
    IsAt-kept :
        port < u16_mod → IsKept byte_size d (IsSettled k addr port) (λ m. IsConsistent m × IsAt m)
    IsAt-kept small = record {
      alive = λ env a boot fd m g h. (
        good.alive env a boot fd m (λ other. tt) h.0,
        alive_node-IsAt byte_size env a boot fd m small h.0 g h.1,
      );
      dead = λ env msg m h. (good.dead env msg m h.0, dead_node-IsAt byte_size env msg m h.0 h.1);
      suspect =
          λ env s m h. (good.suspect env s m h.0, suspect_node-IsAt byte_size env d s m h.0 h.1);
      counter = λ m inc h. (good.counter m inc h.0, h.1);
    }
      where
        good : IsKept byte_size d (λ a. Unit) IsConsistent
        good = IsConsistent-kept byte_size d

    Knows-IsAbove :
        (inc p : ℕ) (m : Member)
        → IsConsistent m
        → k ≢ m.config.name
        → m.node_map k ≡ some p
        → Knows inc m (some p)
        → IsAbove p k addr port (inc * 3) m
    Knows-IsAbove inc p m c other e h =
        (ground (arith, c.keys k), known-name m k p c e, other, h.0, h.1, omega (arith, h.2))

    IsAbove-Knows :
        (inc p : ℕ) (m : Member)
        → IsConsistent m
        → IsAbove p k addr port (inc * 3) m
        → Knows inc m (m.node_map k)
    IsAbove-Knows inc p m c h =
        let e = subst (λ n. m.node_map n ≡ some p) h.1 (c.objects.named p h.0) in
        rw e (h.3, h.4, ground (arith, h.5, rank-bound (m.cell p)))

    -- What is known stays known while the rest is merged.
    rest-Knows :
        (small : port < u16_mod) (inc : ℕ) (rest : List (Env × PushNodeState)) (m : Member)
        (o : Option ℕ)
        → All (λ x. IsSettled k addr port (alive_of x.1)) rest
        → IsConsistent m
        → k ≢ m.config.name
        → m.node_map k ≡ o
        → Knows inc m o
        → (let m' = after (merge_remote_state byte_size d rest m) in Knows inc m' (m'.node_map k))
    rest-Knows small inc rest m none g c other e h = absurd h
    rest-Knows small inc rest m (some p) g c other e h =
        let (c', h') =
          merge_remote_state-kept byte_size d (IsSettled k addr port)
            (λ m. IsConsistent m × IsAbove p k addr port (inc * 3) m)
            (IsAbove-kept p k addr port (inc * 3) byte_size d small) rest m g
            (c, Knows-IsAbove inc p m c other e h) in
        IsAbove-Knows inc p _ c' h'

    merge-alive_first :
        (env : Env) (st : PushNodeState) (rest : List (Env × PushNodeState)) (m : Member)
        → st.state ≡ state_alive
        → merge_remote_state byte_size d ((env, st) ∷ rest) m
          ≡ merge_remote_state byte_size d rest
              (alive_node byte_size env (alive_of st) false none m)
    unfolding merge_remote_state merge_entry
    merge-alive_first env st rest m e =
        ap (λ s. merge_as byte_size d s env st m >>= (λ m'. merge_remote_state byte_size d rest m'))
          e

    pub merge-Knows :
        (small : port < u16_mod) (env : Env) (st : PushNodeState)
        {states : List (Env × PushNodeState)}
        → Has (env, st) states
        → st.state ≡ state_alive
        → (st.name ≡ k) × (st.addr ≡ addr) × (st.port ≡ port)
        → (m m' : Member) → All (λ x. IsSettled k addr port (alive_of x.1)) states
        → IsConsistent m
        → IsAt m
        → merge_remote_state byte_size d states m ≡ done m'
        → Knows st.incarnation m' (m'.node_map k)
    unfolding merge_remote_state
    merge-Knows small env st {states = []} h alive n m m' g c at e = elim h [ ]
    merge-Knows small env st {states = _ ∷ rest} at_head alive n m m' g c h e =
        let m1 = alive_node byte_size env (alive_of st) false none m in
        let (c1, h1) =
          (IsAt-kept small).alive env (alive_of st) false none m (λ other. g.0) (c, h) in
        subst (λ o. Knows st.incarnation (after o) ((after o).node_map k))
          (sym (merge-alive_first env st rest m alive) ∙ e)
          (rest-Knows small st.incarnation rest m1 _ g.1 c1 h1.0 refl
            (alive_node-Knows byte_size env (alive_of st) false none m small c n.0 n.1 n.2 h))
    merge-Knows small env st {states = (env', y) ∷ rest} (in_tail r) alive n m m' g c h e =
        let (m1, e1, e2) = bind-done (merge_entry byte_size d env' y m) _ m' e in
        let (c1, h1) =
          merge_entry-kept byte_size d (IsSettled k addr port) (λ m. IsConsistent m × IsAt m)
            (IsAt-kept small) env' y m g.0 (c, h) in
        let e3 = ap after e1 in
        merge-Knows small env st r alive n m1 m' g.1 (subst IsConsistent e3 c1) (subst IsAt e3 h1)
          e2
