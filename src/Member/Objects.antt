-- ===== src/Member/Objects.antt =====
-- The `nodeState` objects and the vector of pointers to them, across the handlers.
use cpp_gossip.Base.{
  ℕ, suc, ◌+◌, ◌%◌, ◌<◌, ◌≡◌, refl, ap, inl, inr, Option-cases, Bool, true, false, Option, none,
  some, List, [], ◌∷◌, ◌++◌, arith, count, count-append, count-set, get_or, get_or-append, length,
  length-set, length-append, ltb, if◌then◌else◌, insert, store, u32_mod,
}
use cpp_gossip.Double.{Double}
use cpp_gossip.Message.{Broadcast, Alive, Suspect, Dead}
use cpp_gossip.Member.{
  Member, after, Env, add_node, place, skip_incarnation, refute, broadcast_notify, only_broadcast,
}
use cpp_gossip.Member.Handlers.{
  apply_alive, alive_node, mark_dead, dead_node, mark_suspect, confirm_suspicion, suspect_node,
}

-- The objects are those that `nodeMap` reaches, each under its own name and once in `nodes`.
pub record ObjectsOk (m : Member) : Type 0 where
  pub named : (p : ℕ) → p < m.next_cell → m.node_map (m.cell p).n.name ≡ some p
  pub once : (p : ℕ) → count p m.nodes ≡ (if ltb p m.next_cell then 1 else 0)
  pub listed : length m.nodes ≡ m.next_cell
  pub counted : m.num_nodes ≡ m.next_cell % u32_mod

-- What no handler changes but by a new object.
pub record SameObjects (m m' : Member) : Type 0 where
  pub config : m'.config ≡ m.config
  pub names : (p : ℕ) → (m'.cell p).n.name ≡ (m.cell p).n.name
  pub next : m'.next_cell ≡ m.next_cell
  pub nodes : m'.nodes ≡ m.nodes
  pub keys : m'.node_map ≡ m.node_map
  pub number : m'.num_nodes ≡ m.num_nodes

SameObjects-ObjectsOk : (m m' : Member) → SameObjects m m' → ObjectsOk m → ObjectsOk m'
SameObjects-ObjectsOk m m' s o = record {
  named = λ p h. ground (arith, s.names p, o.named p, s.keys, s.next);
  once = λ p. ground (arith, o.once p, s.nodes, s.next);
  listed = ground (arith, s.nodes, s.next, o.listed);
  counted = ground (arith, s.number, s.next, o.counted);
}

length-place : (random new : ℕ) (xs : List ℕ) → length (place random new xs) ≡ suc (length xs)
unfolding place
length-place random new [] = refl
length-place random new (x ∷ xs) =
    let l = x ∷ xs in
    let o = random % length l in
    let g = get_or l o x in
    omega (arith, length-set {0} (l ++ g ∷ []) o new, length-append {0} l (g ∷ []))

count-place :
    (a random new : ℕ) (xs : List ℕ)
    → count a (place random new xs) ≡ count a xs + count a (new ∷ [])
unfolding place
count-place a random new [] = omega arith
count-place a random new (x ∷ xs) =
    let l = x ∷ xs in
    let o = random % length l in
    let g = get_or l o x in
    let inside : o < length l = omega arith in
    let longer : o < length (l ++ g ∷ []) = omega (arith, length-append {0} l (g ∷ [])) in
    omega (
      arith,
      count-set a (l ++ g ∷ []) o new x longer,
      count-append a l (g ∷ []),
      ap (λ (t : ℕ). count a (t ∷ [])) (get_or-append l (g ∷ []) o x inside),
    )

add_node-ObjectsOk :
    (env : Env) (a : Alive) (m : Member)
    → m.node_map a.node ≡ none
    → ObjectsOk m
    → ObjectsOk (add_node env a m)
unfolding add_node store insert
add_node-ObjectsOk env a m e o = record {
  named = λ p h. ground (arith, o.named p);
  once = λ p. ground (arith, o.once p, count-place p env.random m.next_cell m.nodes);
  listed = ground (arith, o.listed, length-place env.random m.next_cell m.nodes);
  counted = ground (arith, o.counted);
}

module _ (byte_size : Broadcast → ℕ) (env : Env) where
  apply_alive-SameObjects :
      (a : Alive) (bootstrap : Bool) (fd : Option ℕ) (update : Bool) (p : ℕ) (m : Member)
      → SameObjects m (apply_alive byte_size env a bootstrap fd update p m)
  unfolding apply_alive broadcast_notify refute only_broadcast skip_incarnation store
  apply_alive-SameObjects a bootstrap fd update p m = record {
    config = ground arith;
    names = λ q. ground arith;
    next = ground arith;
    nodes = ground arith;
    keys = ground arith;
    number = ground arith;
  }

  pub alive_node-ObjectsOk :
      (a : Alive) (bootstrap : Bool) (fd : Option ℕ) (m : Member)
      → ObjectsOk m
      → ObjectsOk (alive_node byte_size env a bootstrap fd m)
  unfolding alive_node
  alive_node-ObjectsOk a bootstrap fd m o = elim (Option-cases (m.node_map a.node)) [
    | inl e ↦
        rw (e, alive_node)
          (let new = add_node env a m in
            let o' = add_node-ObjectsOk env a m e o in
            let s = apply_alive-SameObjects a bootstrap fd false m.next_cell new in
            ground (
              arith,
              o,
              SameObjects-ObjectsOk new
                  (apply_alive byte_size env a bootstrap fd false m.next_cell new) s o',
            ))
    | inr (p, e) ↦ rw (e, alive_node) (ground (arith, o, applied true p m o, applied false p m o))
  ]
    where
      applied :
          (update : Bool) (p : ℕ) (m : Member)
          → ObjectsOk m
          → ObjectsOk (apply_alive byte_size env a bootstrap fd update p m)
      applied update p m o =
          SameObjects-ObjectsOk m _ (apply_alive-SameObjects a bootstrap fd update p m) o

  dead_node-SameObjects : (msg : Dead) (m : Member) → SameObjects m (dead_node byte_size env msg m)
  unfolding dead_node mark_dead broadcast_notify refute only_broadcast skip_incarnation store
  dead_node-SameObjects msg m = record {
    config = ground arith;
    names = λ q. ground arith;
    next = ground arith;
    nodes = ground arith;
    keys = ground arith;
    number = ground arith;
  }

  pub dead_node-ObjectsOk :
      (msg : Dead) (m : Member) → ObjectsOk m → ObjectsOk (dead_node byte_size env msg m)
  dead_node-ObjectsOk msg m = SameObjects-ObjectsOk m _ (dead_node-SameObjects msg m)

  module _ (d : Double) where
    suspect_node-SameObjects :
        (s : Suspect) (m : Member) → SameObjects m (after (suspect_node byte_size d env s m))
    unfolding suspect_node confirm_suspicion mark_suspect broadcast_notify refute only_broadcast
        skip_incarnation store
    suspect_node-SameObjects s m = record {
      config = ground arith;
      names = λ q. ground arith;
      next = ground arith;
      nodes = ground arith;
      keys = ground arith;
      number = ground arith;
    }

    pub suspect_node-ObjectsOk :
        (s : Suspect) (m : Member)
        → ObjectsOk m
        → ObjectsOk (after (suspect_node byte_size d env s m))
    suspect_node-ObjectsOk s m = SameObjects-ObjectsOk m _ (suspect_node-SameObjects s m)
