-- ===== src/Exchange/Spread.antt =====
-- A state exchange between two members: what the one sends, `local_state`, and what the other has then
-- learned.
use cpp_gossip.Base.{
  ℕ, Has, at_head, in_tail, Has-map, Has-count, count-Has, ◌<◌, ◌≡◌, refl, subst, sym, ap, ◌∙◌,
  Bool, String, some, List, [], ◌∷◌, map, All, arith, u16_mod,
}
use cpp_gossip.Double.{Double}
use cpp_gossip.Node.{state_alive}
use cpp_gossip.Message.{Broadcast, PushPull, PushNodeState, push_pull_msg}
use cpp_gossip.Member.{Member, done, Env}
use cpp_gossip.Member.Local.{local_state, merge_remote_state}
use cpp_gossip.Member.Consistent.{IsConsistent}
use cpp_gossip.Member.Run.{alive_of}
use cpp_gossip.Member.Rises.{IsSettled, known-name}
use cpp_gossip.Member.Learns.{IsAt, Knows, merge-Knows}
use cpp_gossip.Exchange.{
  handle_push_pull, push_pull_node, push_pull_answer, entry_of, local_state-map,
}

All-Has {ℓ κ} : {A : Type ℓ} (P : A → Type κ) (l : List A) → ((x : A) → Has x l → P x) → All P l
All-Has P [] h = tt
All-Has P (x ∷ l) h = (h x at_head, All-Has P l (λ y i. h y (in_tail i)))

All-map {ℓ κ ι} :
    {A : Type ℓ} {B : Type κ} (P : B → Type ι) (f : A → B) (l : List A)
    → All P (map f l)
    → All (λ x. P (f x)) l
All-map P f [] h = tt
All-map P f (x ∷ l) h = (h.0, All-map P f l h.1)

map-All {ℓ κ ι} :
    {A : Type ℓ} {B : Type κ} (P : B → Type ι) (f : A → B) (l : List A)
    → All (λ x. P (f x)) l
    → All P (map f l)
map-All P f [] h = tt
map-All P f (x ∷ l) h = (h.0, map-All P f l h.1)

-- An entry that came, with what its handler reads from outside.
Has-entry :
    {st : PushNodeState} (states : List (Env × PushNodeState))
    → Has st (map (λ x. x.1) states)
    → (env : Env) × Has (env, st) states
Has-entry [] h = elim h [ ]
Has-entry ((env, y) ∷ states) at_head = (env, at_head)
Has-entry ((env, y) ∷ states) (in_tail h) = let (env', i) = Has-entry states h in (env', in_tail i)

module _ (r : Member) (c : IsConsistent r) where
  -- A node that is known is sent, and its name in no other entry.
  known-Has : (k : String) (q : ℕ) → r.node_map k ≡ some q → Has q r.nodes
  known-Has k q e = Has-count q r.nodes (ground (arith, c.keys k, c.objects.once q))

  Has-known : (p : ℕ) → Has p r.nodes → r.node_map (r.cell p).n.name ≡ some p
  Has-known p h = c.objects.named p (ground (arith, count-Has h, c.objects.once p))

  entries-IsSettled :
      (k : String) (q : ℕ)
      → r.node_map k ≡ some q
      → (p : ℕ) → Has p r.nodes
      → IsSettled k (r.cell q).n.addr (r.cell q).n.port (alive_of (entry_of (r.cell p)))
  entries-IsSettled k q e p h name =
      let there : (r.node_map (r.cell p).n.name ≡ some p) = Has-known p h in
      let same : (p ≡ q) = cc in
      (ap (λ x. (r.cell x).n.addr) same, ap (λ x. (r.cell x).n.port) same)

-- The member `r` holds the node `k`, at its address `q`, for alive, and may tell `m` of it.
abbrev pub IsOffered : Member → Member → String → ℕ → Type 0
IsOffered r m k q =
    (r.node_map k ≡ some q)
    × ((r.cell q).state ≡ state_alive)
    × ((r.cell q).n.port < u16_mod)
    × IsAt k (r.cell q).n.addr (r.cell q).n.port m

-- What `m` knows of the node is not behind what `r` knew.
abbrev pub Learned : Member → Member → String → ℕ → Type 0
Learned r m k q =
    Knows k (r.cell q).n.addr (r.cell q).n.port (r.cell q).incarnation m (m.node_map k)

module _ (byte_size : Broadcast → ℕ) (d : Double) (read : PushPull → List (Env × PushNodeState))
    (faithful : (p : PushPull) → map (λ x. x.1) (read p) ≡ p.states) where
  merge-local_state :
      (r m m' : Member) (join : Bool) (k : String) (q : ℕ)
      → IsConsistent r
      → IsConsistent m
      → IsOffered r m k q
      → merge_remote_state byte_size d (read (local_state join r)) m ≡ done m'
      → Learned r m' k q
  merge-local_state r m m' join k q cr cm (e, alive, small, at) ends =
      let st = r.cell q in
      let states = read (local_state join r) in
      let sent : (map (λ x. x.1) states ≡ map (λ p. entry_of (r.cell p)) r.nodes) =
        faithful (local_state join r) ∙ ap (λ p. p.states) (local_state-map join r) in
      let settled : All (λ x. IsSettled k st.n.addr st.n.port (alive_of x.1)) states =
        All-map (λ y. IsSettled k st.n.addr st.n.port (alive_of y)) (λ x. x.1) states
          (subst (All (λ y. IsSettled k st.n.addr st.n.port (alive_of y))) (sym sent) (
            map-All (λ y. IsSettled k st.n.addr st.n.port (alive_of y)) (λ p. entry_of (r.cell p))
              r.nodes (All-Has _ r.nodes (entries-IsSettled r cr k q e)))) in
      let (env, here) = Has-entry states (
        subst (Has (entry_of st)) (sym sent)
          (Has-map (λ p. entry_of (r.cell p)) (known-Has r cr k q e))) in
      merge-Knows k st.n.addr st.n.port byte_size d small env (entry_of st) here alive
        (known-name r k q cr e, refl, refl) m m' settled cm at ends

  -- Two members exchange their tables: `m` sends its own to `r`, which answers with its own and merges
  -- what it got, and `m` merges the answer. If both merges come to their ends, then each has learned
  -- what the other offered before: a node that the one held for alive, under a name that is not the
  -- other's own, is known to the other, at the same address and with an incarnation that is no lower.
  -- Both members are consistent; the port has 16 bits, and a node that was known before was known at
  -- that address; the entries come as they were sent, with what their handlers read from outside.
  pub exchange-Learned :
      (r m r' m' : Member) (join : Bool) (k j : String) (p q : ℕ)
      → IsConsistent r
      → IsConsistent m
      → IsOffered r m k q
      → IsOffered m r j p
      → (handle_push_pull byte_size d join (read (local_state join m)) r).1 ≡ done r'
      → push_pull_node byte_size d read
          (push_pull_msg (handle_push_pull byte_size d join (read (local_state join m)) r).0)
          m
        ≡ done m'
      → Learned r m' k q × Learned m r' j p
  unfolding handle_push_pull push_pull_node push_pull_answer
  exchange-Learned r m r' m' join k j p q cr cm offered back ends ends' = (
    merge-local_state r m m' join k q cr cm offered ends',
    merge-local_state m r r' join j p cm cr back ends,
  )
