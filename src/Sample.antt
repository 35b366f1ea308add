-- ===== src/Sample.antt =====
-- `kRandomNodes` of src/misc/util.cpp, and the exclusions of its three callers in
-- src/memberlist/state.cpp. `rand i` is what `rand()` answers in round `i`; the list is `nodes` with
-- its pointers followed, under `nodeMutex`.
use cpp_gossip.Base.{
  ℕ, zero, suc, ◌+◌, ◌*◌, ◌%◌, ◌≤◌, ◌<◌, ◌≡◌, ◌≢◌, Bool, true, false, not, ◌||◌, List, [], ◌∷◌,
  ◌++◌, arith, any, same, ltb, leb, if◌then◌else◌, length, get_or, length-append, All, All-append,
  Bool-cases, inl, inr, ltb→lt,
}
use mathlib.Core.List.{Mem, mem-cons_self, mem-cons_of_mem}
use cpp_gossip.Config.{Config}
use cpp_gossip.Node.{
  NodeState, NodeStateType, state_alive, state_suspect, state_dead, state_left, is_alive,
}

abbrev pub is_picked : NodeState → List NodeState → Bool
is_picked st picked = any (λ p. same st.n.name p.n.name) picked

-- One round, at the node that was drawn.
unfoldable pub pick : (NodeState → Bool) → NodeState → List NodeState → List NodeState
pick exclude st picked =
    if exclude st then picked else if is_picked st picked then picked else picked ++ st ∷ []

abbrev pub drawn : NodeState → List NodeState → ℕ → NodeState
drawn x xs r = get_or (x ∷ xs) (r % length (x ∷ xs)) x

-- `rounds` are left, of three for each node; the loop stops early when `k` nodes are picked.
unfoldable pub sample :
    ℕ
    → NodeState
    → List NodeState
    → (NodeState → Bool)
    → (ℕ → ℕ)
    → ℕ
    → ℕ
    → List NodeState
    → List NodeState
sample k x xs exclude rand zero i picked = picked
sample k x xs exclude rand (suc rounds) i picked = elim (ltb (length picked) k) [
  | true ↦ sample k x xs exclude rand rounds (i + 1) (pick exclude (drawn x xs (rand i)) picked)
  | false ↦ picked
]

unfoldable pub k_random_nodes : ℕ → List NodeState → (NodeState → Bool) → (ℕ → ℕ) → List NodeState
k_random_nodes k [] exclude rand = []
k_random_nodes k (x ∷ xs) exclude rand = sample k x xs exclude rand (3 * length (x ∷ xs)) 0 []

-- The exclusion of `probeNode` and of `pushPull`, and that of `gossip`.
unfoldable pub not_other_alive : Config → NodeState → Bool
not_other_alive c st = same st.n.name c.name || not (is_alive st.state)

abbrev pub too_late : ℕ → NodeState → NodeStateType → Config → Bool
too_late now st state_alive c = false
too_late now st state_suspect c = false
too_late now st state_dead c = leb (st.state_change + c.gossip_to_the_dead_time) now
too_late now st state_left c = true

unfoldable pub not_gossiped_to : Config → ℕ → NodeState → Bool
not_gossiped_to c now st = if same st.n.name c.name then true else too_late now st st.state c

-- Names stand once.
abbrev pub Distinct : List NodeState → Type 0
Distinct [] = Unit {0}
Distinct (x ∷ xs) = All (λ p. p.n.name ≢ x.n.name) xs × Distinct xs

All-others :
    (st : NodeState) (picked : List NodeState)
    → is_picked st picked ≡ false
    → All (λ p. st.n.name ≢ p.n.name) picked
All-others st [] h = tt
All-others st (x ∷ xs) h = ground (arith, All-others st xs)

Distinct-snoc :
    (st : NodeState) (picked : List NodeState)
    → All (λ p. st.n.name ≢ p.n.name) picked
    → Distinct picked
    → Distinct (picked ++ st ∷ [])
Distinct-snoc st [] h d = (tt, tt)
Distinct-snoc st (x ∷ xs) h d =
    (All-append (λ p. p.n.name ≢ x.n.name) xs (st ∷ []) d.0 (h.0, tt), Distinct-snoc st xs h.1 d.1)

get_or-Mem : (x : NodeState) (xs : List NodeState) (i : ℕ) → i < length xs → Mem (get_or xs i x) xs
get_or-Mem x [] i h = elim h [ ]
get_or-Mem x (y ∷ ys) zero h = mem-cons_self
get_or-Mem x (y ∷ ys) (suc i) h = mem-cons_of_mem y (get_or-Mem x ys i (omega arith))

-- What a sample promises: at most `k` of the nodes, each admitted, and no name twice.
pub record IsSample (k : ℕ) (nodes : List NodeState) (exclude : NodeState → Bool)
    (picked : List NodeState) : Type 0 where
  pub bounded : length picked ≤ k
  pub known : All (λ st. Mem st nodes) picked
  pub admitted : All (λ st. exclude st ≡ false) picked
  pub distinct : Distinct picked

module _ (k : ℕ) (nodes : List NodeState) (exclude : NodeState → Bool) where
  snoc-IsSample :
      (st : NodeState) (picked : List NodeState)
      → Mem st nodes
      → length picked < k
      → exclude st ≡ false
      → is_picked st picked ≡ false
      → IsSample k nodes exclude picked
      → IsSample k nodes exclude (picked ++ st ∷ [])
  snoc-IsSample st picked m room fit new s = record {
    bounded = omega (arith, length-append {0} picked (st ∷ []));
    known = All-append (λ p. Mem p nodes) picked (st ∷ []) s.known (m, tt);
    admitted = All-append (λ p. exclude p ≡ false) picked (st ∷ []) s.admitted (fit, tt);
    distinct = Distinct-snoc st picked (All-others st picked new) s.distinct;
  }

  pick-IsSample :
      (st : NodeState) (picked : List NodeState)
      → Mem st nodes
      → length picked < k
      → IsSample k nodes exclude picked
      → IsSample k nodes exclude (pick exclude st picked)
  unfolding pick
  pick-IsSample st picked m room s = elim (Bool-cases (exclude st)) [
    | inl out ↦ rw (out, pick) s
    | inr fit ↦ elim (Bool-cases (is_picked st picked)) [
      | inl old ↦ rw (fit, old, pick) s
      | inr new ↦ rw (fit, new, pick) (snoc-IsSample st picked m room fit new s)
    ]
  ]

module _ (k : ℕ) (x : NodeState) (xs : List NodeState) (exclude : NodeState → Bool)
    (rand : ℕ → ℕ) where
  sample-IsSample :
      (rounds i : ℕ) (picked : List NodeState)
      → IsSample k (x ∷ xs) exclude picked
      → IsSample k (x ∷ xs) exclude (sample k x xs exclude rand rounds i picked)
  unfolding sample
  sample-IsSample zero i picked s = s
  sample-IsSample (suc rounds) i picked s = elim (Bool-cases (ltb (length picked) k)) [
    | inl more ↦
        rw (more, sample)
          (sample-IsSample rounds (i + 1) _ (
            pick-IsSample k (x ∷ xs) exclude _ picked
              (get_or-Mem x (x ∷ xs) (rand i % length (x ∷ xs)) (omega arith)) (ltb→lt _ _ more) s))
    | inr full ↦ rw (full, sample) s
  ]

-- Whatever `rand` answers, the nodes picked are at most `k` of those given, none that the test
-- excludes, and no name twice.
pub k_random_nodes-IsSample :
    (k : ℕ) (nodes : List NodeState) (exclude : NodeState → Bool) (rand : ℕ → ℕ)
    → IsSample k nodes exclude (k_random_nodes k nodes exclude rand)
unfolding k_random_nodes
k_random_nodes-IsSample k [] exclude rand = record {
  bounded = omega arith;
  known = tt;
  admitted = tt;
  distinct = tt;
}
k_random_nodes-IsSample k (x ∷ xs) exclude rand =
    sample-IsSample k x xs exclude rand _ 0 []
      (record { bounded = omega arith; known = tt; admitted = tt; distinct = tt })
