-- ===== src/Probe/Search.antt =====
-- One call of `probe`, with a node in the vector that it may choose.
use cpp_gossip.Base.{
  ℕ, zero, suc, ◌+◌, ◌≤◌, ◌<◌, ◌≡◌, ◌⊎◌, refl, subst, sym, ap, ◌==◌, String, true, false, Option,
  some, List, leb, length, get_or, count, Has, at_head, in_tail, Has-count, count-Has, arith,
  Bool-cases, inl, inr,
}
use cpp_gossip.Node.{NodeState}
use cpp_gossip.Probe.{Choice, skips, probe_loop}

-- The place of an element.
pub Has-place : {a : ℕ} {l : List ℕ} → Has a l → (pos : ℕ) × (pos < length l) × (get_or l pos 0 ≡ a)
Has-place at_head = (0, ground arith, refl)
Has-place (in_tail h) = let (pos, room, e) = Has-place h in (suc pos, omega (arith, room), e)

module _ (self : String) (cell : ℕ → NodeState) where
  module _ (a : ℕ) (wanted : skips self (cell a) ≡ false) where
    same_place :
        (nodes : List ℕ) (index pos : ℕ)
        → index ≡ pos
        → get_or nodes pos 0 ≡ a
        → get_or nodes index 0 ≡ a
    same_place nodes index pos e h = subst (λ i. get_or nodes i 0 ≡ a) (sym e) h

    skipped_before :
        (nodes : List ℕ) (index pos : ℕ)
        → index ≤ pos
        → get_or nodes pos 0 ≡ a
        → skips self (cell (get_or nodes index 0)) ≡ true
        → index + 1 ≤ pos
    skipped_before nodes index pos before e skip = elim (Bool-cases (index == pos)) [
      | inl h ↦ cc (same_place nodes index pos (ground (arith, h)) e)
      | inr h ↦ ground (arith, h, before)
    ]

    -- The search found the node, or stopped before it, further on than it began.
    abbrev pub Ahead : Option Choice → ℕ → ℕ → ℕ → List ℕ → Type 0
    Ahead o num_check index pos nodes =
        (c : Choice) × (o ≡ some c)
        × ((c.target ≡ some (cell a))
            ⊎ ((c.nodes ≡ nodes)
                × (c.probe_index ≤ pos)
                × (index ≤ c.probe_index)
                × (num_check < length nodes → index < c.probe_index)))

    module _ (shuffle : ℕ → List ℕ → List ℕ) where
      pub probe_loop-Ahead :
          (fuel num_check index pos : ℕ) (nodes : List ℕ)
          → length nodes < fuel + num_check
          → 0 < fuel
          → index ≤ pos
          → pos < length nodes
          → get_or nodes pos 0 ≡ a
          → Ahead
              (probe_loop shuffle self cell fuel num_check index nodes)
              num_check
              index
              pos
              nodes
      unfolding probe_loop
      probe_loop-Ahead zero num_check index pos nodes enough some_fuel before room e =
          elim some_fuel [ ]
      probe_loop-Ahead (suc fuel) num_check index pos nodes enough some_fuel before room e =
          elim (Bool-cases (leb (length nodes) num_check)) [
            | inl over ↦
                rw (over, probe_loop)
                  (_, refl, inr (refl, before, omega arith, λ less. ground (arith, over, less)))
            | inr more ↦ elim (Bool-cases (leb (length nodes) index)) [
              | inl wrap ↦ ground (arith, wrap)
              | inr at ↦ elim (Bool-cases (skips self (cell (get_or nodes index 0)))) [
                | inl skip ↦
                    let further = skipped_before nodes index pos before e skip in
                    let (c, ends, found) =
                      probe_loop-Ahead fuel (num_check + 1) (index + 1) pos nodes (omega arith)
                        (ground (arith, more, enough)) further room e in
                    rw (more, at, skip, probe_loop)
                      (
                        c,
                        ends,
                        elim found [
                          | inl hit ↦ inl hit
                          | inr (kept, upto, on, strictly) ↦
                              inr (kept, upto, omega (arith, on), λ less. omega (arith, on))
                        ],
                      )
                | inr target ↦
                    rw (more, at, target, probe_loop)
                      (
                        _,
                        refl,
                        elim (Bool-cases (index == pos)) [
                          | inl h ↦ inl (
                              ap (λ x. some (cell x))
                                (same_place nodes index pos (ground (arith, h)) e))
                          | inr h ↦
                              inr
                                (refl, ground (arith, h, before), omega arith, λ less. omega arith)
                        ],
                      )
              ]
            ]
          ]

      module _ (keeps : (i : ℕ) (l : List ℕ) → length (shuffle i l) ≡ length l)
          (moves : (i : ℕ) (l : List ℕ) (b : ℕ) → count b (shuffle i l) ≡ count b l) where
        -- What a search that began anywhere came to.
        abbrev pub Found : Option Choice → ℕ → ℕ → List ℕ → Type 0
        Found o num_check index nodes =
            (c : Choice) × (o ≡ some c)
            × ((c.target ≡ some (cell a))
                ⊎ ((pos : ℕ) × (c.probe_index ≤ pos)
                    × (pos < length c.nodes)
                    × (get_or c.nodes pos 0 ≡ a)
                    × (length c.nodes ≡ length nodes))
                ⊎ ((c.nodes ≡ nodes)
                    × (index ≤ c.probe_index)
                    × (num_check < length nodes → index < c.probe_index)
                    × (num_check < length nodes → c.probe_index ≤ length nodes)
                    × (index ≤ length nodes → c.probe_index ≤ length nodes)))

        wrapped :
            (fuel num_check index : ℕ) (nodes : List ℕ)
            → length nodes < suc fuel + num_check
            → num_check < length nodes
            → Has a nodes
            → Found
                (probe_loop shuffle self cell fuel (num_check + 1) 0 (shuffle num_check nodes))
                num_check
                index
                nodes
        wrapped fuel num_check index nodes enough more h =
            let nodes' = shuffle num_check nodes in
            let (pos, room, e) =
              Has-place
                (Has-count a nodes' (omega (arith, moves num_check nodes a, count-Has h))) in
            let (c, ends, found) =
              probe_loop-Ahead fuel (num_check + 1) 0 pos nodes'
                (omega (arith, keeps num_check nodes)) (omega arith) (omega arith) room e in
            (
              c,
              ends,
              elim found [
                | inl hit ↦ inl hit
                | inr (kept, upto, on, strictly) ↦
                    inr (inl (pos, upto, rw kept room, rw kept e, rw kept (keeps num_check nodes)))
              ],
            )

        pub probe_loop-Found :
            (fuel num_check index : ℕ) (nodes : List ℕ)
            → length nodes < fuel + num_check
            → 0 < fuel
            → Has a nodes
            → Found (probe_loop shuffle self cell fuel num_check index nodes) num_check index nodes
        unfolding probe_loop
        probe_loop-Found zero num_check index nodes enough some_fuel h = elim some_fuel [ ]
        probe_loop-Found (suc fuel) num_check index nodes enough some_fuel h =
            elim (Bool-cases (leb (length nodes) num_check)) [
              | inl over ↦
                  rw (over, probe_loop)
                    (
                      _,
                      refl,
                      inr (
                          inr (
                            refl,
                            omega arith,
                            λ less. ground (arith, over, less),
                            λ less. ground (arith, over, less),
                            λ less. less,
                          )),
                    )
              | inr more ↦ elim (Bool-cases (leb (length nodes) index)) [
                | inl wrap ↦
                    rw (more, wrap, probe_loop)
                      (wrapped fuel num_check index nodes enough (ground (arith, more)) h)
                | inr at ↦ elim (Bool-cases (skips self (cell (get_or nodes index 0)))) [
                  | inl skip ↦
                      let (c, ends, found) =
                        probe_loop-Found fuel (num_check + 1) (index + 1) nodes (omega arith)
                          (ground (arith, more, enough)) h in
                      rw (more, at, skip, probe_loop)
                        (
                          c,
                          ends,
                          elim found [
                            | inl hit ↦ inl hit
                            | inr (inl ahead) ↦ inr (inl ahead)
                            | inr (inr (kept, on, strictly, bound, within)) ↦
                                let top : (c.probe_index ≤ length nodes) =
                                  within (ground (arith, at)) in
                                inr (
                                  inr (
                                    kept,
                                    omega (arith, on),
                                    λ less. omega (arith, on),
                                    λ less. top,
                                    λ less. top,
                                  ))
                          ],
                        )
                  | inr target ↦
                      rw (more, at, target, probe_loop)
                        (
                          _,
                          refl,
                          inr (
                              inr (
                                refl,
                                omega arith,
                                λ less. omega arith,
                                λ less. ground (arith, at),
                                λ less. ground (arith, at),
                              )),
                        )
                ]
              ]
            ]
