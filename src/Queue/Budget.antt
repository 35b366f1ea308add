-- ===== src/Queue/Budget.antt =====
-- `GetBroadcasts` ends, and what it takes fits into the limit.
use cpp_gossip.Base.{
  ℕ, zero, suc, ◌+◌, ◌-◌, ◌%◌, ◌≤◌, ◌<◌, ◌≡◌, inl, inr, refl, ap, Bool, true, false, some, List, [],
  ◌∷◌, ◌++◌, arith, All, All-append, length, ◌==◌, u64_mod, u32_mod, Bool-cases,
}
use cpp_gossip.Message.{Broadcast}
use cpp_gossip.Queue.Order.{LimitedBroadcast}
use cpp_gossip.Queue.Select.{In, In-All, select-cases}
use cpp_gossip.Queue.{
  BroadcastQueue, Sweep, Batch, delete_item, send, drain, tiers, sweep, finish_sweep, last_item,
  free_bytes,
}
use cpp_gossip.Queue.Indexed.{
  IsSized, IsIndexed, delete_item-IsIndexed, length-delete_item, add_all-IsIndexed, same_items,
}

-- The bytes of a list of messages.
abbrev pub total : (Broadcast → ℕ) → List Broadcast → ℕ
total byte_size [] = 0
total byte_size (b ∷ bs) = byte_size b + total byte_size bs

pub total-snoc :
    (byte_size : Broadcast → ℕ) (bs : List Broadcast) (b : Broadcast)
    → total byte_size (bs ++ b ∷ []) ≡ total byte_size bs + byte_size b
total-snoc byte_size [] b = omega arith
total-snoc byte_size (x ∷ bs) b = omega (arith, total-snoc byte_size bs b)

module _ (byte_size : Broadcast → ℕ) where
  module _ (overhead limit start transmit_limit : ℕ) (fits : overhead ≤ limit)
      (small : limit < u64_mod) where
    -- The invariant of the loop: `start` bytes stood in the message before it.
    record IsWithin (s : Sweep) : Type 0 where
      counted : total byte_size s.cbc ≡ start + s.bytes_used
      within : s.bytes_used + overhead ≤ limit
      indexed : IsIndexed byte_size s.queue
      again : All (IsSized byte_size) s.reinsert

    send-IsWithin :
        (x : LimitedBroadcast) (s : Sweep)
        → In x s.queue.tq
        → x.msg_len ≤ free_bytes overhead limit s.bytes_used
        → IsWithin s
        → IsWithin (send transmit_limit x s)
    unfolding send
    send-IsWithin x s i room w =
        let sized = In-All (IsSized byte_size) x s.queue.tq i w.indexed.sized in
        let later = delete_item-IsIndexed byte_size x s.queue w.indexed in
        let snoc =
          All-append (IsSized byte_size) s.reinsert
            (record x { transmits = (x.transmits + 1) % u32_mod } ∷ []) w.again (sized, tt) in
        let more = total-snoc byte_size s.cbc x.b.msg in
        record {
          counted = ground (arith, sized, more);
          within = ground (arith, sized);
          indexed =
              same_items byte_size (delete_item x s.queue) (send transmit_limit x s).queue
                (ground arith) (ground arith) later;
          again = ground (arith, w.again, snoc, sized);
        }

    length-send :
        (x : LimitedBroadcast) (s : Sweep)
        → In x s.queue.tq
        → IsWithin s
        → length (send transmit_limit x s).queue.tq < length s.queue.tq
    unfolding send
    length-send x s i w = ground (arith, length-delete_item byte_size x s.queue i w.indexed)

    drain_ends :
        (fuel tier : ℕ) (s : Sweep)
        → length s.queue.tq < fuel
        → IsWithin s
        → (s' : Sweep) × (fin : Bool) × (drain fuel overhead limit transmit_limit tier s
            ≡ some (s', fin))
          × IsWithin s'
          × (length s'.queue.tq ≤ length s.queue.tq)
    unfolding drain
    drain_ends zero tier s h w = elim h [ ]
    drain_ends (suc fuel) tier s h w =
        let free = free_bytes overhead limit s.bytes_used in
        elim (Bool-cases (free == 0)) [
          | inl full ↦ (s, true, rw (full, drain), w, omega arith)
          | inr room ↦ elim (select-cases tier free s.queue.tq) [
            | inl empty ↦ (s, false, rw (room, empty, drain), w, omega arith)
            | inr (x, e, i, spec) ↦
                let sized = In-All (IsSized byte_size) x s.queue.tq i w.indexed.sized in
                let shorter = length-send x s i w in
                let (s', fin, done, w', le) =
                  drain_ends fuel tier (send transmit_limit x s) (omega arith)
                    (send-IsWithin x s i (spec sized.1).1 w) in
                (s', fin, rw (room, e, drain) done, w', omega arith)
          ]
        ]

    abbrev TiersEnd : ℕ → ℕ → ℕ → Sweep → Type 0
    TiersEnd rounds fuel tier s =
        (s' : Sweep) × (tiers rounds fuel overhead limit transmit_limit tier s ≡ some s')
        × IsWithin s'

    tiers_step :
        (rounds fuel tier : ℕ) (s s' : Sweep) (fin : Bool)
        → drain fuel overhead limit transmit_limit tier s ≡ some (s', fin)
        → IsWithin s'
        → TiersEnd rounds fuel (tier + 1) s'
        → TiersEnd (suc rounds) fuel tier s
    unfolding tiers
    tiers_step rounds fuel tier s s' true e w' (s'', e', w'') = (s', rw (e, tiers), w')
    tiers_step rounds fuel tier s s' false e w' (s'', e', w'') = (s'', rw (e, tiers) e', w'')

    tiers_end :
        (rounds fuel tier : ℕ) (s : Sweep)
        → length s.queue.tq < fuel
        → IsWithin s
        → TiersEnd rounds fuel tier s
    unfolding tiers
    tiers_end zero fuel tier s h w = (s, refl, w)
    tiers_end (suc rounds) fuel tier s h w =
        let (s', fin, e, w', le) = drain_ends fuel tier s h w in
        tiers_step rounds fuel tier s s' fin e w'
          (tiers_end rounds fuel (tier + 1) s' (omega arith) w')

  -- `GetBroadcasts` comes to an end on any queue whose elements are in the map and have the lengths of
  -- their messages, for an overhead within the limit, a `size_t`: the bytes of what it appends and one
  -- overhead are at most the limit, and the elements that it leaves are again in the map with those
  -- lengths.
  pub sweep_ends :
      (transmit_limit overhead limit : ℕ) (unset : Bool) (cbc : List Broadcast) (q : BroadcastQueue)
      → overhead ≤ limit
      → limit < u64_mod
      → IsIndexed byte_size q
      → (b : Batch) × (sweep transmit_limit unset overhead limit cbc q ≡ some b)
        × (total byte_size b.cbc + overhead ≤ total byte_size cbc + limit)
        × IsIndexed byte_size b.queue
  unfolding sweep
  sweep_ends transmit_limit overhead limit unset cbc q fits small v = by_items q.tq refl
    where
      by_items :
          (xs : List LimitedBroadcast)
          → q.tq ≡ xs
          → (b : Batch) × (sweep transmit_limit unset overhead limit cbc q ≡ some b)
            × (total byte_size b.cbc + overhead ≤ total byte_size cbc + limit)
            × IsIndexed byte_size b.queue
      by_items [] e =
          (record { queue = q; cbc = cbc; have_msg = false }, ground arith, omega arith, v)
      by_items (x ∷ xs) e =
          let s : Sweep = record {
            queue = q;
            cbc = cbc;
            bytes_used = 0;
            reinsert = [];
            have_msg = unset;
          } in
          let (s', done, w) =
            tiers_end overhead limit (total byte_size cbc) transmit_limit fits small
              ((last_item x xs).transmits + 1 - x.transmits) (length xs + 2) x.transmits s
              (omega (arith, ap length e))
              (record { counted = omega arith; within = omega arith; indexed = v; again = tt }) in
          (
            finish_sweep s',
            ground arith,
            omega (arith, w.counted, w.within),
            add_all-IsIndexed byte_size s'.reinsert s'.queue w.again w.indexed,
          )
