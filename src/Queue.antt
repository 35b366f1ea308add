-- ===== src/Queue.antt =====
-- src/mynet/broadcast.cpp and src/misc/broadcastQueue.cpp: the queue of messages to gossip. `tq` is
-- the `std::set` in its order and `tm` the map by name. `notified` logs the descriptors to which
-- `Finished` wrote, oldest first. The mutex makes each operation one step.
pub mod Order
pub mod Select
pub mod Indexed
pub mod Budget
pub mod Fresh
pub mod Loop
pub mod WellFormed
pub mod Kept
pub mod Sending
pub mod Load
pub mod Delivery
pub mod Refinement
pub mod Drains
pub mod Filled
pub mod Greedy
pub mod Pruning
pub mod Reach
pub mod Prune
pub mod Notice
use cpp_gossip.Base.{
  ℕ, zero, suc, ◌+◌, ◌-◌, ◌*◌, ◌%◌, String, Bool, true, false, not, Option, none, some, List, [],
  ◌∷◌, ◌++◌, Map, empty_map, insert, erase, string_discrete, same, ltb, leb, ◌==◌, if◌then◌else◌,
  length, keep, u32_mod, u64_mod,
}
use cpp_gossip.Base.Int.{pos}
use cpp_gossip.Double.{Double}
use cpp_gossip.Message.{Broadcast, add_broadcast}
use Order.{
  MemberlistBroadcast, LimitedBroadcast, before, set_insert, lower_bound, upper_bound, no_broadcast,
}

pub record BroadcastQueue : Type 0 where
  pub retransmit_mult : ℕ
  pub id_gen : ℕ
  pub tq : List LimitedBroadcast
  pub tm : Map String LimitedBroadcast
  pub notified : List ℕ

unfoldable pub new_queue : ℕ → BroadcastQueue
new_queue mult = record {
  retransmit_mult = mult;
  id_gen = 0;
  tq = [];
  tm = empty_map;
  notified = [];
}

abbrev pub size : BroadcastQueue → ℕ
size q = length q.tq

-- `Finished` on one message, and on each of a list: -1 (here `none`) asks for no notice.
abbrev pub finished : MemberlistBroadcast → List ℕ → List ℕ
finished b log = elim b.notify_fd [ none ↦ log | some fd ↦ log ++ fd ∷ [] ]

unfoldable pub finish_all : List LimitedBroadcast → List ℕ → List ℕ
finish_all [] log = log
finish_all (x ∷ xs) log = finish_all xs (finished x.b log)

unfoldable pub clear : BroadcastQueue → BroadcastQueue
clear q = record q { id_gen = 0; tq = []; tm = empty_map; notified = finish_all q.tq q.notified }

abbrev pub invalidates : MemberlistBroadcast → LimitedBroadcast → Bool
invalidates m x = same x.b.node m.node

-- The statement `idGen == 0;` at the end of the source's function compares, and changes nothing.
unfoldable pub delete_item : LimitedBroadcast → BroadcastQueue → BroadcastQueue
delete_item lb q = elim (q.tm lb.b.node) [
  | none ↦ q
  | some _ ↦ record q {
    tm = erase string_discrete lb.b.node q.tm;
    tq = keep (λ x. not (invalidates lb.b x)) q.tq;
    notified = finish_all (keep (invalidates lb.b) q.tq) q.notified;
  }
]

unfoldable pub add_item : LimitedBroadcast → BroadcastQueue → BroadcastQueue
add_item lb q = record q { tm = insert string_discrete lb.b.node lb q.tm; tq = set_insert lb q.tq }

abbrev pub next_id : ℕ → ℕ
next_id id = if id == u32_mod - 1 then 1 else id + 1

-- `Prune`: the last element goes first. `rest` is the set, its greatest element first.
unfoldable pub last_item : LimitedBroadcast → List LimitedBroadcast → LimitedBroadcast
last_item x [] = x
last_item x (y ∷ ys) = last_item y ys

unfoldable pub drop_last : List LimitedBroadcast → List LimitedBroadcast
drop_last [] = []
drop_last (x ∷ []) = []
drop_last (x ∷ y ∷ ys) = x ∷ drop_last (y ∷ ys)

abbrev pub prune_last : BroadcastQueue → List LimitedBroadcast → BroadcastQueue
prune_last q [] = q
prune_last q (x ∷ xs) = record q {
  tm = erase string_discrete (last_item x xs).b.node q.tm;
  tq = drop_last (x ∷ xs);
  notified = finished (last_item x xs).b q.notified;
}

-- One round for each element above `maxRetain`: `s` counts down from the size.
unfoldable pub prune_loop : ℕ → BroadcastQueue → BroadcastQueue
prune_loop zero q = q
prune_loop (suc excess) q = prune_loop excess (prune_last q q.tq)

unfoldable pub prune : ℕ → BroadcastQueue → BroadcastQueue
prune max_retain q = prune_loop (size q - max_retain) q

-- The variables of the loop of `GetBroadcasts`.
pub record Sweep : Type 0 where
  pub queue : BroadcastQueue
  pub cbc : List Broadcast
  pub bytes_used : ℕ
  pub reinsert : List LimitedBroadcast
  pub have_msg : Bool

-- `limit - overhead - bytesUsed`, in `size_t`.
abbrev pub free_bytes : ℕ → ℕ → ℕ → ℕ
free_bytes overhead limit used = (limit + u64_mod * 2 - overhead - used) % u64_mod

-- A search key: the two constants of the source have the greatest `id`.
abbrev pub bound : ℕ → ℕ → LimitedBroadcast
bound tr len = record { transmits = tr; msg_len = len; id = u32_mod - 1; b = no_broadcast }

abbrev pub first : List LimitedBroadcast → Option LimitedBroadcast
first [] = none
first (x ∷ xs) = some x

-- The first element of [lower_bound, upper_bound): in the tier, and no longer than `free`.
unfoldable pub select : ℕ → ℕ → List LimitedBroadcast → Option LimitedBroadcast
select tier free tq =
    let low = lower_bound (bound tier free) tq in
    let up = upper_bound (bound (tier + 1) (u64_mod - 1)) tq in
    if length low == length up then none else first low

-- What the `else` branch does with the element that it found.
unfoldable pub send : ℕ → LimitedBroadcast → Sweep → Sweep
send transmit_limit cur s =
    let sent = record cur { transmits = (cur.transmits + 1) % u32_mod } in
    let q = delete_item cur s.queue in
    let s' = record s {
      cbc = add_broadcast s.cbc cur.b.msg;
      bytes_used = (s.bytes_used + cur.msg_len) % u64_mod;
      have_msg = true;
    } in
    if leb transmit_limit sent.transmits
    then record s' { queue = record q { notified = finished cur.b q.notified } }
    else record s' { queue = q; reinsert = s.reinsert ++ sent ∷ [] }

-- The inner loop. The flag says that it left by `goto finish`; `none`, that the fuel ran out.
unfoldable pub drain : ℕ → ℕ → ℕ → ℕ → ℕ → Sweep → Option (Sweep × Bool)
drain zero overhead limit transmit_limit tier s = none
drain (suc fuel) overhead limit transmit_limit tier s =
    let free = free_bytes overhead limit s.bytes_used in
    elim (free == 0) [
      | true ↦ some (s, true)
      | false ↦ elim (select tier free s.queue.tq) [
        | none ↦ some (s, false)
        | some cur ↦ drain fuel overhead limit transmit_limit tier (send transmit_limit cur s)
      ]
    ]

-- The outer loop over the tiers; `rounds` of them are left.
unfoldable pub tiers : ℕ → ℕ → ℕ → ℕ → ℕ → ℕ → Sweep → Option Sweep
tiers zero fuel overhead limit transmit_limit tier s = some s
tiers (suc rounds) fuel overhead limit transmit_limit tier s =
    elim (drain fuel overhead limit transmit_limit tier s) [
      | none ↦ none
      | some (s', true) ↦ some s'
      | some (s', false) ↦ tiers rounds fuel overhead limit transmit_limit (tier + 1) s'
    ]

unfoldable pub add_all : List LimitedBroadcast → BroadcastQueue → BroadcastQueue
add_all [] q = q
add_all (x ∷ xs) q = add_all xs (add_item x q)

-- The queue, the messages appended to `cbc`, and the answer.
pub record Batch : Type 0 where
  pub queue : BroadcastQueue
  pub cbc : List Broadcast
  pub have_msg : Bool

abbrev pub finish_sweep : Sweep → Batch
finish_sweep s = record { queue = add_all s.reinsert s.queue; cbc = s.cbc; have_msg = s.have_msg }

-- `GetBroadcasts`, for a given `retransmitLimit`. `unset` is what `bool haveMsg;` holds before it is
-- assigned. An inner loop makes at most one round more than the queue has elements.
unfoldable pub sweep : ℕ → Bool → ℕ → ℕ → List Broadcast → BroadcastQueue → Option Batch
sweep transmit_limit unset overhead limit cbc q = elim q.tq [
  | [] ↦ some (record { queue = q; cbc = cbc; have_msg = false })
  | x ∷ xs ↦
      let min_tr = x.transmits in
      let max_tr = (last_item x xs).transmits in
      elim (tiers (max_tr + 1 - min_tr) (length xs + 2) overhead limit transmit_limit min_tr
        (record { queue = q; cbc = cbc; bytes_used = 0; reinsert = []; have_msg = unset })) [
          | none ↦ none
          | some s ↦ some (finish_sweep s)
        ]
]

module _ (byte_size : Broadcast → ℕ) where
  -- `queueBroadcast`; `ByteSizeLong` is the serialiser's.
  unfoldable pub queue_broadcast_at : MemberlistBroadcast → ℕ → BroadcastQueue → BroadcastQueue
  queue_broadcast_at b initial_transmits q =
      let id = next_id q.id_gen in
      let lb : LimitedBroadcast = record {
        transmits = initial_transmits;
        msg_len = byte_size b.msg;
        id = id;
        b = b;
      } in
      add_item lb (delete_item lb (record q { id_gen = id }))

  unfoldable pub queue_broadcast : MemberlistBroadcast → BroadcastQueue → BroadcastQueue
  queue_broadcast b q = queue_broadcast_at b 0 q

module _ (d : Double) where
  open d use {of_ℤ, log10, ceil, to_uint32}

  -- `retransmitLimit` of src/misc/util.cpp
  unfoldable pub retransmit_limit : ℕ → ℕ → ℕ
  retransmit_limit mult n =
      let node_scale = to_uint32 (ceil (log10 (of_ℤ (pos ((n + 1) % u32_mod))))) in
      mult * node_scale % u32_mod

  -- `GetBroadcasts`, with the number of nodes that `EstNumNodes` answers.
  unfoldable pub get_broadcasts : ℕ → Bool → ℕ → ℕ → List Broadcast → BroadcastQueue → Option Batch
  get_broadcasts num_nodes unset overhead limit cbc q =
      sweep (retransmit_limit q.retransmit_mult num_nodes) unset overhead limit cbc q
