-- ===== src/Queue/Refinement.antt =====
-- `GetBroadcasts` against its abstract view.
use cpp_gossip.Base.{
  ℕ, ◌-◌, length, ◌+◌, ◌%◌, ◌≤◌, ◌≡◌, ◌≢◌, inl, inr, refl, sym, ◌∙◌, Bool, false, Option, none,
  some, List, [], ◌∷◌, ◌++◌, map, String, arith, All, All-imp, same, leb, if◌then◌else◌, Bool-cases,
  u32_mod,
}
use mathlib.Core.List.{append-nil}
use cpp_gossip.Message.{Broadcast}
use cpp_gossip.Queue.Order.{LimitedBroadcast}
use cpp_gossip.Queue.Indexed.{IsSized, IsIndexed, All-set_insert}
use cpp_gossip.Queue.Loop.{AfterTiers, tiers-kept}
use cpp_gossip.Queue.WellFormed.{Apart, Unique, IsWellFormed}
use cpp_gossip.Queue.Kept.{add_item-IsWellFormed}
use cpp_gossip.Queue.Sending.{taken, again, back, deliver, IsSending}
use cpp_gossip.Queue.Delivery.{insert_lem, send-IsSending}
use cpp_gossip.Queue.{
  BroadcastQueue, Sweep, Batch, add_item, add_all, sweep, finish_sweep, tiers, last_item,
}

taken-Unique :
    (x : LimitedBroadcast) (xs : List LimitedBroadcast)
    → All (Apart x) xs
    → taken xs x.b.node ≡ none
taken-Unique x [] h = refl
taken-Unique x (y ∷ ys) h = ground (arith, taken-Unique x ys h.1, h.0)

-- An element that is not in the queue, by name or by number.
abbrev IsOutside : BroadcastQueue → LimitedBroadcast → Type 0
IsOutside q y = All (Apart y) q.tq × (y.id ≤ q.id_gen) × (q.tm y.b.node ≡ none)

add_item-IsOutside :
    (x : LimitedBroadcast) (q : BroadcastQueue) (ys : List LimitedBroadcast)
    → All (Apart x) ys
    → All (IsOutside q) ys
    → All (IsOutside (add_item x q)) ys
unfolding add_item
add_item-IsOutside x q [] a h = tt
add_item-IsOutside x q (y ∷ ys) a h = (
  (
    All-set_insert (Apart y) x q.tq (λ e. a.0.0 (sym e), λ e. a.0.1 (sym e)) h.0.0,
    h.0.1,
    insert_lem q.tm x.b.node y.b.node x ∙ ground (arith, a.0, h.0.2),
  ),
  add_item-IsOutside x q ys a.1 h.1,
)

add_item-tm :
    (x : LimitedBroadcast) (q : BroadcastQueue) (k : String)
    → (add_item x q).tm k ≡ (if same x.b.node k then some x else q.tm k)
unfolding add_item
add_item-tm x q k = insert_lem q.tm x.b.node k x

module _ (transmit_limit : ℕ) where
  Readded : List LimitedBroadcast → BroadcastQueue → BroadcastQueue → Type 0
  Readded sent q q' =
      IsWellFormed q' × ((k : String) → q'.tm k ≡ back transmit_limit (taken sent k) (q.tm k))

  add_all-Readded :
      (sent : List LimitedBroadcast) (q : BroadcastQueue)
      → IsWellFormed q
      → Unique sent
      → All (IsOutside q) sent
      → Readded sent q (add_all (again transmit_limit sent) q)
  unfolding add_all Readded
  add_all-Readded [] q w u o = (w, λ k. refl)
  add_all-Readded (x ∷ xs) q w u o =
      elim (Bool-cases (leb transmit_limit ((x.transmits + 1) % u32_mod))) [
        | inl gone ↦
            let (w', view) = add_all-Readded xs q w u.1 o.1 in
            rw (gone, add_all) (w', λ k. ground (arith, view k, taken-Unique x xs u.0, o.0.2))
        | inr more ↦
            let x' : LimitedBroadcast = record x { transmits = (x.transmits + 1) % u32_mod } in
            let (w', view) =
              add_all-Readded xs (add_item x' q) (add_item-IsWellFormed x' q o.0.0 o.0.1 w) u.1
                (add_item-IsOutside x' q xs u.0 o.1) in
            rw (more, add_all)
              (w', λ k. ground (arith, view k, taken-Unique x xs u.0, add_item-tm x' q k))
      ]

  -- What a call of `GetBroadcasts` gives: the messages `sent`, appended in this order.
  pub record IsDelivery (q : BroadcastQueue) (cbc : List Broadcast) (sent : List LimitedBroadcast)
      (b : Batch) : Type 0 where
    pub messages : b.cbc ≡ cbc ++ map (λ (x : LimitedBroadcast). x.b.msg) sent
    pub queued : All (λ x. q.tm x.b.node ≡ some x) sent
    pub once : Unique sent
    pub view : (k : String) → b.queue.tm k ≡ deliver transmit_limit sent q.tm k
    pub whole : IsWellFormed b.queue

  pub finish_sweep-IsDelivery :
      (q : BroadcastQueue) (cbc : List Broadcast) (sent : List LimitedBroadcast) (s : Sweep)
      → IsSending transmit_limit q cbc sent s
      → IsDelivery q cbc sent (finish_sweep s)
  unfolding Readded
  finish_sweep-IsDelivery q cbc sent s w =
      let (w', view) = add_all-Readded sent s.queue w.whole w.unique w.apart in
      record {
        messages = w.messages;
        queued = w.from;
        once = w.unique;
        view = λ k. rw w.waiting (ground (arith, view k, w.view k));
        whole = rw w.waiting w';
      }

  pub AfterSweep : BroadcastQueue → List Broadcast → Option Batch → Type 0
  AfterSweep q cbc none = Unit
  AfterSweep q cbc (some b) = (sent : List LimitedBroadcast) × IsDelivery q cbc sent b

  delivered :
      (q : BroadcastQueue) (cbc : List Broadcast) (o : Option Sweep)
      → AfterTiers (λ s. (sent : List LimitedBroadcast) × IsSending transmit_limit q cbc sent s) o
      → AfterSweep q cbc (elim o [ none ↦ none | some s ↦ some (finish_sweep s) ])
  unfolding AfterSweep
  delivered q cbc none p = tt
  delivered q cbc (some s) (sent, w) = (sent, finish_sweep-IsDelivery q cbc sent s w)

  pub sweep_empty :
      (overhead limit : ℕ) (unset : Bool) (cbc : List Broadcast) (q : BroadcastQueue)
      → q.tq ≡ []
      → sweep transmit_limit unset overhead limit cbc q
        ≡ some (record { queue = q; cbc = cbc; have_msg = false })
  unfolding sweep
  sweep_empty overhead limit unset cbc q e = ground arith

  pub sweep_begun :
      (overhead limit : ℕ) (unset : Bool) (cbc : List Broadcast) (q : BroadcastQueue)
      (x : LimitedBroadcast) (xs : List LimitedBroadcast)
      → q.tq ≡ x ∷ xs
      → sweep transmit_limit unset overhead limit cbc q
        ≡ elim (tiers
            ((last_item x xs).transmits + 1 - x.transmits)
            (length xs + 2)
            overhead
            limit
            transmit_limit
            x.transmits
            (record { queue = q; cbc = cbc; bytes_used = 0; reinsert = []; have_msg = unset })) [
              | none ↦ none
              | some s ↦ some (finish_sweep s)
            ]
  unfolding sweep
  sweep_begun overhead limit unset cbc q x xs e = ground arith

  -- The variables of the loops at their start.
  abbrev pub begin : Bool → BroadcastQueue → List Broadcast → Sweep
  begin unset q cbc = record {
    queue = q;
    cbc = cbc;
    bytes_used = 0;
    reinsert = [];
    have_msg = unset;
  }

  pub begin-IsSending :
      (unset : Bool) (q : BroadcastQueue) (cbc : List Broadcast)
      → IsWellFormed q
      → IsSending transmit_limit q cbc [] (begin unset q cbc)
  begin-IsSending unset q cbc w = record {
    whole = w;
    messages = sym (append-nil cbc);
    waiting = refl;
    from = tt;
    unique = tt;
    apart = tt;
    view = λ k. refl;
  }

  pub nothing_sent :
      (q : BroadcastQueue) (cbc : List Broadcast) (have : Bool)
      → IsWellFormed q
      → IsDelivery q cbc [] (record { queue = q; cbc = cbc; have_msg = have })
  nothing_sent q cbc have w = record {
    messages = sym (append-nil cbc);
    queued = tt;
    once = tt;
    view = λ k. refl;
    whole = w;
  }

  pub sweep-AfterSweep :
      (overhead limit : ℕ) (unset : Bool) (cbc : List Broadcast) (q : BroadcastQueue)
      → IsWellFormed q
      → AfterSweep q cbc (sweep transmit_limit unset overhead limit cbc q)
  unfolding sweep AfterSweep
  sweep-AfterSweep overhead limit unset cbc q w = by_items q.tq refl
    where
      by_items :
          (xs : List LimitedBroadcast)
          → q.tq ≡ xs
          → AfterSweep q cbc (sweep transmit_limit unset overhead limit cbc q)
      by_items [] e = rw (sweep_empty overhead limit unset cbc q e) ([], nothing_sent q cbc false w)
      by_items (x ∷ xs) e = rw (sweep_begun overhead limit unset cbc q x xs e) (
          delivered q cbc _ (
            tiers-kept overhead limit transmit_limit
              (λ s. (sent : List LimitedBroadcast) × IsSending transmit_limit q cbc sent s)
              (λ y s i (sent, p).
                (sent ++ y ∷ [], send-IsSending transmit_limit q cbc y s sent i p))
              _ _ _ _ ([], begin-IsSending unset q cbc w)))

pub to_IsIndexed :
    (byte_size : Broadcast → ℕ) (q : BroadcastQueue)
    → All (IsSized byte_size) q.tq
    → IsWellFormed q
    → IsIndexed byte_size q
to_IsIndexed byte_size q sized w = record {
  sized = sized;
  named =
      All-imp (λ x. q.tm x.b.node ≡ some x) (λ x. q.tm x.b.node ≢ none) q.tq (λ x e n. cc) w.mapped;
}

module _ (byte_size : Broadcast → ℕ) (transmit_limit overhead limit : ℕ) (unset : Bool) where
  pub pick_sent :
      (cbc : List Broadcast) (q : BroadcastQueue) (o : Option Batch) (b : Batch)
      → o ≡ some b
      → AfterSweep transmit_limit q cbc o
      → (sent : List LimitedBroadcast) × IsDelivery transmit_limit q cbc sent b
  unfolding AfterSweep
  pick_sent cbc q none b e p = cc
  pick_sent cbc q (some c) b e p = let same_batch : c ≡ b = cc in rw (← same_batch) p
