-- ===== src/Queue/Delivery.antt =====
-- `GetBroadcasts` as one change of the map from names to messages.
use cpp_gossip.Base.{
  ℕ, ◌≤◌, ◌≡◌, sym, ap, ◌∙◌, none, some, List, [], ◌∷◌, ◌++◌, map, String, Map, arith, All,
  All-append, All-imp, same, if◌then◌else◌, insert, erase, string_discrete,
}
use mathlib.Core.List.{append_assoc, append-nil, map-append}
use cpp_gossip.Message.{Broadcast}
use cpp_gossip.Queue.Order.{LimitedBroadcast}
use cpp_gossip.Queue.Select.{In, In-All}
use cpp_gossip.Queue.WellFormed.{Apart, IsWellFormed}
use cpp_gossip.Queue.Kept.{IsRemoved, delete_item-IsRemoved, delete_item-IsWellFormed}
use cpp_gossip.Queue.Sending.{
  taken, requeue, or_else, IsSending, taken-snoc, again-snoc, Unique-snoc, other_ids, All-and,
}
use cpp_gossip.Queue.{BroadcastQueue, Sweep, delete_item, send}

-- The log of notices is no part of what is well formed.
pub same-IsWellFormed :
    (q q' : BroadcastQueue)
    → q'.tq ≡ q.tq
    → q'.tm ≡ q.tm
    → q'.id_gen ≡ q.id_gen
    → IsWellFormed q
    → IsWellFormed q'
same-IsWellFormed q q' e f g w = record {
  ordered = rw e w.ordered;
  unique = rw e w.unique;
  mapped = rw (e, f) w.mapped;
  held = λ k. rw (e, f) (w.held k);
  numbered = rw (e, g) w.numbered;
  small = rw g w.small;
}

-- What a transmission leaves of the queue, but for the log.
pub send-queue :
    (transmit_limit : ℕ) (x : LimitedBroadcast) (s : Sweep)
    → (let q = (send transmit_limit x s).queue in
        let q' = delete_item x s.queue in (q.tq ≡ q'.tq) × (q.tm ≡ q'.tm) × (q.id_gen ≡ q'.id_gen))
unfolding send
send-queue transmit_limit x s = ground arith

pub send-lists :
    (transmit_limit : ℕ) (x : LimitedBroadcast) (s : Sweep)
    → (let s' = send transmit_limit x s in
        (s'.cbc ≡ s.cbc ++ x.b.msg ∷ [])
        × (s'.reinsert ≡ s.reinsert ++ or_else (requeue transmit_limit x) []))
unfolding send
send-lists transmit_limit x s = ground (arith, append-nil s.reinsert)

erase_lem :
    (tm : Map String LimitedBroadcast) (j k : String)
    → erase string_discrete j tm k ≡ (if same j k then none else tm k)
unfolding erase
erase_lem tm j k = ground arith

pub insert_lem :
    (tm : Map String LimitedBroadcast) (j k : String) (x : LimitedBroadcast)
    → insert string_discrete j x tm k ≡ (if same j k then some x else tm k)
unfolding insert
insert_lem tm j k x = ground arith

module _ (transmit_limit : ℕ) (q : BroadcastQueue) (cbc : List Broadcast) where
  first_sent :
      (x : LimitedBroadcast) (s : Sweep) (sent : List LimitedBroadcast)
      → In x s.queue.tq
      → IsSending transmit_limit q cbc sent s
      → (taken sent x.b.node ≡ none) × (q.tm x.b.node ≡ some x)
  first_sent x s sent i w =
      let here = In-All (λ y. s.queue.tm y.b.node ≡ some y) x s.queue.tq i w.whole.mapped in
      ground (arith, here, w.view x.b.node)

  Apart-step :
      (x : LimitedBroadcast) (s : Sweep) (sent : List LimitedBroadcast)
      → IsRemoved x s.queue (delete_item x s.queue)
      → All
          (λ y. All (Apart y) s.queue.tq × (y.id ≤ s.queue.id_gen) × (s.queue.tm y.b.node ≡ none))
          sent
      → (let s' = send transmit_limit x s in
          All
            (λ y.
              All (Apart y) s'.queue.tq × (y.id ≤ s'.queue.id_gen) × (s'.queue.tm y.b.node ≡ none))
            sent)
  Apart-step x s [] r h = tt
  Apart-step x s (y ∷ ys) r h =
      let e = send-queue transmit_limit x s in
      (
        (
          rw e.0 (r.kept (Apart y) h.0.0),
          rw (e.2, r.gen) h.0.1,
          rw e.1 (r.view y.b.node ∙ erase_lem s.queue.tm x.b.node y.b.node ∙ ground (arith, h.0.2)),
        ),
        Apart-step x s ys r h.1,
      )

  pub send-IsSending :
      (x : LimitedBroadcast) (s : Sweep) (sent : List LimitedBroadcast)
      → In x s.queue.tq
      → IsSending transmit_limit q cbc sent s
      → IsSending transmit_limit q cbc (sent ++ x ∷ []) (send transmit_limit x s)
  send-IsSending x s sent i w =
      let e = send-queue transmit_limit x s in
      let l = send-lists transmit_limit x s in
      let r = delete_item-IsRemoved x s.queue w.whole in
      let first = first_sent x s sent i w in
      let ids = r.kept _ (other_ids x s.queue.tq w.whole.unique i) in
      let numbered = In-All (λ y. y.id ≤ s.queue.id_gen) x s.queue.tq i w.whole.numbered in
      record {
        whole =
            same-IsWellFormed (delete_item x s.queue) (send transmit_limit x s).queue e.0 e.1 e.2
              (delete_item-IsWellFormed x s.queue w.whole);
        messages =
            l.0
            ∙ ap (λ (m : List Broadcast). m ++ x.b.msg ∷ []) w.messages
            ∙ append_assoc cbc (map (λ (y : LimitedBroadcast). y.b.msg) sent) (x.b.msg ∷ [])
            ∙ ap (λ (m : List Broadcast). cbc ++ m)
                (sym (map-append (λ (y : LimitedBroadcast). y.b.msg) sent (x ∷ [])));
        waiting =
            l.1
            ∙ ap (λ (m : List LimitedBroadcast). m ++ or_else (requeue transmit_limit x) [])
                w.waiting
            ∙ sym (again-snoc transmit_limit sent x);
        from = All-append (λ y. q.tm y.b.node ≡ some y) sent (x ∷ []) w.from (first.1, tt);
        unique =
            Unique-snoc sent x
              (All-imp _ (λ y. Apart y x) sent (λ y a. In-All (Apart y) x s.queue.tq i a.0) w.apart)
              w.unique;
        apart = All-append _ sent (x ∷ []) (Apart-step x s sent r w.apart) (
          (
            rw e.0 (All-and x (delete_item x s.queue).tq r.others ids),
            rw (e.2, r.gen) numbered,
            rw e.1 (r.view x.b.node ∙ erase_lem s.queue.tm x.b.node x.b.node ∙ ground arith),
          ),
          tt,
        );
        view = λ k.
            ap (λ (m : Map String LimitedBroadcast). m k) e.1
            ∙ r.view k
            ∙ erase_lem s.queue.tm x.b.node k
            ∙ ground (arith, w.view k, taken-snoc sent x k first.0);
      }
