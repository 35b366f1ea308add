-- ===== src/Queue/Sending.antt =====
-- What `GetBroadcasts` does to the map from names to messages: it sends some messages, each once, and
-- puts those back that are to be sent again.
use cpp_gossip.Base.{
  ℕ, ◌+◌, ◌%◌, ◌≤◌, ◌≡◌, ◌≢◌, inl, inr, refl, sym, ap, ◌∙◌, Option, none, some, List, [], ◌∷◌, ◌++◌,
  map, String, Map, arith, All, All-append, All-imp, same, leb, if◌then◌else◌, u32_mod,
}
use cpp_gossip.Message.{Broadcast}
use cpp_gossip.Queue.Order.{LimitedBroadcast}
use cpp_gossip.Queue.Select.{In, In-All}
use cpp_gossip.Queue.WellFormed.{Apart, Unique, IsWellFormed}
use cpp_gossip.Queue.{BroadcastQueue, Sweep}

-- The message of a name among those sent.
abbrev pub taken : List LimitedBroadcast → String → Option LimitedBroadcast
taken [] k = none
taken (x ∷ xs) k = if same x.b.node k then some x else taken xs k

-- What becomes of a message that was sent.
abbrev pub requeue : ℕ → LimitedBroadcast → Option LimitedBroadcast
requeue transmit_limit x =
    if leb transmit_limit ((x.transmits + 1) % u32_mod)
    then none
    else some (record x { transmits = (x.transmits + 1) % u32_mod })

abbrev pub or_else : Option LimitedBroadcast → List LimitedBroadcast → List LimitedBroadcast
or_else none xs = xs
or_else (some x) xs = x ∷ xs

abbrev pub again : ℕ → List LimitedBroadcast → List LimitedBroadcast
again transmit_limit [] = []
again transmit_limit (x ∷ xs) = or_else (requeue transmit_limit x) (again transmit_limit xs)

-- The map without the messages that were sent, and the map once they are back.
abbrev pub without : Option LimitedBroadcast → Option LimitedBroadcast → Option LimitedBroadcast
without none o = o
without (some x) o = none

abbrev pub back : ℕ → Option LimitedBroadcast → Option LimitedBroadcast → Option LimitedBroadcast
back transmit_limit none o = o
back transmit_limit (some x) o = requeue transmit_limit x

-- The abstract `GetBroadcasts`: the map after the messages `sent` have gone out once each.
abbrev pub deliver :
    ℕ → List LimitedBroadcast → Map String LimitedBroadcast → Map String LimitedBroadcast
deliver transmit_limit sent tm k = back transmit_limit (taken sent k) (tm k)

-- The variables of the loop, when `sent` have been sent from the queue `q`, after `cbc`.
pub record IsSending (transmit_limit : ℕ) (q : BroadcastQueue) (cbc : List Broadcast)
    (sent : List LimitedBroadcast) (s : Sweep) : Type 0 where
  pub whole : IsWellFormed s.queue
  pub messages : s.cbc ≡ cbc ++ map (λ (x : LimitedBroadcast). x.b.msg) sent
  pub waiting : s.reinsert ≡ again transmit_limit sent
  pub from : All (λ x. q.tm x.b.node ≡ some x) sent
  pub unique : Unique sent
  pub apart :
      All
        (λ x. All (Apart x) s.queue.tq × (x.id ≤ s.queue.id_gen) × (s.queue.tm x.b.node ≡ none))
        sent
  pub view : (k : String) → s.queue.tm k ≡ without (taken sent k) (q.tm k)

pub taken-snoc :
    (sent : List LimitedBroadcast) (x : LimitedBroadcast) (k : String)
    → taken sent x.b.node ≡ none
    → taken (sent ++ x ∷ []) k ≡ (if same x.b.node k then some x else taken sent k)
taken-snoc [] x k h = refl
taken-snoc (y ∷ ys) x k h = ground (arith, taken-snoc ys x k)

pub again-snoc :
    (transmit_limit : ℕ) (sent : List LimitedBroadcast) (x : LimitedBroadcast)
    → again transmit_limit (sent ++ x ∷ [])
      ≡ again transmit_limit sent ++ or_else (requeue transmit_limit x) []
again-snoc transmit_limit [] x = refl
again-snoc transmit_limit (y ∷ ys) x = ground (arith, again-snoc transmit_limit ys x)

pub Unique-snoc :
    (sent : List LimitedBroadcast) (x : LimitedBroadcast)
    → All (λ y. Apart y x) sent
    → Unique sent
    → Unique (sent ++ x ∷ [])
Unique-snoc [] x a h = (tt, tt)
Unique-snoc (y ∷ ys) x a h =
    (All-append (Apart y) ys (x ∷ []) h.0 (a.0, tt), Unique-snoc ys x a.1 h.1)

-- In a list with unique names and numbers, an element is apart from all that have another name.
pub other_ids :
    (x : LimitedBroadcast) (xs : List LimitedBroadcast)
    → Unique xs
    → In x xs
    → All (λ y. y.b.node ≢ x.b.node → y.id ≢ x.id) xs
other_ids x [] h i = tt
other_ids x (y ∷ ys) h (inl e) = (
  λ n. absurd (n (ap (λ (z : LimitedBroadcast). z.b.node) (sym e))),
  All-imp (Apart y) (λ z. z.b.node ≢ x.b.node → z.id ≢ x.id) ys
      (λ z a _ f. a.1 (f ∙ ap (λ (w : LimitedBroadcast). w.id) e)) h.0,
)
other_ids x (y ∷ ys) h (inr i) =
    ((λ n f. (In-All (Apart y) x ys i h.0).1 (sym f)), other_ids x ys h.1 i)

pub All-and :
    (x : LimitedBroadcast) (ys : List LimitedBroadcast)
    → All (λ y. y.b.node ≢ x.b.node) ys
    → All (λ y. y.b.node ≢ x.b.node → y.id ≢ x.id) ys
    → All (Apart x) ys
All-and x [] h k = tt
All-and x (y ∷ ys) h k = ((h.0, k.0 h.0), All-and x ys h.1 k.1)
