-- ===== src/Handoff/Threads.antt =====
-- The two threads at the hand-over of broadcasts: the one of `packetListen`, in `handleComBroadcast`,
-- and the one of `packetHandler`. A step of either is what it does up to its next wait. `capacity` is
-- the number of one-byte packets that the pipe `handoffFd` holds; a `Write` to a full pipe waits.
use cpp_gossip.Base.{
  ℕ, ◌+◌, ◌-◌, ◌<◌, ◌≡◌, true, false, none, some, List, [], ◌∷◌, ◌++◌, length, ltb, if◌then◌else◌,
  Bool,
}
use cpp_gossip.Message.{Broadcast}
use cpp_gossip.Handoff.{Handoff, MsgHandoff, SockAddr, is_alive_msg, get_next_message}

-- Where the listener stands: outside of `handleComBroadcast`; in its loop with `msgQueueMutex`; or in
-- the loop, at the `Write` for the broadcast that it has just put into a queue.
pub data Listener : Type 0 where
  outside : Listener
  looping : SockAddr → List Broadcast → Listener
  writing : SockAddr → List Broadcast → Listener

-- Where the handler stands: at its `Select`, or at the lock of `getNextMessage`.
pub data Handler : Type 0 where
  selecting : Handler
  taking : Handler

pub record Threads : Type 0 where
  pub listener : Listener
  pub handler : Handler
  pub handoff : Handoff
  pub taken : List MsgHandoff

-- A queue takes the broadcast, or is full.
unfoldable pub emplace : ℕ → SockAddr → Broadcast → Handoff → Handoff × Bool
emplace depth from bc h =
    let msg : MsgHandoff = record { b = bc; from = from } in
    if is_alive_msg bc
    then (if ltb (length h.high) depth
        then (record h { high = msg ∷ h.high }, true)
        else (h, false))
    else (if ltb (length h.low) depth then (record h { low = msg ∷ h.low }, true) else (h, false))

abbrev pub put : SockAddr → List Broadcast → Bool → Listener
put from bcs true = writing from bcs
put from bcs false = looping from bcs

unfoldable pub put_next : ℕ → SockAddr → Broadcast → List Broadcast → Threads → Threads
put_next depth from bc bcs s =
    let (h, room) = emplace depth from bc s.handoff in
    record s { listener = put from bcs room; handoff = h }

-- A free `msgQueueMutex`.
abbrev pub IsFree : Listener → Type 0
IsFree outside = Unit {0}
IsFree (looping from bcs) = ⊥
IsFree (writing from bcs) = ⊥

unfoldable pub take_next : Threads → Threads
take_next s = elim (get_next_message s.handoff) [
  | none ↦ record s { handler = selecting }
  | some (msg, rest) ↦ record s { handoff = rest; taken = s.taken ++ msg ∷ [] }
]

pub data Step (capacity depth : ℕ) : Threads → Threads → Type 0 where
  locked :
      (from : SockAddr) (bcs : List Broadcast) {s : Threads}
      → s.listener ≡ outside
      → Step capacity depth s (record s { listener = looping from bcs })
  emplaced :
      (from : SockAddr) (bc : Broadcast) (bcs : List Broadcast) {s : Threads}
      → s.listener ≡ looping from (bc ∷ bcs)
      → Step capacity depth s (put_next depth from bc bcs s)
  written :
      (from : SockAddr) (bcs : List Broadcast) {s : Threads}
      → s.listener ≡ writing from bcs
      → s.handoff.woken < capacity
      → Step capacity depth s (record s {
        listener = looping from bcs;
        handoff = record (s.handoff) { woken = s.handoff.woken + 1 };
      })
  unlocked :
      (from : SockAddr) {s : Threads}
      → s.listener ≡ looping from []
      → Step capacity depth s (record s { listener = outside })
  woke :
      {s : Threads}
      → s.handler ≡ selecting
      → 0 < s.handoff.woken
      → Step capacity depth s (record s {
        handler = taking;
        handoff = record (s.handoff) { woken = s.handoff.woken - 1 };
      })
  took :
      {s : Threads} → s.handler ≡ taking → IsFree s.listener → Step capacity depth s (take_next s)

pub data Steps (capacity depth : ℕ) : Threads → Threads → Type 0 where
  here : {s : Threads} → Steps capacity depth s s
  next :
      {s t u : Threads}
      → Steps capacity depth s t
      → Step capacity depth t u
      → Steps capacity depth s u

abbrev pub no_messages : Handoff
no_messages = record { high = []; low = []; woken = 0 }

abbrev pub at_rest : Threads
at_rest = record { listener = outside; handler = selecting; handoff = no_messages; taken = [] }
