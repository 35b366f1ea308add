-- ===== src/Handoff.antt =====
-- The hand-over of received broadcasts: `handleComBroadcast` and `packetHandler` of
-- src/memberlist/handlemsg.cpp, `getNextMessage` of src/memberlist/state.cpp. A `std::stack` is a list
-- with its top first; `woken` counts the bytes written to the hand-over pipe.
pub mod Laws
pub mod Threads
pub mod Wakes
pub mod Atomic
use cpp_gossip.Base.{
  ℕ, zero, suc, ◌+◌, Bool, true, false, Option, none, some, List, [], ◌∷◌, ltb, if◌then◌else◌,
  length,
}
use cpp_gossip.Message.{Broadcast, alive_msg, dead_msg, suspect_msg}
use cpp_gossip.Double.{Double}
use cpp_gossip.Member.{Member, Outcome, done, ◌>>=◌, Env}
use cpp_gossip.Member.Handlers.{alive_node, dead_node, suspect_node}

-- `sockaddr_in`: the address, and the port in network byte order.
pub record SockAddr : Type 0 where
  pub sin_addr : ℕ
  pub sin_port : ℕ

pub record MsgHandoff : Type 0 where
  pub b : Broadcast
  pub from : SockAddr

pub record Handoff : Type 0 where
  pub high : List MsgHandoff
  pub low : List MsgHandoff
  pub woken : ℕ

abbrev pub is_alive_msg : Broadcast → Bool
is_alive_msg (alive_msg a) = true
is_alive_msg _ = false

-- One broadcast of a compound message: a full queue drops it.
unfoldable pub hand_over : ℕ → SockAddr → Broadcast → Handoff → Handoff
hand_over depth from bc h =
    let msg : MsgHandoff = record { b = bc; from = from } in
    if is_alive_msg bc
    then (if ltb (length h.high) depth
        then record h { high = msg ∷ h.high; woken = h.woken + 1 }
        else h)
    else (if ltb (length h.low) depth
        then record h { low = msg ∷ h.low; woken = h.woken + 1 }
        else h)

-- `handleComBroadcast`
unfoldable pub handle_com_broadcast : ℕ → SockAddr → List Broadcast → Handoff → Handoff
handle_com_broadcast depth from [] h = h
handle_com_broadcast depth from (bc ∷ bcs) h =
    handle_com_broadcast depth from bcs (hand_over depth from bc h)

abbrev pub pop_low : Handoff → List MsgHandoff → Option (MsgHandoff × Handoff)
pop_low h [] = none
pop_low h (x ∷ xs) = some (x, record h { low = xs })

abbrev pub pop_high : Handoff → List MsgHandoff → Option (MsgHandoff × Handoff)
pop_high h [] = pop_low h h.low
pop_high h (x ∷ xs) = some (x, record h { high = xs })

-- `getNextMessage`
unfoldable pub get_next_message : Handoff → Option (MsgHandoff × Handoff)
get_next_message h = pop_high h h.high

module _ (byte_size : Broadcast → ℕ) (d : Double) where
  -- `handleAlive`, `handleDead` and `handleSuspect`: a message of another type is left.
  abbrev pub handle_alive : Env → Broadcast → Member → Outcome
  handle_alive env (alive_msg a) m = done (alive_node byte_size env a false none m)
  handle_alive env _ m = done m

  abbrev pub handle_dead : Env → Broadcast → Member → Outcome
  handle_dead env (dead_msg msg) m = done (dead_node byte_size env msg m)
  handle_dead env _ m = done m

  abbrev pub handle_suspect : Env → Broadcast → Member → Outcome
  handle_suspect env (suspect_msg s) m = suspect_node byte_size d env s m
  handle_suspect env _ m = done m

  -- The `switch` of `packetHandler`, through `handleAlive`, `handleDead` and `handleSuspect`.
  unfoldable pub handle_broadcast : Env → Broadcast → Member → Outcome
  handle_broadcast env (alive_msg a) m = handle_alive env (alive_msg a) m
  handle_broadcast env (dead_msg msg) m = handle_dead env (dead_msg msg) m
  handle_broadcast env (suspect_msg s) m = handle_suspect env (suspect_msg s) m

  -- The messages of one round, each with what its handler reads from outside.
  unfoldable pub handle_all : List (Env × MsgHandoff) → Member → Outcome
  handle_all [] m = done m
  handle_all ((env, msg) ∷ msgs) m = handle_broadcast env msg.b m >>= (λ m'. handle_all msgs m')
