-- ===== src/Listen.antt =====
-- The three loops of src/memberlist/handlemsg.cpp, over what their `Select` wakes them for.
pub mod Laws
use cpp_gossip.Base.{
  ℕ, zero, suc, ◌+◌, ◌-◌, Bool, true, false, Option, none, some, List, [], ◌∷◌, ◌++◌, String,
  length, ltb, if◌then◌else◌,
}
use cpp_gossip.Double.{Double}
use cpp_gossip.Message.{Broadcast, MessageData}
use cpp_gossip.Member.{Member, Outcome, done, blocked, crashed, Env}
use cpp_gossip.Handoff.{
  Handoff, MsgHandoff, SockAddr, handle_com_broadcast, get_next_message, handle_broadcast,
}
use cpp_gossip.Exchange.{Memberlist, handle_command}
use cpp_gossip.Net.{Decoded, undefined, message, decode_receive}

-- Which of its two descriptors `Select` has set, with what comes in on the second.
pub record Wake {ℓ} (A : Type ℓ) : Type ℓ where
  pub shutdown : Bool
  pub arrival : Option A

-- A loop goes on, has returned, or has written outside a buffer.
pub data Listening {ℓ} (S : Type ℓ) : Type ℓ where
  listening : S → Listening S
  ended : S → Listening S
  corrupted : S → Listening S

-- `streamListen`: the connections for each of which a thread of `handleConn` is started.
unfoldable pub stream_listen : List (Wake ℕ) → List ℕ → Listening (List ℕ)
stream_listen [] conns = listening conns
stream_listen (w ∷ ws) conns =
    if w.shutdown then ended conns else stream_listen ws (accepted w.arrival)
  where
    accepted : Option ℕ → List ℕ
    accepted none = conns
    accepted (some connfd) = conns ++ connfd ∷ []

-- A datagram with its sender, the time at which it is received, and the write end of the pipe that an
-- indirect ping makes.
pub record Packet : Type 0 where
  pub payload : List ℕ
  pub remote : SockAddr
  pub ts : ℕ
  pub cancel_fd : ℕ

module _ (inet_pton : String → Option ℕ) (htons : ℕ → ℕ) (serialize : MessageData → List ℕ)
    (parse : List ℕ → MessageData × Bool) where
  abbrev pub handle_decoded : Decoded serialize parse → Packet → Memberlist → Listening Memberlist
  handle_decoded undefined p l = corrupted l
  handle_decoded (message md) p l =
      listening (handle_command inet_pton htons md p.remote p.cancel_fd p.ts l)

  abbrev pub handle_packet : Option Packet → Memberlist → Listening Memberlist
  handle_packet none l = listening l
  handle_packet (some p) l = handle_decoded (decode_receive serialize parse p.payload) p l

  -- `packetListen`
  unfoldable pub packet_listen : List (Wake Packet) → Memberlist → Listening Memberlist
  packet_listen [] l = listening l
  packet_listen (w ∷ ws) l = if w.shutdown then ended l else elim (handle_packet w.arrival l) [
    | listening l' ↦ packet_listen ws l'
    | ended l' ↦ ended l'
    | corrupted l' ↦ corrupted l'
  ]

-- What `packetHandler` lives through: a compound message is handed over, or `Select` comes back, with
-- the shutdown descriptor set or not; and what the handlers read from outside, by message.
pub data Happening : Type 0 where
  came : SockAddr → List Broadcast → Happening
  select_back : Bool → (ℕ → Env) → Happening

unfoldable pub with_envs : (ℕ → Env) → List MsgHandoff → List (Env × MsgHandoff)
with_envs envs [] = []
with_envs envs (msg ∷ msgs) = (envs 0, msg) ∷ with_envs (λ i. envs (suc i)) msgs

module _ (byte_size : Broadcast → ℕ) (d : Double) (depth : ℕ) where
  -- The loop goes on only if the handler has come back.
  abbrev pub go_on : (Member → Handoff → Outcome × Handoff) → Outcome × Handoff → Outcome × Handoff
  go_on f (done m, h) = f m h
  go_on f (blocked m, h) = (blocked m, h)
  go_on f (crashed m, h) = (crashed m, h)

  -- The inner loop: one message is taken and handled, and then the next.
  unfoldable pub handle_taken : ℕ → (ℕ → Env) → Member → Handoff → Outcome × Handoff
  handle_taken zero envs m h = (done m, h)
  handle_taken (suc fuel) envs m h = elim (get_next_message h) [
    | none ↦ (done m, h)
    | some (msg, rest) ↦
        go_on (handle_taken fuel (λ i. envs (suc i)))
          (handle_broadcast byte_size d (envs 0) msg.b m, rest)
  ]

  -- The pipe is in the set when it holds a byte. One `Read` takes one, since the pipe keeps the packets
  -- apart. Nothing is put into the queues during the round.
  unfoldable pub handler_round : (ℕ → Env) → Member → Handoff → Outcome × Handoff
  handler_round envs m h =
      if ltb 0 h.woken
      then handle_taken (length h.high + length h.low + 1) envs m (record h { woken = h.woken - 1 })
      else (done m, h)

  -- `packetHandler`
  unfoldable pub packet_handler : List Happening → Member → Handoff → Outcome × Handoff
  packet_handler [] m h = (done m, h)
  packet_handler (came from bcs ∷ rest) m h =
      packet_handler rest m (handle_com_broadcast depth from bcs h)
  packet_handler (select_back true envs ∷ rest) m h = (done m, h)
  packet_handler (select_back false envs ∷ rest) m h =
      go_on (λ m' h'. packet_handler rest m' h') (handler_round envs m h)
