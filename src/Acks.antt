-- ===== src/Acks.antt =====
-- The table of ack handlers and the pings: `setProbePipes` and `setAckHandler` of
-- src/memberlist/state.cpp, `handlePing`, `handleIndirectPing`, `handleAck` and `handleNack` of
-- src/memberlist/handlemsg.cpp. What they write to pipes and sockets is a log, oldest first.
pub mod Laws
use cpp_gossip.Base.{
  ℕ, String, Bool, true, false, Option, none, some, List, [], ◌∷◌, ◌++◌, Map, insert, erase,
  ℕ_discrete, if◌then◌else◌, u16_mod, ◌%◌,
}
use cpp_gossip.Config.{Config}
use cpp_gossip.Node.{Node}
use cpp_gossip.Message.{MessageData, Ping, IndirectPing, gen_ping, gen_ack_resp, gen_nack_resp}
use cpp_gossip.Timer.{Timer, new_timer, copy_timer, run, stop}
use cpp_gossip.Handoff.{SockAddr}

-- The callbacks that a handler captures. A relay has no `nackFn`.
pub data Callbacks : Type 0 where
  probe_pipes : ℕ → ℕ → Callbacks
  relay : ℕ → SockAddr → ℕ → Callbacks

pub record AckHandler : Type 0 where
  pub callbacks : Callbacks
  pub t : Timer

-- `ackMessage` on a pipe, the byte of a nack, a closed descriptor, the answer of a timer's `Stop`, and
-- a message that is sent.
pub data Effect : Type 0 where
  ack_message : ℕ → Bool → ℕ → Effect
  nack_byte : ℕ → Effect
  close : ℕ → Effect
  timer_stopped : Bool → Effect
  send_udp : SockAddr → MessageData → Effect
  send_tcp : ℕ → MessageData → Effect

pub record Acks : Type 0 where
  pub handlers : Map ℕ AckHandler
  pub log : List Effect

abbrev pub emit : Effect → Acks → Acks
emit e a = record a { log = a.log ++ e ∷ [] }

abbrev pub register : ℕ → AckHandler → Acks → Acks
register seq h a = record a { handlers = insert ℕ_discrete seq h a.handlers }

abbrev pub unregister : ℕ → Acks → Acks
unregister seq a = record a { handlers = erase ℕ_discrete seq a.handlers }

-- The handler keeps a copy of the timer, and the copy is started.
unfoldable pub set_probe_pipes : ℕ → ℕ → ℕ → ℕ → Acks → Acks
set_probe_pipes seq ack_pipe nack_pipe probe_interval a =
    register seq
      (record {
        callbacks = probe_pipes ack_pipe nack_pipe;
        t = run (copy_timer (new_timer probe_interval true false));
      })
      a

-- The timer has no task, so it would not run, and it is not started.
unfoldable pub set_ack_handler : ℕ → Callbacks → ℕ → Acks → Acks
set_ack_handler seq callbacks timeout a =
    register seq (record { callbacks = callbacks; t = copy_timer (new_timer timeout false false) })
      a

-- `ackFn`
abbrev pub call_ack : Callbacks → ℕ → Acks → Acks
call_ack (probe_pipes ack_pipe nack_pipe) ts a = emit (ack_message ack_pipe true ts) a
call_ack (relay seq requester cancel_fd) ts a =
    emit (send_udp requester (gen_ack_resp seq)) (emit (close cancel_fd) a)

-- `nackFn`, if there is one.
abbrev pub call_nack : Callbacks → Acks → Acks
call_nack (probe_pipes ack_pipe nack_pipe) a = emit (nack_byte nack_pipe) a
call_nack (relay seq requester cancel_fd) a = a

unfoldable pub handle_ack : ℕ → ℕ → Acks → Acks
handle_ack seq ts a = elim (a.handlers seq) [
  | none ↦ a
  | some h ↦ call_ack h.callbacks ts (emit (timer_stopped (stop h.t).1) (unregister seq a))
]

unfoldable pub handle_nack : ℕ → Acks → Acks
handle_nack seq a = elim (a.handlers seq) [ none ↦ a | some h ↦ call_nack h.callbacks a ]

-- The task of the timer of a probe: it tells the prober that the time is over.
unfoldable pub probe_expired : ℕ → ℕ → Acks → Acks
probe_expired ack_pipe now a = emit (ack_message ack_pipe false now) a

-- `handlePing`, over TCP and over UDP. Both only warn if the ping names another node.
unfoldable pub handle_ping_tcp : Ping → ℕ → Acks → Acks
handle_ping_tcp ping connfd a = emit (send_tcp connfd (gen_ack_resp ping.seq_no)) a

unfoldable pub handle_ping_udp : Ping → SockAddr → Acks → Acks
handle_ping_udp ping remote a = emit (send_udp remote (gen_ack_resp ping.seq_no)) a

-- `handleIndirectPing`, under the sequence number that `nextSeqNum` gives; `inet_pton` is the
-- system's, and an address that it refuses stays 0. The port of the target is
-- used in the byte order in which it comes.
module _ (inet_pton : String → Option ℕ) (htons : ℕ → ℕ) where
  abbrev pub address : String → ℕ
  address addr = elim (inet_pton addr) [ none ↦ 0 | some a ↦ a ]

  unfoldable pub target_of : IndirectPing → SockAddr
  target_of p = record { sin_addr = address p.target_addr; sin_port = p.target_port % u16_mod }

  -- `Node::FullAddr`, which ends the process if the address is none.
  unfoldable pub full_addr : Node → Option SockAddr
  full_addr n = elim (inet_pton n.addr) [
    | none ↦ none
    | some a ↦ some (record { sin_addr = a; sin_port = htons n.port })
  ]

  unfoldable pub handle_indirect_ping : Config → ℕ → ℕ → IndirectPing → SockAddr → Acks → Acks
  handle_indirect_ping c local_seq cancel_fd p remote a =
      let ping = gen_ping local_seq p.node c.advertise_addr c.advertise_port c.name in
      emit (send_udp (target_of p) ping)
        (set_ack_handler local_seq (relay p.seq_no remote cancel_fd) c.probe_timeout a)

-- The thread that sends the nack, once `select` has returned: `cancelled` says that the other end of
-- its pipe was closed.
unfoldable pub nack_thread : Bool → ℕ → ℕ → ℕ → IndirectPing → SockAddr → Acks → Acks
nack_thread cancelled local_seq read_fd write_fd p remote a =
    if cancelled
    then emit (close read_fd) a
    else emit (send_udp remote (gen_nack_resp p.seq_no))
        (emit (close write_fd) (emit (close read_fd) (unregister local_seq a)))
