-- ===== src/Exchange.antt =====
-- State exchanges and what a connection or a datagram leads to: `handleConn`, `handleCommand` and
-- `handlePushPull` of src/memberlist/handlemsg.cpp, `pushPullNode`, `sendAndReceiveState` and
-- `sendPingAndWaitForAck` of src/memberlist/state.cpp.
pub mod Spread
use cpp_gossip.Base.{
  if◌then◌else◌, true, ℕ, String, ◌≡◌, refl, Bool, false, Option, none, some, List, [], ◌∷◌, ◌++◌,
  map, ◌==◌, arith, length, ap, sym, ◌∙◌,
}
use mathlib.Core.List.{append_assoc, append-nil}
use cpp_gossip.Double.{Double}
use cpp_gossip.Node.{NodeState}
use cpp_gossip.Message.{
  Broadcast, MessageData, PushPull, PushNodeState, ping_msg, indirect_ping_msg, ack_resp_msg,
  nack_resp_msg, push_pull_msg, compound_broad, gen_push_pull,
}
use cpp_gossip.Handoff.{SockAddr, Handoff, handle_com_broadcast}
use cpp_gossip.Schedule.{Schedule, deschedule}
use cpp_gossip.Acks.{
  emit, close, send_tcp, handle_ping_tcp, Acks, handle_ping_udp, handle_indirect_ping, handle_ack,
  handle_nack,
}
use cpp_gossip.Member.{Member, Outcome, done, Env, next_seq_num}
use cpp_gossip.Member.Local.{
  fatal, begin_leave, local_state, add_states, merge_remote_state, members, members_in, num_members,
  num_members_in,
}

-- The answer to a push/pull, or nothing: `MessageData()` has another head.
unfoldable pub push_pull_answer : MessageData → Option PushPull
push_pull_answer (push_pull_msg p) = some p
push_pull_answer _ = none

-- Is the answer over TCP the ack of the ping with this number?
unfoldable pub tcp_ping_answer : ℕ → MessageData → Bool
tcp_ping_answer seq (ack_resp_msg n) = n == seq
tcp_ping_answer seq _ = false

-- The tables of a member, its ack handlers, the queues of received broadcasts, and the timers.
pub record Memberlist : Type 0 where
  pub member : Member
  pub acks : Acks
  pub handoff : Handoff
  pub timers : Schedule

-- `handleCommand`: the datagrams. `cancel_fd` is the write end of the pipe of an indirect ping, and
-- `ts` the time of receipt. User messages are ignored, and so is any other.
module _ (inet_pton : String → Option ℕ) (htons : ℕ → ℕ) where
  unfoldable pub handle_command : MessageData → SockAddr → ℕ → ℕ → Memberlist → Memberlist
  handle_command (ping_msg p) remote cancel_fd ts l = record l {
    acks = handle_ping_udp p remote l.acks;
  }
  handle_command (indirect_ping_msg p) remote cancel_fd ts l =
      let (m, seq) = next_seq_num l.member in
      record l {
        member = m;
        acks = handle_indirect_ping inet_pton htons m.config seq cancel_fd p remote l.acks;
      }
  handle_command (ack_resp_msg seq) remote cancel_fd ts l = record l {
    acks = handle_ack seq ts l.acks;
  }
  handle_command (nack_resp_msg seq) remote cancel_fd ts l = record l {
    acks = handle_nack seq l.acks;
  }
  handle_command (compound_broad bcs) remote cancel_fd ts l = record l {
    handoff = handle_com_broadcast l.member.config.handoff_queue_depth remote bcs l.handoff;
  }
  handle_command _ remote cancel_fd ts l = l

module _ (byte_size : Broadcast → ℕ) (d : Double) where
  -- `handlePushPull`: the local state is sent before the remote one is merged. The entries come with
  -- what their handlers read from outside.
  unfoldable pub handle_push_pull : Bool → List (Env × PushNodeState) → Member → PushPull × Outcome
  handle_push_pull join states m = (local_state join m, merge_remote_state byte_size d states m)

  -- `pushPullNode`, with the answer that came.
  unfoldable pub push_pull_node :
      (PushPull → List (Env × PushNodeState)) → MessageData → Member → Outcome
  push_pull_node read answer m = elim (push_pull_answer answer) [
    | none ↦ done m
    | some p ↦ merge_remote_state byte_size d (read p) m
  ]

-- A connection is closed once its handler has come back.
abbrev pub closed : ℕ → Outcome → Acks → Acks
closed connfd (done m) a = emit (close connfd) a
closed connfd o a = a

module _ (byte_size : Broadcast → ℕ) (d : Double)
    (read : PushPull → List (Env × PushNodeState)) where
  -- `handleConn`: the tables, and what is sent and closed. User messages are ignored.
  unfoldable pub handle_conn : MessageData → ℕ → Member → Acks → Outcome × Acks
  handle_conn (push_pull_msg p) connfd m a =
      let (answer, o) = handle_push_pull byte_size d p.join (read p) m in
      (o, closed connfd o (emit (send_tcp connfd (push_pull_msg answer)) a))
  handle_conn (ping_msg p) connfd m a = (done m, emit (close connfd) (handle_ping_tcp p connfd a))
  handle_conn _ connfd m a = (done m, emit (close connfd) a)

-- `ShutDown`, which takes `nodeMutex` for all of it.
unfoldable pub shut_down : ℕ → ℕ → Memberlist → Memberlist
shut_down tcp_fd shutdown_fd l = if l.member.shutdown then l else record l {
  member = record (l.member) { shutdown = true };
  acks = emit (close shutdown_fd) (emit (close tcp_fd) l.acks);
  timers = deschedule l.member.config l.timers;
}

-- What is sent of one node.
abbrev pub entry_of : NodeState → PushNodeState
entry_of st = record {
  name = st.n.name;
  addr = st.n.addr;
  port = st.n.port;
  incarnation = st.incarnation;
  state = st.state;
}

add_states-map :
    (m : Member) (ps : List ℕ) (msg : PushPull)
    → add_states m ps msg ≡ record msg { states = msg.states ++ map (λ p. entry_of (m.cell p)) ps }
unfolding add_states
add_states-map m [] msg = ap (λ l. record msg { states = l }) (sym (append-nil msg.states))
add_states-map m (p ∷ ps) msg =
    add_states-map m ps _
    ∙ ap (λ l. record msg { states = l })
        (append_assoc msg.states (entry_of (m.cell p) ∷ []) (map (λ q. entry_of (m.cell q)) ps))

-- The local state that is sent has one entry for each node, in the order of `nodes`, with what the
-- tables say of it.
pub local_state-map :
    (join : Bool) (m : Member)
    → local_state join m ≡ record { join = join; states = map (λ p. entry_of (m.cell p)) m.nodes }
unfolding local_state
local_state-map join m = add_states-map m m.nodes (gen_push_pull join)

length-members_in : (m : Member) (ps : List ℕ) → length (members_in m ps) ≡ num_members_in m ps
unfolding members_in num_members_in
length-members_in m [] = refl
length-members_in m (p ∷ ps) = ground (arith, length-members_in m ps)

-- `NumMembers` is the length of what `Members` gives.
pub num_members-length : (m : Member) → length (members m) ≡ num_members m
unfolding members num_members
num_members-length m = length-members_in m m.nodes

-- A second `ShutDown` changes nothing, and a `Leave` after the first is the error that it reports, and
-- changes nothing.
pub shut_down_lem :
    (tcp_fd shutdown_fd : ℕ) (l : Memberlist)
    → (let l' = shut_down tcp_fd shutdown_fd l in
        (shut_down tcp_fd shutdown_fd l' ≡ l')
        × (l'.member.shutdown ≡ true)
        × (begin_leave l'.member ≡ (l'.member, fatal)))
unfolding shut_down begin_leave
shut_down_lem tcp_fd shutdown_fd l = ground arith
