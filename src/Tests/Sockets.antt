-- ===== src/Tests/Sockets.antt =====
-- The theorems on connections, with a system that gives each socket the descriptor 3, connects at
-- once, and has nothing to read.
use cpp_gossip.Base.{none, ℕ, true, false, List, [], ◌∷◌, Bool}
use cpp_gossip.Base.Int.{pos}
use cpp_gossip.Message.{PushNodeState, MessageData, Ping, PushPull, ack_resp_msg}
use cpp_gossip.Handoff.{SockAddr}
use cpp_gossip.Wrapped.{Act, Answer, System, socket_called}
use cpp_gossip.Wrapped.Laws.{closes}
use cpp_gossip.Wrapped.Stream.{send_ping_and_wait_for_ack, send_and_receive_state}
use cpp_gossip.Wrapped.Descriptors.{Pinged, send_ping_and_wait_for_ack-Pinged}
use cpp_gossip.Wrapped.Serve.{serve, IsServed, serve-IsServed}
use cpp_gossip.Acks.{Acks}
use cpp_gossip.Member.{Env}
use cpp_gossip.Node.{NodeState, state_alive}
use cpp_gossip.Tests.{whole, eight, pair}
use cpp_gossip.Wrapped.Transfers.{Exchanged, send_and_receive_state-Exchanged}

abbrev answers : List Act → Answer
answers (socket_called domain type protocol ∷ h) = record {
  value = pos 3;
  errno = pos 0;
  is_set = false;
  bytes = [];
  option = pos 0;
}
answers h = record { value = pos 0; errno = pos 0; is_set = false; bytes = []; option = pos 0 }

abbrev system : System
system = record {
  answer = answers;
  strerror = λ e. "error";
  with_nonblock = λ f. f;
  e_in_progress = pos 115;
  e_timed_out = pos 110;
  af_inet = 2;
  sock_stream = 1;
  sock_dgram = 2;
  o_direct = pos 16384;
  so_sndtimeo = 21;
  so_rcvtimeo = 20;
  unset_error = pos 0;
  unset_sec = 0;
}

abbrev there : SockAddr
there = record { sin_addr = 7; sin_port = 6666 }

-- Every message has one byte, and every text is an ack.
abbrev serialize : MessageData → List ℕ
serialize md = 1 ∷ []

abbrev parse : List ℕ → MessageData × Bool
parse s = (ack_resp_msg 4, true)

abbrev ping : Ping
ping = record {
  seq_no = 4;
  node = "b";
  source_addr = "127.0.0.1";
  source_port = 6666;
  source_node = "a";
}

abbrev local : PushPull
local = record { join = false; states = [] }

send_ping_and_wait_for_ack-Pinged_example :
    Pinged system serialize parse
      (pos 3)
      (closes (pos 3) [])
      ping
      (send_ping_and_wait_for_ack system serialize parse there ping (pos 100) [])
send_ping_and_wait_for_ack-Pinged_example =
    send_ping_and_wait_for_ack-Pinged system serialize parse there ping (pos 100) []

send_and_receive_state-Exchanged_example :
    Exchanged system serialize parse
      (pos 3)
      (closes (pos 3) [])
      (send_and_receive_state system serialize parse there 10 local [])
send_and_receive_state-Exchanged_example =
    send_and_receive_state-Exchanged system serialize parse there 10 local []

abbrev quiet_acks : Acks
quiet_acks = record { handlers = λ n. none; log = [] }

abbrev no_entries : PushPull → List (Env × PushNodeState)
no_entries p = []

serve-IsServed_example :
    IsServed eight whole no_entries system serialize parse
      (pos 3)
      (closes (pos 3) [])
      3
      pair
      quiet_acks
      (serve eight whole no_entries system serialize parse (pos 3) pair [])
serve-IsServed_example =
    serve-IsServed eight whole no_entries system serialize parse (pos 3) 3 pair quiet_acks []

abbrev node_b : NodeState
node_b = record {
  n = record { name = "b"; addr = "127.0.0.1"; port = 6666 };
  incarnation = 1;
  state = state_alive;
  state_change = 0;
}
