-- ===== src/Wrapped/Stream.antt =====
-- The calls of src/mynet/net.cpp, src/memberlist/state.cpp and src/memberlist/memberlist.cpp that open,
-- use and close descriptors.
use cpp_gossip.Base.{
  ℕ, ◌%◌, Bool, true, false, Option, none, some, List, if◌then◌else◌, String, u32_mod,
}
use cpp_gossip.Base.Int.{ℤ, pos, ◌+ℤ◌, ◌-ℤ◌, pos_part, ltb_ℤ}
use cpp_gossip.Node.{Node}
use cpp_gossip.Message.{MessageData, Ping, PushPull, ping_msg, push_pull_msg, gen_user}
use cpp_gossip.Handoff.{SockAddr}
use cpp_gossip.Acks.{full_addr}
use cpp_gossip.Net.{Received, receive, buffer_size, encode_send, overrun, text}
use cpp_gossip.Exchange.{push_pull_answer, tcp_ping_answer}
use cpp_gossip.Wrapped.{
  System, Io, ◌>>=◌, ◌>>◌, pure, ask, socket, bind, listen, write, read, close_fd, sendto, recvfrom,
  pipe, pipe2, select_fd, clock_read, setsockopt_called, corrupted, aborted,
}
use cpp_gossip.Wrapped.Connect.{connect_timeout}

abbrev pub listen_num : ℕ
listen_num = 1024

module _ (sys : System) where
  open sys use {af_inet, sock_stream, sock_dgram, o_direct, so_sndtimeo, so_rcvtimeo, unset_sec}

  abbrev pub set_timeouts : ℤ → ℕ → Io (Unit {0})
  set_timeouts fd usec = do
    ask sys (setsockopt_called fd so_sndtimeo unset_sec usec)
    ask sys (setsockopt_called fd so_rcvtimeo unset_sec usec)
    pure tt

  abbrev pub now : Io ℤ
  now = do a ← ask sys clock_read; pure a.value

  -- `newmemberlist`: its pipes and sockets; the answer is the two sockets.
  unfoldable pub open_sockets : SockAddr → Io (ℤ × ℤ)
  open_sockets local_addr = do
    pipe sys
    pipe sys
    tcp ← socket sys af_inet sock_stream 0
    bind sys tcp local_addr
    listen sys tcp listen_num
    udp ← socket sys af_inet sock_dgram 0
    bind sys udp local_addr
    pipe2 sys o_direct
    pure (tcp, udp)

  -- `clearProbePipes`, of the two pipes and the third if there is one.
  abbrev pub clear_pipe : Option (ℤ × ℤ) → Io (Unit {0})
  clear_pipe none = pure tt
  clear_pipe (some (out, into)) = do close_fd sys out; close_fd sys into

  unfoldable pub clear_probe_pipes : ℤ × ℤ → ℤ × ℤ → Option (ℤ × ℤ) → Io (Unit {0})
  clear_probe_pipes ack nack fallback = do
    clear_pipe fallback
    close_fd sys ack.0
    close_fd sys ack.1
    close_fd sys nack.0
    close_fd sys nack.1

  -- The waits of `Leave` and `UpdateNode` on their pipe: whether the notice came.
  unfoldable pub await_notice : ℤ → ℤ → Io Bool
  await_notice fd timeout = do
    n ←
        select_fd sys (fd +ℤ pos 1)
          (if ltb_ℤ (pos 0) timeout then some (unset_sec, pos_part timeout) else none)
    if n.is_set then (do read sys fd 1; pure true) else pure false

  unfoldable pub await_update : ℤ × ℤ → ℤ → Io Bool
  await_update notify timeout = do
    heard ← await_notice notify.0 timeout
    close_fd sys notify.0
    close_fd sys notify.1
    pure heard

  module _ (serialize : MessageData → List ℕ) (parse : List ℕ → MessageData × Bool) where
    abbrev pub parsed : Received → Io MessageData
    parsed overrun = λ h. (corrupted, h)
    parsed (text s) = pure (parse s).0

    abbrev pub decode_receive_tcp : ℤ → Io MessageData
    decode_receive_tcp fd = do a ← read sys fd buffer_size; parsed (receive a.bytes)

    abbrev pub decode_receive_udp : ℤ → Io MessageData
    decode_receive_udp fd = do a ← recvfrom sys fd buffer_size; parsed (receive a.bytes)

    abbrev pub encode_send_tcp : ℤ → MessageData → Io (Unit {0})
    encode_send_tcp fd md = do write sys fd (encode_send serialize parse md); pure tt

    abbrev pub encode_send_udp : ℤ → SockAddr → MessageData → Io (Unit {0})
    encode_send_udp fd remote md = do sendto sys fd (encode_send serialize parse md) remote; pure tt

    -- The part of `sendPingAndWaitForAck` on the open connection; each way out closes it.
    abbrev pub ping_connected : ℤ → Ping → Io Bool
    ping_connected fd ping = do
      encode_send_tcp fd (ping_msg ping)
      resp ← decode_receive_tcp fd
      close_fd sys fd
      pure (tcp_ping_answer ping.seq_no resp)

    abbrev pub ping_after_connect : ℤ → Ping → ℤ → Io Bool
    ping_after_connect fd ping deadline = do
      t ← now
      if ltb_ℤ (deadline -ℤ t) (pos 0)
          then pure false
          else (do set_timeouts fd (pos_part (deadline -ℤ t)); ping_connected fd ping)

    -- With the socket.
    abbrev pub ping_over : SockAddr → Ping → ℤ → ℤ → Io Bool
    ping_over a ping deadline fd = do
      t ← now
      if ltb_ℤ (pos 0) (deadline -ℤ t)
          then (do
            connect_timeout sys fd a (pos_part (deadline -ℤ t) % u32_mod)
            ping_after_connect fd ping deadline)
          else pure false

    unfoldable pub send_ping_and_wait_for_ack : SockAddr → Ping → ℤ → Io Bool
    send_ping_and_wait_for_ack a ping deadline = do
      fd ← socket sys af_inet sock_stream 0
      ping_over a ping deadline fd

    -- `sendAndReceiveState`, with the local state at the time that `sendLocalState` reads it.
    abbrev pub exchange_connected : ℤ → PushPull → Io (Option PushPull)
    exchange_connected fd local = do
      encode_send_tcp fd (push_pull_msg local)
      answer ← decode_receive_tcp fd
      close_fd sys fd
      pure (push_pull_answer answer)

    abbrev pub exchange_over : SockAddr → ℕ → PushPull → ℤ → Io (Option PushPull)
    exchange_over remote tcp_timeout local fd = do
      connect_timeout sys fd remote (tcp_timeout % u32_mod)
      set_timeouts fd tcp_timeout
      exchange_connected fd local

    unfoldable pub send_and_receive_state : SockAddr → ℕ → PushPull → Io (Option PushPull)
    send_and_receive_state remote tcp_timeout local = do
      fd ← socket sys af_inet sock_stream 0
      exchange_over remote tcp_timeout local fd

    -- `SendReliable`, once the address is known.
    abbrev pub user_over : SockAddr → ℕ → String → ℤ → Io (Unit {0})
    user_over a tcp_timeout msg fd = do
      connect_timeout sys fd a (tcp_timeout % u32_mod)
      encode_send_tcp fd (gen_user msg)

    abbrev pub send_reliably : ℕ → String → SockAddr → Io (Unit {0})
    send_reliably tcp_timeout msg a = do
      fd ← socket sys af_inet sock_stream 0
      user_over a tcp_timeout msg fd

    -- `FullAddr` ends the process if the address is none.
    abbrev pub addressed : Option SockAddr → (SockAddr → Io (Unit {0})) → Io (Unit {0})
    addressed none k = λ h. (aborted, h)
    addressed (some a) k = k a

    module _ (inet_pton : String → Option ℕ) (htons : ℕ → ℕ) where
      unfoldable pub send_best_effort : ℤ → Node → String → Io (Unit {0})
      send_best_effort udp_fd to msg =
          addressed (full_addr inet_pton htons to) (λ a. encode_send_udp udp_fd a (gen_user msg))

      unfoldable pub send_reliable : Node → ℕ → String → Io (Unit {0})
      send_reliable to tcp_timeout msg =
          addressed (full_addr inet_pton htons to) (send_reliably tcp_timeout msg)
