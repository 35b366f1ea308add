-- ===== src/Wrapped/Descriptors.antt =====
-- `sendPingAndWaitForAck`, and what becomes of its descriptor.
use cpp_gossip.Base.{
  ℕ, ◌+◌, ◌%◌, ◌≤◌, ◌≡◌, refl, Bool, Bool-cases, inl, inr, true, false, List, ◌∷◌, arith, u32_mod,
  ap, ◌∙◌, subst,
}
use cpp_gossip.Base.Int.{ℤ, pos, ◌-ℤ◌, pos_part, ltb_ℤ}
use cpp_gossip.Message.{MessageData, Ping, ping_msg, ack_resp_msg}
use cpp_gossip.Handoff.{SockAddr}
use cpp_gossip.Net.{buffer_size, message, decode_receive}
use cpp_gossip.Exchange.{tcp_ping_answer}
use cpp_gossip.Wrapped.{
  Act, System, Result, ◌>>◌, pure, close_fd, returned, thrown, corrupted, aborted, socket_called,
  read_called, close_called, clock_read,
}
use cpp_gossip.Wrapped.Rules.{after_value, after_unit, after_bind}
use cpp_gossip.Wrapped.Laws.{closes, same_ℤ-self}
use cpp_gossip.Wrapped.Stream.{
  decode_receive_tcp, encode_send_tcp, ping_connected, ping_after_connect,
  send_ping_and_wait_for_ack, ping_over,
}
use cpp_gossip.Wrapped.Sends.{
  Quiet, Heard, encode_send_tcp-Quiet, decode_receive_tcp-Heard, after_connect,
}

module _ (sys : System) (serialize : MessageData → List ℕ)
    (parse : List ℕ → MessageData × Bool) where
  tcp_ping_answer-ack :
      (seq : ℕ) (md : MessageData) → tcp_ping_answer seq md ≡ true → md ≡ ack_resp_msg seq
  unfolding tcp_ping_answer
  tcp_ping_answer-ack seq md h = ground arith

  -- The last two calls read from the descriptor and close it, and what was read is the ack of the ping.
  abbrev pub IsAcked : ℤ → Ping → List Act → Type 0
  IsAcked fd ping h =
      (h₁ : List Act) × (h ≡ close_called fd ∷ read_called fd buffer_size ∷ h₁)
      × (decode_receive serialize parse (sys.answer (read_called fd buffer_size ∷ h₁)).bytes
          ≡ message (ack_resp_msg ping.seq_no))

  -- What `sendPingAndWaitForAck` leaves, after `n` closings of its descriptor.
  abbrev pub Pinged : ℤ → ℕ → Ping → Result Bool × List Act → Type 0
  Pinged fd n ping (returned true, h) = (closes fd h ≡ n + 1) × IsAcked fd ping h
  Pinged fd n ping (returned false, h) = closes fd h ≤ n + 1
  Pinged fd n ping (thrown e, h) = closes fd h ≤ n + 1
  Pinged fd n ping (corrupted, h) = closes fd h ≤ n + 1
  Pinged fd n ping (aborted, h) = ⊥

  ping_replied :
      (fd : ℤ) (n : ℕ) (ping : Ping) (md : MessageData) (h : List Act)
      → Heard sys serialize parse fd n (returned md, h)
      → Pinged fd n ping ((close_fd sys fd >> pure (tcp_ping_answer ping.seq_no md)) h)
  unfolding closes
  ping_replied fd n ping md h (e, h₁, l, d) =
      after_unit sys (Pinged fd n ping) "close error: " (close_called fd) h
        (λ _. pure (tcp_ping_answer ping.seq_no md)) (ground (arith, same_ℤ-self fd))
        (elim (Bool-cases (tcp_ping_answer ping.seq_no md)) [
          | inl t ↦
              let acked = d ∙ ap message (tcp_ping_answer-ack ping.seq_no md t) in
              rw t (ground (arith, same_ℤ-self fd), (h₁, ap (λ k. close_called fd ∷ k) l, acked))
          | inr f ↦ rw f (ground (arith, same_ℤ-self fd))
        ])

  ping_connected-Pinged :
      (fd : ℤ) (ping : Ping) (h : List Act)
      → Pinged fd (closes fd h) ping (ping_connected sys serialize parse fd ping h)
  ping_connected-Pinged fd ping h =
      let n = closes fd h in
      let P = Pinged fd n ping in
      after_bind P (Quiet sys serialize parse fd n)
        (encode_send_tcp sys serialize parse fd (ping_msg ping)) _ h
        (encode_send_tcp-Quiet sys serialize parse fd (ping_msg ping) h)
        (λ _ h' q.
          after_bind P (Heard sys serialize parse fd n) (decode_receive_tcp sys serialize parse fd)
            _ h'
            (subst
              (λ k. Heard sys serialize parse fd k (decode_receive_tcp sys serialize parse fd h')) q
              (decode_receive_tcp-Heard sys serialize parse fd h'))
            (λ md h₂ w. ping_replied fd n ping md h₂ w) (λ e h₂ w. omega (arith, w))
            (λ h₂ w. omega (arith, w)) (λ h₂ w. w))
        (λ e h' q. omega (arith, q)) (λ h' q. omega (arith, q)) (λ h' q. q)

  ping_after_connect-Pinged :
      (fd : ℤ) (ping : Ping) (deadline : ℤ) (h : List Act)
      → Pinged fd (closes fd h) ping (ping_after_connect sys serialize parse fd ping deadline h)
  unfolding closes
  ping_after_connect-Pinged fd ping deadline h =
      let t = (sys.answer (clock_read ∷ h)).value in
      elim (Bool-cases (ltb_ℤ (deadline -ℤ t) (pos 0))) [
        | inl late ↦ rw late (omega arith)
        | inr soon ↦ rw soon (ping_connected-Pinged fd ping _)
      ]

  -- `sendPingAndWaitForAck` never ends the process. When it answers true, its last two calls have
  -- read from its socket and closed it, what it read there is the ack of its ping, and it has closed
  -- the socket once; otherwise it has closed it at most once.
  pub send_ping_and_wait_for_ack-Pinged :
      (a : SockAddr) (ping : Ping) (deadline : ℤ) (h : List Act)
      → let c = socket_called sys.af_inet sys.sock_stream 0 in
        let fd = (sys.answer (c ∷ h)).value in
        Pinged fd
          (closes fd h)
          ping
          (send_ping_and_wait_for_ack sys serialize parse a ping deadline h)
  unfolding send_ping_and_wait_for_ack closes
  send_ping_and_wait_for_ack-Pinged a ping deadline h =
      let c = socket_called sys.af_inet sys.sock_stream 0 in
      let fd = (sys.answer (c ∷ h)).value in
      let P = Pinged fd (closes fd h) ping in
      let t = (sys.answer (clock_read ∷ c ∷ h)).value in
      after_value sys P "socket error: " c h (ping_over sys serialize parse a ping deadline)
        (omega arith)
        (elim (Bool-cases (ltb_ℤ (pos 0) (deadline -ℤ t))) [
          | inl soon ↦ rw soon (
              after_connect sys serialize parse P fd a (pos_part (deadline -ℤ t) % u32_mod)
                (λ _. ping_after_connect sys serialize parse fd ping deadline) (clock_read ∷ c ∷ h)
                (λ h' e.
                  subst
                    (λ n.
                      Pinged fd n ping (ping_after_connect sys serialize parse fd ping deadline h'))
                    e (ping_after_connect-Pinged fd ping deadline h'))
                (λ e h' q. q))
          | inr late ↦ rw late (omega arith)
        ])

  -- Not true, and nothing closed.
  abbrev pub Late : ℤ → ℕ → Result Bool × List Act → Type 0
  Late fd n (returned b, h) = (b ≡ false) × (closes fd h ≡ n)
  Late fd n (thrown e, h) = closes fd h ≡ n
  Late fd n (corrupted, h) = ⊥
  Late fd n (aborted, h) = ⊥

  -- `sendPingAndWaitForAck` at or after its deadline does not answer true, and never closes the socket
  -- that it has opened.
  pub send_ping-Late :
      (a : SockAddr) (ping : Ping) (deadline : ℤ) (h : List Act)
      → ltb_ℤ (pos 0) (
          deadline
          -ℤ (sys.answer (clock_read ∷ socket_called sys.af_inet sys.sock_stream 0 ∷ h)).value)
        ≡ false
      → let fd = (sys.answer (socket_called sys.af_inet sys.sock_stream 0 ∷ h)).value in
        Late fd (closes fd h) (send_ping_and_wait_for_ack sys serialize parse a ping deadline h)
  unfolding send_ping_and_wait_for_ack closes
  send_ping-Late a ping deadline h late =
      let c = socket_called sys.af_inet sys.sock_stream 0 in
      let fd = (sys.answer (c ∷ h)).value in
      after_value sys (Late fd (closes fd h)) "socket error: " c h
        (ping_over sys serialize parse a ping deadline) refl (rw late (refl, refl))
