-- ===== src/Wrapped/Transfers.antt =====
-- `sendAndReceiveState` and `SendReliable`, and what becomes of their descriptors.
use cpp_gossip.Base.{
  ℕ, ◌+◌, ◌%◌, ◌≤◌, ◌≡◌, Bool, inl, inr, Option, none, some, List, ◌∷◌, String, arith, u32_mod,
  Option-cases, ap, ◌∙◌, subst,
}
use cpp_gossip.Base.Int.{ℤ}
use cpp_gossip.Node.{Node}
use cpp_gossip.Acks.{full_addr}
use cpp_gossip.Message.{MessageData, PushPull, push_pull_msg, gen_user}
use cpp_gossip.Handoff.{SockAddr}
use cpp_gossip.Net.{buffer_size, message, decode_receive, encode_send}
use cpp_gossip.Exchange.{push_pull_answer}
use cpp_gossip.Wrapped.{
  Act, System, Result, ◌>>◌, pure, close_fd, returned, thrown, corrupted, aborted, socket_called,
  write_called, read_called, close_called,
}
use cpp_gossip.Wrapped.Rules.{after_value, after_unit, after_bind}
use cpp_gossip.Wrapped.Laws.{closes, same_ℤ-self}
use cpp_gossip.Wrapped.Stream.{
  set_timeouts, decode_receive_tcp, encode_send_tcp, exchange_connected, exchange_over, user_over,
  send_and_receive_state, send_reliable,
}
use cpp_gossip.Wrapped.Sends.{
  Quiet, Heard, encode_send_tcp-Quiet, decode_receive_tcp-Heard, after_connect,
}

module _ (sys : System) (serialize : MessageData → List ℕ)
    (parse : List ℕ → MessageData × Bool) where
  -- What an exchange of states leaves, after `n` closings of its descriptor.
  abbrev pub Exchanged : ℤ → ℕ → Result (Option PushPull) × List Act → Type 0
  Exchanged fd n (returned none, h) = closes fd h ≡ n + 1
  Exchanged fd n (returned (some p), h) =
      (closes fd h ≡ n + 1)
      × ((h₁ : List Act) × (h ≡ close_called fd ∷ read_called fd buffer_size ∷ h₁)
          × (decode_receive serialize parse (sys.answer (read_called fd buffer_size ∷ h₁)).bytes
              ≡ message (push_pull_msg p)))
  Exchanged fd n (thrown e, h) = closes fd h ≤ n + 1
  Exchanged fd n (corrupted, h) = closes fd h ≤ n + 1
  Exchanged fd n (aborted, h) = ⊥

  push_pull_answer-some :
      (md : MessageData) (p : PushPull) → push_pull_answer md ≡ some p → md ≡ push_pull_msg p
  unfolding push_pull_answer
  push_pull_answer-some md p h = ground arith

  exchange_replied :
      (fd : ℤ) (n : ℕ) (md : MessageData) (h : List Act)
      → Heard sys serialize parse fd n (returned md, h)
      → Exchanged fd n ((close_fd sys fd >> pure (push_pull_answer md)) h)
  unfolding closes
  exchange_replied fd n md h (e, h₁, l, d) =
      after_unit sys (Exchanged fd n) "close error: " (close_called fd) h
        (λ _. pure (push_pull_answer md)) (ground (arith, same_ℤ-self fd))
        (elim (Option-cases (push_pull_answer md)) [
          | inl o ↦ rw o (ground (arith, same_ℤ-self fd))
          | inr (p, o) ↦
              let heard = d ∙ ap message (push_pull_answer-some md p o) in
              rw o (ground (arith, same_ℤ-self fd), (h₁, ap (λ k. close_called fd ∷ k) l, heard))
        ])

  exchange_connected-Exchanged :
      (fd : ℤ) (local : PushPull) (h : List Act)
      → Exchanged fd (closes fd h) (exchange_connected sys serialize parse fd local h)
  exchange_connected-Exchanged fd local h =
      let n = closes fd h in
      let P = Exchanged fd n in
      after_bind P (Quiet sys serialize parse fd n)
        (encode_send_tcp sys serialize parse fd (push_pull_msg local)) _ h
        (encode_send_tcp-Quiet sys serialize parse fd (push_pull_msg local) h)
        (λ _ h' q.
          after_bind P (Heard sys serialize parse fd n) (decode_receive_tcp sys serialize parse fd)
            _ h'
            (subst
              (λ k. Heard sys serialize parse fd k (decode_receive_tcp sys serialize parse fd h')) q
              (decode_receive_tcp-Heard sys serialize parse fd h'))
            (λ md h₂ w. exchange_replied fd n md h₂ w) (λ e h₂ w. omega (arith, w))
            (λ h₂ w. omega (arith, w)) (λ h₂ w. w))
        (λ e h' q. omega (arith, q)) (λ h' q. omega (arith, q)) (λ h' q. q)

  -- `sendAndReceiveState` never ends the process. When it returns, it has closed its socket once,
  -- and a state that it returns is the push/pull message that it read just before; otherwise it has
  -- closed the socket at most once.
  pub send_and_receive_state-Exchanged :
      (remote : SockAddr) (tcp_timeout : ℕ) (local : PushPull) (h : List Act)
      → let c = socket_called sys.af_inet sys.sock_stream 0 in
        let fd = (sys.answer (c ∷ h)).value in
        Exchanged fd
          (closes fd h)
          (send_and_receive_state sys serialize parse remote tcp_timeout local h)
  unfolding send_and_receive_state closes
  send_and_receive_state-Exchanged remote tcp_timeout local h =
      let c = socket_called sys.af_inet sys.sock_stream 0 in
      let fd = (sys.answer (c ∷ h)).value in
      let P = Exchanged fd (closes fd h) in
      after_value sys P "socket error: " c h
        (exchange_over sys serialize parse remote tcp_timeout local) (omega arith)
        (after_connect sys serialize parse P fd remote (tcp_timeout % u32_mod)
          (λ _. set_timeouts sys fd tcp_timeout >> exchange_connected sys serialize parse fd local)
          (c ∷ h)
          (λ h' e.
            subst
              (λ n. Exchanged fd n (
                (set_timeouts sys fd tcp_timeout >> exchange_connected sys serialize parse fd local)
                  h'))
              e (exchange_connected-Exchanged fd local _))
          (λ e h' q. q))

  module _ (inet_pton : String → Option ℕ) (htons : ℕ → ℕ) where
    abbrev pub Left : ℤ → ℕ → Result (Unit {0}) × List Act → Type 0
    Left fd n (returned a, h) = closes fd h ≡ n
    Left fd n (thrown e, h) = closes fd h ≤ n + 1
    Left fd n (corrupted, h) = ⊥
    Left fd n (aborted, h) = ⊥

    -- `SendReliable` to a node that has an address leaves its socket open when it returns.
    pub send_reliable-Left :
        (to : Node) (a : SockAddr) (tcp_timeout : ℕ) (msg : String) (h : List Act)
        → full_addr inet_pton htons to ≡ some a
        → let c = socket_called sys.af_inet sys.sock_stream 0 in
          let fd = (sys.answer (c ∷ h)).value in
          Left fd
            (closes fd h)
            (send_reliable sys serialize parse inet_pton htons to tcp_timeout msg h)
    unfolding send_reliable closes
    send_reliable-Left to a tcp_timeout msg h known =
        let c = socket_called sys.af_inet sys.sock_stream 0 in
        let fd = (sys.answer (c ∷ h)).value in
        let P = Left fd (closes fd h) in
        rw known (
          after_value sys P "socket error: " c h (user_over sys serialize parse a tcp_timeout msg)
            (omega arith)
            (after_connect sys serialize parse P fd a (tcp_timeout % u32_mod)
              (λ _. encode_send_tcp sys serialize parse fd (gen_user msg)) (c ∷ h)
              (λ h' e.
                after_value sys P "write error: "
                  (write_called fd (encode_send serialize parse (gen_user msg))) h' (λ _. pure tt)
                  (omega (arith, e)) (omega (arith, e)))
              (λ e h' q. q)))
