-- ===== src/Wrapped/Serve.antt =====
-- `handleConn` of src/memberlist/handlemsg.cpp, over the wrapped calls: what becomes of a connection.
use cpp_gossip.Base.{
  ℕ, ◌+◌, ◌≤◌, ◌≡◌, refl, sym, subst, ◌∙◌, Bool, Option, none, some, List, ◌∷◌, arith,
}
use cpp_gossip.Base.Int.{ℤ}
use cpp_gossip.Double.{Double}
use cpp_gossip.Message.{
  Broadcast, MessageData, PushPull, PushNodeState, push_pull_msg, ping_msg, gen_ack_resp,
}
use cpp_gossip.Acks.{Acks}
use cpp_gossip.Net.{buffer_size, message, decode_receive}
use cpp_gossip.Member.{Member, Outcome, done, blocked, crashed, Env}
use cpp_gossip.Member.Local.{local_state, merge_remote_state}
use cpp_gossip.Exchange.{handle_conn, handle_push_pull}
use cpp_gossip.Wrapped.{
  Act, System, Result, Io, ◌>>=◌, ◌>>◌, pure, close_fd, returned, thrown, corrupted, aborted,
  read_called, close_called,
}
use cpp_gossip.Wrapped.Rules.{after_unit, after_bind}
use cpp_gossip.Wrapped.Laws.{closes, same_ℤ-self}
use cpp_gossip.Wrapped.Stream.{set_timeouts, decode_receive_tcp, encode_send_tcp}
use cpp_gossip.Wrapped.Sends.{Quiet, Heard, encode_send_tcp-Quiet, decode_receive_tcp-Heard}

module _ (byte_size : Broadcast → ℕ) (d : Double)
    (read : PushPull → List (Env × PushNodeState)) where
  -- What is answered, and what becomes of the tables.
  abbrev pub reply : MessageData → Member → Option MessageData
  reply (push_pull_msg p) m = some (push_pull_msg (local_state p.join m))
  reply (ping_msg p) m = some (gen_ack_resp p.seq_no)
  reply _ m = none

  abbrev pub served : MessageData → Member → Outcome
  served (push_pull_msg p) m = merge_remote_state byte_size d (read p) m
  served _ m = done m

  served-handle_conn :
      (md : MessageData) (connfd : ℕ) (m : Member) (a : Acks)
      → (handle_conn byte_size d read md connfd m a).0 ≡ served md m
  unfolding handle_conn handle_push_pull
  served-handle_conn md connfd m a = ground arith

  module _ (sys : System) (serialize : MessageData → List ℕ)
      (parse : List ℕ → MessageData × Bool) where
    abbrev pub send_reply : ℤ → Option MessageData → Io (Unit {0})
    send_reply fd none = pure tt
    send_reply fd (some md) = encode_send_tcp sys serialize parse fd md

    -- The connection is closed once its handler has come back.
    abbrev pub finish : ℤ → Outcome → Io Outcome
    finish fd (done m) = do close_fd sys fd; pure (done m)
    finish fd (blocked m) = pure (blocked m)
    finish fd (crashed m) = pure (crashed m)

    abbrev pub serve_message : ℤ → Member → MessageData → Io Outcome
    serve_message fd m md = do send_reply fd (reply md m); finish fd (served md m)

    unfoldable pub serve : ℤ → Member → Io Outcome
    serve fd m = do
      set_timeouts sys fd m.config.tcp_timeout
      md ← decode_receive_tcp sys serialize parse fd
      serve_message fd m md

    abbrev pub closings : Outcome → ℕ
    closings (done m) = 1
    closings (blocked m) = 0
    closings (crashed m) = 0

    -- What `handleConn` leaves, after `n` closings of its descriptor.
    abbrev pub IsServed : ℤ → ℕ → ℕ → Member → Acks → Result Outcome × List Act → Type 0
    IsServed fd n connfd m a (returned o, h) =
        (closes fd h ≡ n + closings o)
        × ((md : MessageData) × (h₁ : List Act) × (decode_receive serialize parse
                (sys.answer (read_called fd buffer_size ∷ h₁)).bytes
              ≡ message md)
            × (o ≡ (handle_conn byte_size d read md connfd m a).0))
    IsServed fd n connfd m a (thrown e, h) = closes fd h ≤ n + 1
    IsServed fd n connfd m a (corrupted, h) = closes fd h ≡ n
    IsServed fd n connfd m a (aborted, h) = ⊥

    module _ (fd : ℤ) (n connfd : ℕ) (m : Member) (a : Acks) where
      finish-IsServed :
          (md : MessageData) (o : Outcome) (h h₁ : List Act)
          → closes fd h ≡ n
          → decode_receive serialize parse (sys.answer (read_called fd buffer_size ∷ h₁)).bytes
            ≡ message md
          → served md m ≡ o
          → IsServed fd n connfd m a (finish fd o h)
      unfolding closes
      finish-IsServed md (done m') h h₁ c e s =
          after_unit sys (IsServed fd n connfd m a) "close error: " (close_called fd) h
            (λ _. pure (done m')) (ground (arith, c, same_ℤ-self fd))
            (
              ground (arith, c, same_ℤ-self fd),
              (md, h₁, e, sym s ∙ sym (served-handle_conn md connfd m a)),
            )
      finish-IsServed md (blocked m') h h₁ c e s =
          (omega (arith, c), (md, h₁, e, sym s ∙ sym (served-handle_conn md connfd m a)))
      finish-IsServed md (crashed m') h h₁ c e s =
          (omega (arith, c), (md, h₁, e, sym s ∙ sym (served-handle_conn md connfd m a)))

      send_reply-Quiet :
          (r : Option MessageData) (h : List Act)
          → Quiet sys serialize parse fd (closes fd h) (send_reply fd r h)
      send_reply-Quiet none h = refl
      send_reply-Quiet (some md) h = encode_send_tcp-Quiet sys serialize parse fd md h

      serve_message-IsServed :
          (md : MessageData) (h : List Act)
          → Heard sys serialize parse fd n (returned md, h)
          → IsServed fd n connfd m a (serve_message fd m md h)
      serve_message-IsServed md h (c, h₁, l, e) =
          after_bind (IsServed fd n connfd m a) (Quiet sys serialize parse fd n)
            (send_reply fd (reply md m)) (λ _. finish fd (served md m)) h
            (subst (λ k. Quiet sys serialize parse fd k (send_reply fd (reply md m) h)) c
              (send_reply-Quiet (reply md m) h))
            (λ _ h' q. finish-IsServed md (served md m) h' h₁ q e refl) (λ e h' q. omega (arith, q))
            (λ h' q. q) (λ h' q. q)

    -- Whatever the system answers, `handleConn` returns only when it has read a message, and then with
    -- the tables that this message gives; it has closed its connection once, or not at all when the
    -- merge has blocked or crashed. When an exception ends it, the connection has been closed at most
    -- once. It never ends the process by itself.
    pub serve-IsServed :
        (fd : ℤ) (connfd : ℕ) (m : Member) (a : Acks) (h : List Act)
        → IsServed fd (closes fd h) connfd m a (serve fd m h)
    unfolding serve closes
    serve-IsServed fd connfd m a h =
        after_bind (IsServed fd (closes fd h) connfd m a)
          (Heard sys serialize parse fd (closes fd h)) (decode_receive_tcp sys serialize parse fd)
          (serve_message fd m) _ (decode_receive_tcp-Heard sys serialize parse fd _)
          (λ md h' q. serve_message-IsServed fd (closes fd h) connfd m a md h' q)
          (λ e h' q. omega (arith, q)) (λ h' q. q) (λ h' q. q)
