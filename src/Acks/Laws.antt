-- ===== src/Acks/Laws.antt =====
-- What an ack does, and that it does it once.
use cpp_gossip.Base.{ℕ, ◌≡◌, true, false, Option, [], ◌∷◌, ◌++◌, arith, insert, erase, String}
use cpp_gossip.Config.{Config}
use cpp_gossip.Message.{IndirectPing, gen_ack_resp, gen_ping}
use cpp_gossip.Timer.{new_timer, copy_timer, run, stop}
use cpp_gossip.Handoff.{SockAddr}
use cpp_gossip.Acks.{
  Acks, ack_message, nack_byte, close, timer_stopped, send_udp, set_probe_pipes, set_ack_handler,
  handle_ack, handle_nack, handle_indirect_ping, nack_thread, target_of,
}

-- Whatever the table holds, the second ack with a number does nothing.
pub handle_ack_twice :
    (seq ts ts' : ℕ) (a : Acks) → (let a' = handle_ack seq ts a in handle_ack seq ts' a' ≡ a')
unfolding handle_ack erase
handle_ack_twice seq ts ts' a = ground arith

-- After `setProbePipes` the ack with that number stops the timer, which ran, and then tells the
-- prober; a nack before it is told to the prober too, and changes nothing of that.
pub probe_ack :
    (seq ack_pipe nack_pipe interval ts : ℕ) (a : Acks)
    → (let a' = set_probe_pipes seq ack_pipe nack_pipe interval a in
        ((handle_ack seq ts a').log
          ≡ (a.log ++ timer_stopped true ∷ []) ++ ack_message ack_pipe true ts ∷ [])
        × ((handle_ack seq ts (handle_nack seq a')).log
            ≡ ((a.log ++ nack_byte nack_pipe ∷ []) ++ timer_stopped true ∷ [])
              ++ ack_message ack_pipe true ts ∷ []))
unfolding set_probe_pipes handle_ack handle_nack new_timer copy_timer run stop insert
probe_ack seq ack_pipe nack_pipe interval ts a = ground arith

module _ (inet_pton : String → Option ℕ) (htons : ℕ → ℕ) where
  -- `handleIndirectPing` sends a ping under the local number to the target, and an ack with that number
  -- is relayed to the requester under the requester's number, after the nack is cancelled. A nack for
  -- that number does nothing.
  pub indirect_ping_relays :
      (c : Config) (seq fd ts : ℕ) (p : IndirectPing) (remote : SockAddr) (a : Acks)
      → (let a' = handle_indirect_ping inet_pton htons c seq fd p remote a in
          let ping = gen_ping seq p.node c.advertise_addr c.advertise_port c.name in
          (handle_nack seq a' ≡ a')
          × ((handle_ack seq ts a').log
              ≡ (((a.log ++ send_udp (target_of inet_pton htons p) ping ∷ [])
                    ++ timer_stopped false ∷ [])
                  ++ close fd ∷ [])
                ++ send_udp remote (gen_ack_resp p.seq_no) ∷ []))
  unfolding handle_indirect_ping set_ack_handler handle_ack handle_nack new_timer copy_timer stop
      insert
  indirect_ping_relays c seq fd ts p remote a = ground arith

  -- Once the nack of an indirect ping has gone out, an ack with the local number does nothing.
  pub nack_then_ack :
      (c : Config) (seq read_fd fd ts : ℕ) (p : IndirectPing) (remote : SockAddr) (a : Acks)
      → (let a' = handle_indirect_ping inet_pton htons c seq fd p remote a in
          let a'' = nack_thread false seq read_fd fd p remote a' in handle_ack seq ts a'' ≡ a'')
  unfolding handle_indirect_ping set_ack_handler handle_ack nack_thread erase
  nack_then_ack c seq read_fd fd ts p remote a = ground arith
