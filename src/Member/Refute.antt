-- ===== src/Member/Refute.antt =====
-- Refutations.
use cpp_gossip.Base.{ℕ, ◌+◌, ◌≤◌, ◌<◌, ◌≡◌, ◌≢◌, true, false, none, some, arith, store, u32_mod}
use cpp_gossip.Node.{is_alive}
use cpp_gossip.Message.{Broadcast, Alive, alive_msg, gen_alive_broadcast}
use cpp_gossip.Queue.{queue_broadcast}
use cpp_gossip.Member.{
  Member, Env, after, refute, skip_incarnation, next_incarnation, only_broadcast, broadcast_notify,
}
use cpp_gossip.Member.Handlers.{alive_node, apply_alive, other_address}
use cpp_gossip.Member.Local.{update_node}
use cpp_gossip.Member.Consistent.{IsConsistent}

module _ (byte_size : Broadcast → ℕ) where
  -- For a counter of 32 bits and an accusation below the greatest number of 32 bits, a refutation gives
  -- the local node an incarnation above the accusation, which is the new value of the counter, and is
  -- not below the old one.
  pub refute_beats :
      (me accused : ℕ) (m : Member)
      → m.incarnation < u32_mod
      → accused + 1 < u32_mod
      → (let m' = refute byte_size me accused m in
          (accused < (m'.cell me).incarnation)
          × ((m'.cell me).incarnation ≡ m'.incarnation)
          × (m.incarnation ≤ m'.incarnation)
          × (m'.incarnation < u32_mod))
  unfolding refute skip_incarnation only_broadcast broadcast_notify store
  refute_beats me accused m h k = ground arith

  -- What `refute` puts into the queue: an alive message of the local node.
  abbrev pub announced : ℕ → ℕ → Member → Alive
  announced me accused m =
      let st = m.cell me in
      record {
        incarnation = (refute byte_size me accused m).incarnation;
        node = st.n.name;
        addr = st.n.addr;
        port = st.n.port;
      }

  refute-queue :
      (me accused : ℕ) (m : Member)
      → (refute byte_size me accused m).queue
        ≡ queue_broadcast byte_size
            (record {
              node = (m.cell me).n.name;
              msg = alive_msg (announced me accused m);
              notify_fd = none;
            })
            m.queue
  unfolding refute only_broadcast broadcast_notify skip_incarnation
  refute-queue me accused m = ground arith

  -- The refutation of an accusation, heard by a member whose tables are in order and which knows the
  -- accused by another name than its own, with the same address and an incarnation not above the
  -- accusation, makes the accused alive there, with the incarnation that the refutation carries, above
  -- the accusation; for a counter of 32 bits and an accusation below the greatest number of 32 bits.
  pub refutation_heard :
      (env : Env) (me accused p : ℕ) (m other : Member)
      → m.incarnation < u32_mod
      → accused + 1 < u32_mod
      → other.node_map (m.cell me).n.name ≡ some p
      → IsConsistent other
      → (m.cell me).n.name ≢ other.config.name
      → other_address (announced me accused m) (other.cell p) ≡ false
      → (other.cell p).incarnation ≤ accused
      → (let a = announced me accused m in
          let st = (alive_node byte_size env a false none other).cell p in
          (is_alive st.state ≡ true)
          × (st.incarnation ≡ a.incarnation)
          × (accused < st.incarnation))
  unfolding alive_node apply_alive broadcast_notify store
  refutation_heard env me accused p m other h k e c foreign same_addr old =
      rw (e, alive_node) (ground (arith, c.keys (m.cell me).n.name, refute_beats me accused m))

  -- `UpdateNode` of a member whose tables are in order, that has not left, and whose counter is the
  -- incarnation of its own entry and two below 2 ^ 32: the alive message is answered by a refutation,
  -- with an incarnation two above the old, and what is queued asks for no notice on the pipe `fd`.
  pub update_node_unnotified :
      (env : Env) (fd p : ℕ) (m : Member)
      → m.node_map m.config.name ≡ some p
      → IsConsistent m
      → m.leave ≡ false
      → (m.cell p).incarnation ≡ m.incarnation
      → m.incarnation + 2 < u32_mod
      → (let m' = after (update_node byte_size env fd m) in
          (m'.incarnation ≡ m.incarnation + 2)
          × (m'.queue
              ≡ queue_broadcast byte_size
                  (record {
                    node = m.config.name;
                    msg =
                        gen_alive_broadcast
                          (m.incarnation + 2)
                          m.config.name
                          (m.cell p).n.addr
                          (m.cell p).n.port;
                    notify_fd = none;
                  })
                  m.queue))
  unfolding update_node next_incarnation alive_node apply_alive refute only_broadcast
      broadcast_notify skip_incarnation store
  update_node_unnotified env fd p m e c here own small =
      rw (e, update_node) (ground (arith, c.keys m.config.name, e))
