-- ===== src/Tests/Members.antt =====
-- The theorems on the tables of a member, on the members `a` and `b`.
use cpp_gossip.Base.{
  List, [], ◌∷◌, String, subst, ◌+◌, ◌<◌, ◌≡◌, ◌≢◌, refl, true, false, none, [], ◌∷◌, arith,
  string_discrete, ℕ_discrete, insert, erase, store, same,
}
use cpp_gossip.Base.Int.{◌-ℤ◌}
use cpp_gossip.Node.{is_alive}
use cpp_gossip.Message.{Dead, gen_alive_broadcast}
use cpp_gossip.Queue.{
  new_queue, delete_item, add_item, finish_all, queue_broadcast, queue_broadcast_at,
}
use cpp_gossip.Queue.Order.{set_insert}
use cpp_gossip.Timer.{new_timer, stop, restart}
use cpp_gossip.Timer as Timers
use cpp_gossip.Suspicion.{
  new_suspicion, note_confirmation, reschedule, confirm, remaining, suspicion_timeout,
}
use cpp_gossip.Member.{
  after, Env, new_member, next_seq_num, skip_incarnation, next_incarnation, place, add_node,
  broadcast_notify, only_broadcast, refute,
}
use cpp_gossip.Member.Handlers.{
  apply_alive, alive_node, mark_dead, dead_node, start_suspicion, confirm_suspicion, mark_suspect,
  suspect_node,
}
use cpp_gossip.Member.Local.{
  set_alive, begin_leave, leave_message, update_node, merge_entry, merge_remote_state,
}
use cpp_gossip.Member.Run.{step, Event, run, suspect_received, start, leave}
use cpp_gossip.Member.Consistent.{IsConsistent, run-new-IsConsistent}
use cpp_gossip.Member.Leave.{
  OwnEntry, IsLocalAlive, IsGone, run-IsLocalAlive, run-IsGone, leave-overtaken,
}
use cpp_gossip.Member.Merge.{NotDead, merge_remote_state-NotDead}
use cpp_gossip.Message.{PushNodeState}
use cpp_gossip.Node.{state_dead}
use cpp_gossip.Member.Refute.{refutation_heard, announced, update_node_unnotified}
use cpp_gossip.Tests.{whole, eight, env, suspect_a, history, config_a, pair, alone}

program : Unit {0}
unfolding new_queue delete_item add_item finish_all queue_broadcast queue_broadcast_at set_insert
    new_timer stop restart new_suspicion note_confirmation reschedule confirm remaining
    suspicion_timeout new_member next_seq_num skip_incarnation next_incarnation place add_node
    broadcast_notify only_broadcast refute apply_alive alive_node mark_dead dead_node
    start_suspicion confirm_suspicion mark_suspect suspect_node set_alive begin_leave leave_message
    update_node merge_entry merge_remote_state step run insert erase store string_discrete
    ℕ_discrete Timers.run ◌-ℤ◌
program = tt

run-new-IsConsistent_example : IsConsistent pair
run-new-IsConsistent_example = run-new-IsConsistent eight whole config_a 7 history

pair-IsConsistent : IsConsistent pair
pair-IsConsistent = run-new-IsConsistent eight whole config_a 7 history

run-IsLocalAlive_example : IsLocalAlive (
    after (
      run eight whole
        ((env, suspect_received suspect_a) ∷ [])
        (set_alive eight env (new_member config_a 7))))
run-IsLocalAlive_example =
    run-IsLocalAlive eight whole config_a 7 env ((env, suspect_received suspect_a) ∷ [])
      (ground arith, tt)

pair_up : pair.shutdown ≡ false
unfolding program
pair_up = refl

pair-IsLocalAlive : IsLocalAlive pair
unfolding program
pair-IsLocalAlive = (refl, refl)

-- The message of the local node of `pair`, which stays its entry when `b` is suspected.
abbrev goodbye : Dead
goodbye = record { incarnation = 1; node = "a"; from = "a" }

abbrev between : List (Env × Event)
between = (env, suspect_received (record { incarnation = 1; node = "b"; from = "c" })) ∷ []

run-IsGone_example :
    (let m₁ = after (
        run eight whole between
          (after (run eight whole ((env, leave) ∷ []) (begin_leave pair).0))) in
      IsGone (after (run eight whole ((env, start) ∷ []) (dead_node eight env goodbye m₁))))
unfolding program
run-IsGone_example =
    run-IsGone eight whole pair ((env, leave) ∷ []) between ((env, start) ∷ []) env goodbye
      pair-IsConsistent pair_up refl refl refl

leave-overtaken_example :
    (let m₁ = after (suspect_node eight whole env suspect_a (begin_leave pair).0) in
      (dead_node eight env goodbye m₁ ≡ m₁)
      × (m₁.leave ≡ true)
      × OwnEntry (λ st. is_alive st.state) m₁ (m₁.node_map m₁.config.name))
unfolding program
leave-overtaken_example =
    leave-overtaken eight whole pair env env suspect_a goodbye pair-IsConsistent pair_up
      pair-IsLocalAlive refl refl refl (omega arith) (omega arith) (omega arith)

abbrev IsB : String → Type 0
IsB s = elim (same s "b") [ true ↦ Unit | false ↦ ⊥ ]

-- `b` is not the local node of `pair`.
foreign : "b" ≢ pair.config.name
unfolding program
foreign e = subst IsB e tt

refutation_heard_example :
    (let a = announced eight 0 3 alone in
      let st = (alive_node eight env a false none pair).cell 1 in
      (is_alive st.state ≡ true) × (st.incarnation ≡ a.incarnation) × (3 < st.incarnation))
unfolding program
refutation_heard_example =
    refutation_heard eight env 0 3 1 alone pair (omega arith) (omega arith) refl pair-IsConsistent
      foreign refl (omega arith)

update_node_unnotified_example :
    (let m = after (update_node eight env 9 pair) in
      (m.incarnation ≡ pair.incarnation + 2)
      × (m.queue
          ≡ queue_broadcast eight
              (record {
                node = "a";
                msg = gen_alive_broadcast (pair.incarnation + 2) "a" "127.0.0.1" 6666;
                notify_fd = none;
              })
              pair.queue))
unfolding program
update_node_unnotified_example =
    update_node_unnotified eight env 9 0 pair refl pair-IsConsistent refl refl (omega arith)

-- A remote state that has `b` for dead.
abbrev remote : List (Env × PushNodeState)
remote =
    (
      env,
      record { name = "b"; addr = "127.0.0.1"; port = 6666; incarnation = 2; state = state_dead },
    )
    ∷ []

pub b-NotDead : NotDead 1 pair
unfolding program
b-NotDead = (omega arith, refl)

merge_remote_state-NotDead_example : NotDead 1 (after (merge_remote_state eight whole remote pair))
merge_remote_state-NotDead_example = merge_remote_state-NotDead eight 1 whole remote pair b-NotDead
