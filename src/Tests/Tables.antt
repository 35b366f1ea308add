-- ===== src/Tests/Tables.antt =====
-- The theorems on what members learn of one another, on the members `a` and `b`.
use cpp_gossip.Base.{
  List, [], ◌∷◌, String, subst, sym, ap, map, ◌≤◌, ◌≡◌, ◌≢◌, refl, true, false, some, arith,
  string_discrete, ℕ_discrete, insert, erase, store, same,
}
use cpp_gossip.Base.Int.{◌-ℤ◌}
use cpp_gossip.Message.{PushNodeState, PushPull, push_pull_msg}
use cpp_gossip.Queue.{
  new_queue, delete_item, add_item, finish_all, queue_broadcast, queue_broadcast_at,
}
use cpp_gossip.Queue.Order.{set_insert}
use cpp_gossip.Timer.{new_timer, stop, restart}
use cpp_gossip.Timer as Timers
use cpp_gossip.Suspicion.{
  new_suspicion, note_confirmation, reschedule, confirm, remaining, suspicion_timeout,
}
use cpp_gossip.Member.{
  Member, after, Env, new_member, next_seq_num, skip_incarnation, next_incarnation, place, add_node,
  broadcast_notify, only_broadcast, refute,
}
use cpp_gossip.Member.Handlers.{
  apply_alive, alive_node, mark_dead, dead_node, start_suspicion, confirm_suspicion, mark_suspect,
  suspect_node,
}
use cpp_gossip.Member.Local.{
  set_alive, begin_leave, leave_message, update_node, merge_entry, merge_remote_state, local_state,
  add_states,
}
use cpp_gossip.Member.Run.{Event, start, step, run, suspect_received, alive_received}
use cpp_gossip.Member.Consistent.{IsConsistent, run-new-IsConsistent}
use cpp_gossip.Member.Rises.{precedence, run-rises}
use cpp_gossip.Exchange.{handle_push_pull, push_pull_node, push_pull_answer}
use cpp_gossip.Exchange.Spread.{Learned, exchange-Learned}
use cpp_gossip.Tests.{
  whole, eight, env, alive_b, suspect_b, history, config_a, config_b, pair, alone,
}

program : Unit {0}
unfolding new_queue delete_item add_item finish_all queue_broadcast queue_broadcast_at set_insert
    new_timer stop restart new_suspicion note_confirmation reschedule confirm remaining
    suspicion_timeout new_member next_seq_num skip_incarnation next_incarnation place add_node
    broadcast_notify only_broadcast refute apply_alive alive_node mark_dead dead_node
    start_suspicion confirm_suspicion mark_suspect suspect_node set_alive begin_leave leave_message
    update_node merge_entry merge_remote_state local_state add_states handle_push_pull
    push_pull_node push_pull_answer step run insert erase store string_discrete ℕ_discrete
    Timers.run ◌-ℤ◌
program = tt

pair-IsConsistent : IsConsistent pair
pair-IsConsistent = run-new-IsConsistent eight whole config_a 7 history

alone-IsConsistent : IsConsistent alone
alone-IsConsistent = run-new-IsConsistent eight whole config_b 7 ((env, start) ∷ [])

abbrev IsB : String → Type 0
IsB s = elim (same s "b") [ true ↦ Unit | false ↦ ⊥ ]

-- `b` is not the local node of `pair`, nor `a` that of `alone`.
foreign : "b" ≢ pair.config.name
unfolding program
foreign e = subst IsB e tt

foreign_a : "a" ≢ alone.config.name
unfolding program
foreign_a e = subst IsB (sym e) tt

abbrev rumours : List (Env × Event)
rumours =
    (env, suspect_received suspect_b)
    ∷ (env, alive_received (record alive_b { incarnation = 4 }))
    ∷ []

run-rises_example :
    (let m' = after (run eight whole rumours pair) in
      (m'.node_map "b" ≡ some 1) × (precedence (pair.cell 1) ≤ precedence (m'.cell 1)))
unfolding program
run-rises_example =
    run-rises eight whole rumours pair "b" 1 pair-IsConsistent foreign refl (omega arith)
      (tt, (λ e. (refl, refl), tt))

abbrev read : PushPull → List (Env × PushNodeState)
read p = map (λ st. (env, st)) p.states

read-states :
    (l : List PushNodeState) → map (λ (x : Env × PushNodeState). x.1) (map (λ st. (env, st)) l) ≡ l
read-states [] = refl
read-states (st ∷ l) = ap (λ l. st ∷ l) (read-states l)

abbrev pair' : Member
pair' = after (handle_push_pull eight whole true (read (local_state true alone)) pair).1

abbrev alone' : Member
alone' = after (push_pull_node eight whole read (push_pull_msg (local_state true pair)) alone)

exchange-Learned_example : Learned pair alone' "a" 0 × Learned alone pair' "b" 0
unfolding program
exchange-Learned_example =
    exchange-Learned eight whole read (λ p. read-states p.states) pair alone pair' alone' true "a"
      "b" 0 0 pair-IsConsistent alone-IsConsistent (refl, refl, omega arith, (foreign_a, tt))
      (refl, refl, omega arith, (foreign, (refl, refl))) refl refl
