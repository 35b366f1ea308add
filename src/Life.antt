-- ===== src/Life.antt =====
-- The life of a `memberlist`: its constructors, and `clearmemberlist`, of
-- src/memberlist/memberlist.cpp.
pub mod Laws
use cpp_gossip.Base.{
  ℕ, String, Bool, true, false, not, ◌&&◌, Option, none, some, List, [], ◌∷◌, Map, empty_map,
  if◌then◌else◌,
}
use cpp_gossip.Config.{Config, default_lan_config}
use cpp_gossip.Node.{Node}
use cpp_gossip.Message.{Broadcast}
use cpp_gossip.Member.{Member, Env, new_member}
use cpp_gossip.Member.Local.{set_alive}
use cpp_gossip.Acks.{Acks, emit, close}
use cpp_gossip.Schedule.{Schedule, schedule}
use cpp_gossip.Exchange.{Memberlist, shut_down}

-- The descriptors of a memberlist: its sockets, the end of `shutdownFd` that is written, and the two
-- ends of `handoffFd`.
pub record Descriptors : Type 0 where
  pub tcp_fd : ℕ
  pub shutdown_fd : ℕ
  pub handoff_out : ℕ
  pub handoff_in : ℕ

unfoldable pub new_memberlist : Config → ℕ → Memberlist
new_memberlist c leave_fd = record {
  member = new_member c leave_fd;
  acks = record { handlers = empty_map; log = [] };
  handoff = record { high = []; low = []; woken = 0 };
  timers = record {
    scheduled = false;
    probe_timer = none;
    push_pull_timer = none;
    gossip_timer = none;
  };
}

-- `clearmemberlist`, but for the descriptors and `probeIndex`, which it also resets.
unfoldable pub clear_memberlist : Descriptors → Memberlist → Memberlist
clear_memberlist fds l = record l {
  member = record (l.member) {
    sequence_num = 0;
    incarnation = 0;
    num_nodes = 0;
    nodes = [];
    node_map = empty_map;
    node_timers = empty_map;
  };
  acks = record { handlers = empty_map; log = cleared.log };
  handoff = record (l.handoff) { high = []; low = [] };
}
  where
    cleared : Acks
    cleared = emit (close fds.handoff_in) (emit (close fds.handoff_out) l.acks)

-- `LocalNode`: a pointer to the node, which is one into nothing when the local node is not in the map.
unfoldable pub local_node : Member → Option Node
local_node m = elim (m.node_map m.config.name) [ none ↦ none | some p ↦ some ((m.cell p).n) ]

module _ (byte_size : Broadcast → ℕ) where
  -- The constructors.
  unfoldable pub construct : Env → Config → ℕ → Memberlist
  construct env c leave_fd =
      let l = new_memberlist c leave_fd in
      record l { member = set_alive byte_size env l.member; timers = schedule c l.timers }

  -- The constructor without a configuration.
  unfoldable pub construct_default : Env → String → ℕ → Memberlist
  construct_default env hostname leave_fd = construct env (default_lan_config hostname) leave_fd
