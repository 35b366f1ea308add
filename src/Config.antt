-- ===== src/Config.antt =====
-- include/misc/config.h and src/misc/config.cpp. Durations are microseconds; none of the four
-- configurations has a negative one.
use cpp_gossip.Base.{ℕ, String, Bool, true}

pub record Config : Type 0 where
  pub name : String
  pub bind_addr : String
  pub bind_port : ℕ
  pub advertise_addr : String
  pub advertise_port : ℕ
  pub tcp_timeout : ℕ
  pub indirect_checks : ℕ
  pub retransmit_mult : ℕ
  pub suspicion_mult : ℕ
  pub suspicion_max_timeout_mult : ℕ
  pub push_pull_interval : ℕ
  pub probe_interval : ℕ
  pub probe_timeout : ℕ
  pub allow_tcp_ping : Bool
  pub gossip_interval : ℕ
  pub gossip_nodes : ℕ
  pub gossip_to_the_dead_time : ℕ
  pub handoff_queue_depth : ℕ
  pub udp_buffer_size : ℕ
  pub dead_node_reclaim_time : ℕ

-- `DEFAULT_PORT`
abbrev pub default_port : ℕ
default_port = 6666

-- The argument is what `gethostname` answers.
abbrev pub default_lan_config : String → Config
default_lan_config hostname = record {
  name = hostname;
  bind_addr = "0.0.0.0";
  bind_port = default_port;
  advertise_addr = "";
  advertise_port = default_port;
  tcp_timeout = 10000000;
  indirect_checks = 3;
  retransmit_mult = 4;
  suspicion_mult = 4;
  suspicion_max_timeout_mult = 6;
  push_pull_interval = 10000000;
  probe_interval = 1000000;
  probe_timeout = 500000;
  allow_tcp_ping = true;
  gossip_interval = 200000;
  gossip_nodes = 3;
  gossip_to_the_dead_time = 30000000;
  handoff_queue_depth = 1024;
  udp_buffer_size = 1400;
  dead_node_reclaim_time = 10000000;
}

abbrev pub default_wan_config : String → Config
default_wan_config hostname = record (default_lan_config hostname) {
  tcp_timeout = 30000000;
  suspicion_mult = 6;
  push_pull_interval = 60000000;
  probe_interval = 5000000;
  probe_timeout = 3000000;
  gossip_interval = 500000;
  gossip_nodes = 4;
  gossip_to_the_dead_time = 60000000;
}

abbrev pub default_local_config : String → Config
default_local_config hostname = record (default_lan_config hostname) {
  advertise_addr = "127.0.0.1";
  tcp_timeout = 1000000;
  indirect_checks = 1;
  retransmit_mult = 2;
  suspicion_mult = 3;
  push_pull_interval = 15000000;
  probe_interval = 1000000;
  probe_timeout = 200000;
  gossip_interval = 100000;
  gossip_to_the_dead_time = 15000000;
}

abbrev pub debug_config : String → Config
debug_config hostname = record (default_local_config hostname) {
  push_pull_interval = 20000000;
  probe_interval = 8000000;
  gossip_interval = 4000000;
}
