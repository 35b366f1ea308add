-- ===== src/Message.antt =====
-- src/type/genmsg.cpp, and the messages of include/type/msgtype.proto that it builds. A `oneof` with
-- the tag that `set_head` or `set_type` writes beside it is one constructor.
use cpp_gossip.Base.{ℕ, String, Bool, List, [], ◌∷◌, ◌++◌}
use cpp_gossip.Node.{NodeStateType}

pub record Alive : Type 0 where
  pub incarnation : ℕ
  pub node : String
  pub addr : String
  pub port : ℕ

pub record Suspect : Type 0 where
  pub incarnation : ℕ
  pub node : String
  pub from : String

pub record Dead : Type 0 where
  pub incarnation : ℕ
  pub node : String
  pub from : String

pub data Broadcast : Type 0 where
  alive_msg : Alive → Broadcast
  dead_msg : Dead → Broadcast
  suspect_msg : Suspect → Broadcast

pub record PushNodeState : Type 0 where
  pub name : String
  pub addr : String
  pub port : ℕ
  pub incarnation : ℕ
  pub state : NodeStateType

pub record PushPull : Type 0 where
  pub join : Bool
  pub states : List PushNodeState

pub record Ping : Type 0 where
  pub seq_no : ℕ
  pub node : String
  pub source_addr : String
  pub source_port : ℕ
  pub source_node : String

pub record IndirectPing : Type 0 where
  pub seq_no : ℕ
  pub node : String
  pub target_addr : String
  pub target_port : ℕ
  pub nack : Bool
  pub source_addr : String
  pub source_port : ℕ
  pub source_node : String

-- A `ComBroadcast` is the list of its broadcasts.
pub data MessageData : Type 0 where
  ping_msg : Ping → MessageData
  indirect_ping_msg : IndirectPing → MessageData
  ack_resp_msg : ℕ → MessageData
  nack_resp_msg : ℕ → MessageData
  push_pull_msg : PushPull → MessageData
  compound_broad : List Broadcast → MessageData
  user_msg : String → MessageData
  err_msg : String → MessageData

abbrev pub gen_ping : ℕ → String → String → ℕ → String → MessageData
gen_ping seqno node sourceaddr sourceport sourcenode = ping_msg (record {
  seq_no = seqno;
  node = node;
  source_addr = sourceaddr;
  source_port = sourceport;
  source_node = sourcenode;
})

abbrev pub gen_indirect_ping : ℕ → String → String → ℕ → Bool → String → ℕ → String → MessageData
gen_indirect_ping seqno node targetaddr targetport nack sourceaddr sourceport sourcenode =
    indirect_ping_msg (record {
      seq_no = seqno;
      node = node;
      target_addr = targetaddr;
      target_port = targetport;
      nack = nack;
      source_addr = sourceaddr;
      source_port = sourceport;
      source_node = sourcenode;
    })

abbrev pub gen_ack_resp : ℕ → MessageData
gen_ack_resp seqno = ack_resp_msg seqno

abbrev pub gen_nack_resp : ℕ → MessageData
gen_nack_resp seqno = nack_resp_msg seqno

abbrev pub gen_user : String → MessageData
gen_user msg = user_msg msg

abbrev pub gen_com_msg : List Broadcast → MessageData
gen_com_msg cbc = compound_broad cbc

abbrev pub add_broadcast : List Broadcast → Broadcast → List Broadcast
add_broadcast cbc bc = cbc ++ bc ∷ []

abbrev pub gen_suspect_broadcast : ℕ → String → String → Broadcast
gen_suspect_broadcast inc node from =
    suspect_msg (record { incarnation = inc; node = node; from = from })

abbrev pub gen_alive_broadcast : ℕ → String → String → ℕ → Broadcast
gen_alive_broadcast inc node addr port =
    alive_msg (record { incarnation = inc; node = node; addr = addr; port = port })

abbrev pub gen_dead_broadcast : ℕ → String → String → Broadcast
gen_dead_broadcast inc node from = dead_msg (record { incarnation = inc; node = node; from = from })

abbrev pub gen_suspect_msg : ℕ → String → String → MessageData
gen_suspect_msg inc node from = gen_com_msg (add_broadcast [] (gen_suspect_broadcast inc node from))

abbrev pub gen_push_pull : Bool → PushPull
gen_push_pull join = record { join = join; states = [] }

abbrev pub add_push_node_state : PushPull → String → String → ℕ → ℕ → NodeStateType → PushPull
add_push_node_state p name addr port inc state = record p { states = p.states ++ new ∷ [] }
  where
    new : PushNodeState
    new = record { name = name; addr = addr; port = port; incarnation = inc; state = state }

-- The functions that take or give the records themselves, and those for a message with one broadcast.
-- A `Compound` is the list of its messages.
abbrev pub add_message : List MessageData → MessageData → List MessageData
add_message cd md = cd ++ md ∷ []

abbrev pub gen_err_resp : String → MessageData
gen_err_resp error = err_msg error

abbrev pub get_suspect : ℕ → String → String → Suspect
get_suspect inc node from = record { incarnation = inc; node = node; from = from }

abbrev pub get_alive : ℕ → String → String → ℕ → Alive
get_alive inc node addr port = record { incarnation = inc; node = node; addr = addr; port = port }

abbrev pub get_dead : ℕ → String → String → Dead
get_dead inc node from = record { incarnation = inc; node = node; from = from }

abbrev pub suspect_broadcast : Suspect → Broadcast
suspect_broadcast s = suspect_msg s

abbrev pub alive_broadcast : Alive → Broadcast
alive_broadcast a = alive_msg a

abbrev pub dead_broadcast : Dead → Broadcast
dead_broadcast d = dead_msg d

abbrev pub suspect_message : Suspect → MessageData
suspect_message s = gen_com_msg (add_broadcast [] (suspect_broadcast s))

abbrev pub gen_dead_msg : ℕ → String → String → MessageData
gen_dead_msg inc node from = gen_com_msg (add_broadcast [] (gen_dead_broadcast inc node from))

abbrev pub dead_message : Dead → MessageData
dead_message d = gen_com_msg (add_broadcast [] (dead_broadcast d))

abbrev pub gen_alive_msg : ℕ → String → String → ℕ → MessageData
gen_alive_msg inc node addr port =
    gen_com_msg (add_broadcast [] (gen_alive_broadcast inc node addr port))

abbrev pub alive_message : Alive → MessageData
alive_message a = gen_com_msg (add_broadcast [] (alive_broadcast a))
