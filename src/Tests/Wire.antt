-- ===== src/Tests/Wire.antt =====
-- The theorems on what is received and sent.
use cpp_gossip.Base.{
  ℕ, String, ◌+◌, ◌≡◌, refl, true, false, Option, some, List, [], ◌∷◌, ◌++◌, empty_map, arith, Bool,
}
use cpp_gossip.Message.{
  MessageData, IndirectPing, alive_msg, dead_msg, gen_ping, gen_ack_resp, gen_user, ack_resp_msg,
}
use cpp_gossip.Handoff.{SockAddr, Handoff, handle_com_broadcast}
use cpp_gossip.Handoff.Laws.{IsSorted, handle_com_broadcast-IsSorted}
use cpp_gossip.Acks.{
  Acks, close, timer_stopped, send_udp, handle_ack, handle_nack, handle_indirect_ping, target_of,
}
use cpp_gossip.Acks.Laws.{indirect_ping_relays}
use cpp_gossip.Net.{
  decode_receive, encode_send, message, decode_receive-encode_send, decode_receive-zero,
}
use cpp_gossip.Address.{address_parts, address_parts_named, colon, slash}
use cpp_gossip.Config.{default_port}
use cpp_gossip.Tests.{config_a, alive_b, dead_b}

abbrev sender : SockAddr
sender = record { sin_addr = 7; sin_port = 6666 }

abbrev nothing : Handoff
nothing = record { high = []; low = []; woken = 0 }

handle_com_broadcast-IsSorted_example : IsSorted 1 (
    handle_com_broadcast 1 sender
      (dead_msg dead_b ∷ alive_msg alive_b ∷ dead_msg dead_b ∷ [])
      nothing)
handle_com_broadcast-IsSorted_example =
    handle_com_broadcast-IsSorted 1 sender
      (dead_msg dead_b ∷ alive_msg alive_b ∷ dead_msg dead_b ∷ []) nothing
      (record {
        high_bound = omega arith;
        low_bound = omega arith;
        high_alive = tt;
        low_other = tt;
      })

abbrev quiet : Acks
quiet = record { handlers = empty_map; log = [] }

abbrev indirect : IndirectPing
indirect = record {
  seq_no = 4;
  node = "b";
  target_addr = "127.0.0.1";
  target_port = 6666;
  nack = true;
  source_addr = "127.0.0.1";
  source_port = 6666;
  source_node = "c";
}

-- A system that reads every address as that of this host, on a machine in network byte order.
abbrev loopback : String → Option ℕ
loopback s = some 1

abbrev unswapped : ℕ → ℕ
unswapped n = n

indirect_ping_relays_example :
    (let a = handle_indirect_ping loopback unswapped config_a 2 11 indirect sender quiet in
      let ping = gen_ping 2 "b" config_a.advertise_addr config_a.advertise_port "a" in
      (handle_nack 2 a ≡ a)
      × ((handle_ack 2 50 a).log
          ≡ ((([] ++ send_udp (target_of loopback unswapped indirect) ping ∷ [])
                ++ timer_stopped false ∷ [])
              ++ close 11 ∷ [])
            ++ send_udp sender (gen_ack_resp 4) ∷ []))
indirect_ping_relays_example =
    indirect_ping_relays loopback unswapped config_a 2 11 50 indirect sender quiet

-- A serialiser of acks, in bytes that may be zero.
abbrev serialize : MessageData → List ℕ
serialize (ack_resp_msg n) = 3 ∷ n ∷ []
serialize md = 1 ∷ []

abbrev parse : List ℕ → MessageData × Bool
parse (x ∷ n ∷ []) = (gen_ack_resp n, true)
parse s = (gen_user "", false)

decode_receive-encode_send_example :
    decode_receive serialize parse (encode_send serialize parse (gen_ack_resp 9))
    ≡ message (gen_ack_resp 9)
decode_receive-encode_send_example =
    decode_receive-encode_send serialize parse (gen_ack_resp 9) true refl (omega arith)
      (omega arith, (omega arith, tt))

decode_receive-zero_example :
    decode_receive serialize parse (encode_send serialize parse (gen_ack_resp 0))
    ≡ message (parse (3 ∷ [])).0
decode_receive-zero_example =
    decode_receive-zero serialize parse (gen_ack_resp 0) (3 ∷ []) [] refl (omega arith)
      (omega arith, tt)

-- One digit.
abbrev digit : ℕ → List ℕ
digit n = (48 + n) ∷ []

address_parts_named_example :
    (address_parts digit ((97 ∷ []) ++ (slash ∷ ((48 ∷ []) ++ (colon ∷ 50 ∷ []))))
      ≡ (slash ∷ 48 ∷ [], 50 ∷ []))
    × (address_parts digit ((97 ∷ []) ++ (slash ∷ 48 ∷ [])) ≡ (slash ∷ 48 ∷ [], digit default_port))
address_parts_named_example =
    address_parts_named digit (97 ∷ []) (48 ∷ []) (50 ∷ []) (omega arith, tt) (omega arith, tt)
