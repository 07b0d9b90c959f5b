-- ===== src/FlowEvent/Examples.antt =====
-- A flow that was refused.
use cozyplane.Base.{◌≡◌, [], ◌∷◌, some, inl, refl, arith}
use cozyplane.FlowEvent.{FlowEvent, decode_flow_event}
use cozyplane.FlowEvent.Decode.{IsRecord, to_wire, decode_flow_event-to_wire}

abbrev event : FlowEvent
event = record {
  ts = 123456789;
  src = 10 ∷ 0 ∷ 0 ∷ 5 ∷ [];
  dst = 10 ∷ 0 ∷ 0 ∷ 9 ∷ [];
  src_net = 100;
  dst_net = 101;
  sport = 40000;
  dport = 443;
  proto = 6;
  verdict = 1;
  reason = 8;
  hook = 0;
  door = 255;
  flags = 1;
  tcp_flags = 2;
  icmp_type = 0;
  icmp_code = 0;
}

event-IsRecord : IsRecord event
event-IsRecord = record {
  ts = ground arith;
  src = inl refl;
  dst = inl refl;
  src_net = ground arith;
  dst_net = ground arith;
  sport = ground arith;
  dport = ground arith;
}

decode_flow_event-to_wire_example : decode_flow_event (to_wire event) ≡ some event
decode_flow_event-to_wire_example = decode_flow_event-to_wire event event-IsRecord
