-- ===== src/FlowEvent.antt =====
-- datapath/flowevent.go: the records of the datapath's ring buffer and their labels, with
-- `addr128ToIP` of datapath/datapath.go and the doors of datapath/counters.go.
pub mod Decode
pub mod Examples
use cozyplane.Base.{
  ℕ, ◌+◌, ◌*◌, ◌/◌, ◌%◌, Bool, true, false, ◌&&◌, not, List, [], ◌∷◌, ◌++◌, Option, none, some,
  Bytes, codes, ltb, ◌==◌, length, take, drop, get_or, get_elem?, replicate, str_eq, if◌then◌else◌,
  ℤ, pos,
}
use cozyplane.Claim.Decimal.{format_int}

abbrev pub flow_event_size : ℕ
flow_event_size = 64

-- `FlowEvent`.
pub record FlowEvent : Type 0 where
  pub ts : ℕ
  pub src : Bytes
  pub dst : Bytes
  pub src_net : ℕ
  pub dst_net : ℕ
  pub sport : ℕ
  pub dport : ℕ
  pub proto : ℕ
  pub verdict : ℕ
  pub reason : ℕ
  pub hook : ℕ
  pub door : ℕ
  pub flags : ℕ
  pub tcp_flags : ℕ
  pub icmp_type : ℕ
  pub icmp_code : ℕ

-- `FlowReasonNames`, `FlowHookNames` and `NSDoorNames`.
abbrev pub flow_reason_names : List Bytes
flow_reason_names =
    codes "allow"
    ∷ codes "sg_ingress"
    ∷ codes "sg_egress"
    ∷ codes "sg_ns"
    ∷ codes "np_ingress"
    ∷ codes "np_egress"
    ∷ codes "hf_ingress"
    ∷ codes "hf_egress"
    ∷ codes "isolation"
    ∷ codes "spoof"
    ∷ codes "lb_closed"
    ∷ codes "lb_srcrange"
    ∷ codes "no_gateway"
    ∷ codes "malformed"
    ∷ codes "infra"
    ∷ []

abbrev pub flow_hook_names : List Bytes
flow_hook_names =
    codes "from_pod"
    ∷ codes "to_pod"
    ∷ codes "from_overlay"
    ∷ codes "from_uplink"
    ∷ codes "lb_ingress"
    ∷ codes "lb_dsr"
    ∷ codes "hf_ingress"
    ∷ codes "hf_egress"
    ∷ []

abbrev pub ns_door_names : List Bytes
ns_door_names = codes "gateway" ∷ codes "eip" ∷ codes "loadbalancer" ∷ codes "appliance" ∷ []

-- A name of a table, or the number after a prefix.
abbrev pub name_or : List Bytes → Bytes → ℕ → Bytes
name_or names prefix n = elim (get_elem? names n) [
  | some name ↦ name
  | none ↦ prefix ++ format_int (pos n)
]

-- `ReasonName`, `HookName`, `VerdictName` and `DoorName`.
unfoldable pub reason_name : FlowEvent → Bytes
reason_name e = name_or flow_reason_names (codes "reason_") e.reason

unfoldable pub hook_name : FlowEvent → Bytes
hook_name e = name_or flow_hook_names (codes "hook_") e.hook

unfoldable pub verdict_name : FlowEvent → Bytes
verdict_name e = if e.verdict == 0 then codes "allow" else codes "deny"

unfoldable pub door_name : FlowEvent → Bytes
door_name e = if e.door == 255 then [] else name_or ns_door_names (codes "door_") e.door

-- A bit of a byte, by its weight.
abbrev pub bit : ℕ → ℕ → Bool
bit flags weight = flags / weight % 2 == 1

abbrev name_if : Bool → Bytes → List Bytes
name_if b name = if b then name ∷ [] else []

-- `TCPFlagNames`; nil is the empty list.
unfoldable pub tcp_flag_names : FlowEvent → List Bytes
tcp_flag_names e =
    let syn = bit e.tcp_flags 2 in
    let ack = bit e.tcp_flags 16 in
    if not (e.proto == 6)
    then []
    else if e.tcp_flags == 0
    then []
    else (if syn && ack
        then codes "syn-ack" ∷ []
        else if syn
        then codes "syn" ∷ []
        else name_if ack (codes "ack"))
      ++ (name_if (bit e.tcp_flags 1) (codes "fin")
          ++ (name_if (bit e.tcp_flags 4) (codes "rst")
              ++ name_if (bit e.tcp_flags 8) (codes "psh")))

unfoldable pub one_of : ℕ → List ℕ → Bool
one_of n [] = false
one_of n (m ∷ ms) = if n == m then true else one_of n ms

-- `Direction`.
unfoldable pub direction : FlowEvent → Bytes
direction e =
    if one_of e.reason (1 ∷ 4 ∷ 6 ∷ 3 ∷ 10 ∷ 11 ∷ [])
    then codes "ingress"
    else if one_of e.reason (2 ∷ 5 ∷ 7 ∷ 12 ∷ [])
    then codes "egress"
    else if one_of e.hook (1 ∷ 4 ∷ 5 ∷ [])
    then codes "ingress"
    else codes "egress"

-- The first twelve bytes of an IPv4 address in the datapath's 16.
abbrev pub nat64_prefix : Bytes
nat64_prefix = 0 ∷ 100 ∷ 255 ∷ 155 ∷ replicate 8 0

-- `addr128ToIP`.
unfoldable pub addr128_to_ip : Bytes → Bytes
addr128_to_ip a = if str_eq (take 12 a) nat64_prefix then drop 12 a else a

-- The value of bytes, the least significant first, or the most.
unfoldable pub little_endian : Bytes → ℕ
little_endian [] = 0
little_endian (b ∷ bs) = b + 256 * little_endian bs

unfoldable pub big_endian : ℕ → Bytes → ℕ
big_endian n [] = n
big_endian n (b ∷ bs) = big_endian (256 * n + b) bs

-- `b[from : from + n]` and `b[i]`, within the bytes.
abbrev pub slice : ℕ → ℕ → Bytes → Bytes
slice from n b = take n (drop from b)

-- `DecodeFlowEvent`; an error is `none`.
unfoldable pub decode_flow_event : Bytes → Option FlowEvent
decode_flow_event b =
    if ltb (length b) flow_event_size
    then none
    else some (record {
      ts = little_endian (slice 0 8 b);
      src = addr128_to_ip (slice 8 16 b);
      dst = addr128_to_ip (slice 24 16 b);
      src_net = little_endian (slice 40 4 b);
      dst_net = little_endian (slice 44 4 b);
      sport = big_endian 0 (slice 48 2 b);
      dport = big_endian 0 (slice 50 2 b);
      proto = get_or b 52 0;
      verdict = get_or b 53 0;
      reason = get_or b 54 0;
      hook = get_or b 55 0;
      door = get_or b 56 0;
      flags = get_or b 57 0;
      tcp_flags = get_or b 58 0;
      icmp_type = get_or b 59 0;
      icmp_code = get_or b 60 0;
    })
