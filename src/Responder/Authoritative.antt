-- ===== src/Responder/Authoritative.antt =====
-- `authoritative`, put together: from a name under the cluster's domain to the reply.
pub mod Isolation
pub mod Budget
pub mod Replies
use cozyplane.Base.{
  ℕ, Bool, true, false, not, ◌&&◌, ◌||◌, List, [], ◌∷◌, Option, none, some, Bytes, ltb,
  if◌then◌else◌, str_eq, is_empty, length,
}
use cozyplane.Grants.{VpcRef}
use cozyplane.Claim.Guard.{ref_eq}
use cozyplane.Responder.Message.{
  Message, QueryType, type_srv, Dns, max_endpoints, max_service_ports, reply_message, Builder,
  in_ns, failed, soa_record, ◌>>=◌, add, add_addr, nxdomain,
}
use cozyplane.Responder.Answer.{
  Endpoint, Service, State, Asked, dissect, trim_suffix, attached_vpc, contains_vpc, has_hostname,
  ready, vip_srv, answer_srv, add_addrs, bare_srv,
}

-- `len(m.Answer) == 0`.
abbrev pub no_answer : Message → Bool
no_answer m = elim m.answer [ [] ↦ true | ◌∷◌ r rs ↦ false ]

-- The zone, the querying Port's VPC, the type of the question and its name as the client spelled it.
pub record Question : Type 0 where
  pub domain : Bytes
  pub vpc : VpcRef
  pub qtype : QueryType
  pub owner : Bytes

module _ (dns : Dns) where
  -- `budget := &answerBudget{bytes: m.Len()}`.
  abbrev pub fresh : Builder
  fresh = record { msg = reply_message; bytes = dns.reply_len; records = 0 }

  -- What both branches end with: no records of the type is NODATA, and a spent budget a failure.
  unfoldable pub finish : Question → Option Builder → Message
  unfolding failed
  finish w none = failed
  finish w (some b) =
      if no_answer b.msg
      then elim (add dns in_ns (soa_record (dns.fqdn w.domain)) b) [
        | none ↦ failed
        | some b' ↦ b'.msg
      ]
      else b.msg

  -- A Service that is not headless: the address that was allocated in the VPC.
  unfoldable pub answer_vip : Question → Asked → Service → Option Bytes → Message
  unfolding finish
  answer_vip w q svc none = nxdomain dns w.domain reply_message
  answer_vip w q svc (some vip) =
      if not (is_empty q.hostname)
      then nxdomain dns w.domain reply_message
      else finish w (
          if not (is_empty q.srv_proto)
          then vip_srv dns w.domain w.qtype w.owner q vip svc.ports fresh
          else add_addr dns w.qtype w.owner vip fresh)

  abbrev is_srv : QueryType → Bool
  is_srv type_srv = true
  is_srv t = false

  -- The switch on the form of the name, for a headless Service and its published endpoints.
  unfoldable pub answer_endpoints : Question → Asked → Service → List Endpoint → Message
  unfolding finish
  answer_endpoints w q svc eps =
      if not (is_empty q.srv_proto)
      then finish w (answer_srv dns w.domain w.qtype w.owner q svc eps svc.ports fresh)
      else if not (is_empty q.hostname)
      then elim (add_addrs dns w.domain w.qtype w.owner (λ e. str_eq e.hostname q.hostname) eps
          fresh) [
            | none ↦ failed
            | some b ↦
                if has_hostname eps q.hostname
                then finish w (some b)
                else nxdomain dns w.domain b.msg
          ]
      else finish w (
          add_addrs dns w.domain w.qtype w.owner (λ e. true) eps fresh >>= λ b.
          if is_srv w.qtype then bare_srv dns w.domain w.owner q svc.ports eps b else some b)

  -- The branch of a headless Service, from the answer of `Endpoints`.
  unfoldable pub answer_headless : Question → Asked → Service → Option (List Endpoint) → Message
  unfolding answer_endpoints
  answer_headless w q svc none = failed
  answer_headless w q svc (some eps) =
      if ltb max_endpoints (length eps)
      then failed
      else answer_endpoints w q svc (if svc.publish_not_ready then eps else ready eps)

  -- A Service that the querying VPC may see, attached to `svc_vpc`.
  unfoldable pub answer_service : State → Question → Asked → Service → VpcRef → Message
  answer_service state w q svc svc_vpc =
      if ltb max_service_ports (length svc.ports)
      then failed
      else if not svc.is_headless
      then answer_vip w q svc (state.service_vip_for q.ns q.svc svc_vpc)
      else answer_headless w q svc (state.endpoints q.ns q.svc svc_vpc)

  -- The VPC that a Service is attached to, if the querying VPC is that one or one of its peers.
  unfoldable pub visible_vpc : State → VpcRef → Service → Option VpcRef
  visible_vpc state vpc svc = elim (attached_vpc svc) [
    | none ↦ none
    | some svc_vpc ↦
        if not (ref_eq svc_vpc vpc) && not (contains_vpc (state.peers vpc) svc_vpc)
        then none
        else some svc_vpc
  ]

  unfoldable pub answer_asked : State → Question → Asked → Message
  answer_asked state w q = elim (state.service q.ns q.svc) [
    | none ↦ nxdomain dns w.domain reply_message
    | some svc ↦ elim (visible_vpc state w.vpc svc) [
      | none ↦ nxdomain dns w.domain reply_message
      | some svc_vpc ↦ answer_service state w q svc svc_vpc
    ]
  ]

  -- `authoritative`.
  unfoldable pub authoritative : State → Question → Bytes → Message
  authoritative state w qname =
      let labels = dns.split_domain_name (trim_suffix qname (dns.fqdn w.domain)) in
      elim (dissect labels) [
        | none ↦ nxdomain dns w.domain reply_message
        | some q ↦ answer_asked state w q
      ]
