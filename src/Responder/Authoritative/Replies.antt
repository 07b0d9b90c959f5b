-- ===== src/Responder/Authoritative/Replies.antt =====
-- Every reply that `authoritative` makes is within the budget.
use cozyplane.Base.{
  ◌+◌, ◌≤◌, ◌≡◌, refl, Bool, true, false, List, [], ◌∷◌, Option, none, some, inl, inr, Bytes,
  Bool-cases, Option-cases, arith, if◌then◌else◌, str_eq, not, is_empty,
}
use cozyplane.Grants.{VpcRef}
use cozyplane.Responder.Message.{
  Message, Dns, Builder, in_ns, add, add_addr, reply_message, nxdomain, failed, soa_record,
}
use cozyplane.Responder.Answer.{
  Endpoint, Service, State, Asked, dissect, trim_suffix, has_hostname, vip_srv, add_addrs,
}
use cozyplane.Responder.Authoritative.{
  Question, visible_vpc, answer_asked, answer_service, answer_headless, answer_endpoints,
  answer_vip, finish, fresh, no_answer, authoritative,
}
use cozyplane.Responder.Authoritative.Budget.{
  record_count, rrs_len, message_len, Accounted, AccountedResult, add-Accounted, bind-Accounted,
  add_addr-Accounted, if-Accounted, vip_srv-Accounted, answer_srv-Accounted, add_addrs-Accounted,
  bare_srv-Accounted,
}

some_inj : {b c : Builder} → some b ≡ some c → b ≡ c
some_inj e = ground arith

-- What a reply may hold: at most 4096 records, and at most 65535 bytes before compression.
abbrev pub WithinBudget : Dns → Message → Type 0
WithinBudget dns m = (record_count m ≤ 4096) × (message_len dns m ≤ 65535)

-- A negative reply is the zone's SOA record and what was added on the way; it fits if the empty reply
-- and that record do.
abbrev pub SoaFits : Dns → Bytes → Type 0
SoaFits dns domain = dns.reply_len + dns.rr_len (soa_record (dns.fqdn domain)) ≤ 65535

module _ (dns : Dns) (w : Question) where
  failed_fits : SoaFits dns w.domain → WithinBudget dns failed
  unfolding failed record_count message_len rrs_len
  failed_fits h = ground arith

  empty_fits : SoaFits dns w.domain → WithinBudget dns (nxdomain dns w.domain reply_message)
  unfolding nxdomain record_count message_len rrs_len
  empty_fits h = ground arith

  result_fits :
      (o : Option Builder)
      → SoaFits dns w.domain
      → AccountedResult dns o
      → WithinBudget dns (elim o [ none ↦ failed | some b ↦ b.msg ])
  result_fits none h k = failed_fits h
  result_fits (some b) h (hr, hb, lr, lb) = (ground arith, ground arith)

  finish_fits :
      (o : Option Builder)
      → SoaFits dns w.domain
      → AccountedResult dns o
      → WithinBudget dns (finish dns w o)
  unfolding finish
  finish_fits none h k = failed_fits h
  finish_fits (some b) h k = elim (Bool-cases (no_answer b.msg)) [
    | inl e ↦ rw e (
        result_fits (add dns in_ns (soa_record (dns.fqdn w.domain)) b) h
          (add-Accounted dns in_ns _ b k))
    | inr e ↦ rw e (result_fits (some b) h k)
  ]

  fresh-Accounted : SoaFits dns w.domain → Accounted dns (fresh dns)
  unfolding record_count message_len rrs_len
  fresh-Accounted h = (refl, ground arith, ground arith, ground arith)

  if_fits :
      (c : Bool) (m m' : Message)
      → WithinBudget dns m
      → WithinBudget dns m'
      → WithinBudget dns (if c then m else m')
  if_fits true m m' h k = h
  if_fits false m m' h k = k

  if_accounted :
      (c : Bool) (o o' : Option Builder)
      → AccountedResult dns o
      → AccountedResult dns o'
      → AccountedResult dns (if c then o else o')
  if_accounted true o o' h k = h
  if_accounted false o o' h k = k

  answer_vip_fits :
      (q : Asked) (svc : Service) (o : Option Bytes)
      → SoaFits dns w.domain
      → WithinBudget dns (answer_vip dns w q svc o)
  unfolding answer_vip
  answer_vip_fits q svc none h = empty_fits h
  answer_vip_fits q svc (some vip) h =
      let by_srv = vip_srv dns w.domain w.qtype w.owner q vip svc.ports (fresh dns) in
      let by_addr = add_addr dns w.qtype w.owner vip (fresh dns) in
      if_fits (not (is_empty q.hostname)) _ _ (empty_fits h) (
        finish_fits (if not (is_empty q.srv_proto) then by_srv else by_addr) h (
          if_accounted (not (is_empty q.srv_proto)) by_srv by_addr
            (vip_srv-Accounted dns w.domain w.qtype w.owner q vip svc.ports (fresh dns)
              (fresh-Accounted h))
            (add_addr-Accounted dns w.qtype w.owner vip (fresh dns) (fresh-Accounted h))))

  -- Where no endpoint has the host name, no address was added.
  add_addrs-hostname :
      (eps : List Endpoint) (host : Bytes) (b : Builder)
      → has_hostname eps host ≡ false
      → add_addrs dns w.domain w.qtype w.owner (λ e. str_eq e.hostname host) eps b ≡ some b
  unfolding add_addrs has_hostname
  add_addrs-hostname [] host b h = refl
  add_addrs-hostname (e ∷ eps) host b h = ground (arith, add_addrs-hostname eps host b)

  hostname_fits :
      (eps : List Endpoint) (host : Bytes) (o : Option Builder)
      → SoaFits dns w.domain
      → AccountedResult dns o
      → (has_hostname eps host ≡ false → o ≡ some (fresh dns))
      → WithinBudget dns (elim o [
        | none ↦ failed
        | some b ↦
            if has_hostname eps host then finish dns w (some b) else nxdomain dns w.domain b.msg
      ])
  hostname_fits eps host none h k z = failed_fits h
  hostname_fits eps host (some b) h k z = elim (Bool-cases (has_hostname eps host)) [
    | inl e ↦ rw e (finish_fits (some b) h k)
    | inr e ↦ rw (e, some_inj (z e)) (empty_fits h)
  ]

  answer_endpoints_fits :
      (q : Asked) (svc : Service) (eps : List Endpoint)
      → SoaFits dns w.domain
      → WithinBudget dns (answer_endpoints dns w q svc eps)
  unfolding answer_endpoints
  answer_endpoints_fits q svc eps h =
      let f = fresh-Accounted h in
      if_fits _ _ _
        (finish_fits _ h
          (answer_srv-Accounted dns w.domain w.qtype w.owner q svc eps svc.ports (fresh dns) f))
        (if_fits _ _ _
          (hostname_fits eps q.hostname _ h
            (add_addrs-Accounted dns w.domain w.qtype w.owner (λ e. str_eq e.hostname q.hostname)
              eps (fresh dns) f)
            (λ e. add_addrs-hostname eps q.hostname (fresh dns) e))
          (finish_fits _ h (
            bind-Accounted dns _ _
              (add_addrs-Accounted dns w.domain w.qtype w.owner (λ e. true) eps (fresh dns) f)
              (λ c k.
                if-Accounted dns _ _ c (bare_srv-Accounted dns w.domain w.owner q svc.ports eps c k)
                  k))))

  answer_headless_fits :
      (q : Asked) (svc : Service) (o : Option (List Endpoint))
      → SoaFits dns w.domain
      → WithinBudget dns (answer_headless dns w q svc o)
  unfolding answer_headless
  answer_headless_fits q svc none h = failed_fits h
  answer_headless_fits q svc (some eps) h =
      if_fits _ _ _ (failed_fits h) (answer_endpoints_fits q svc _ h)

  answer_service_fits :
      (s : State) (q : Asked) (svc : Service) (v : VpcRef)
      → SoaFits dns w.domain
      → WithinBudget dns (answer_service dns s w q svc v)
  unfolding answer_service
  answer_service_fits s q svc v h =
      if_fits _ _ _ (failed_fits h)
        (if_fits _ _ _ (answer_vip_fits q svc _ h) (answer_headless_fits q svc _ h))

  answer_asked_fits :
      (s : State) (q : Asked) → SoaFits dns w.domain → WithinBudget dns (answer_asked dns s w q)
  unfolding answer_asked
  answer_asked_fits s q h = elim (Option-cases (s.service q.ns q.svc)) [
    | inl e ↦ rw (e, answer_asked) (empty_fits h)
    | inr (svc, e) ↦ elim (Option-cases (visible_vpc dns s w.vpc svc)) [
      | inl f ↦ rw (e, answer_asked, f) (empty_fits h)
      | inr (v, f) ↦ rw (e, answer_asked, f) (answer_service_fits s q svc v h)
    ]
  ]

  -- Whatever Services, ports and endpoints a tenant makes, a reply holds at most 4096 records and at
  -- most 65535 bytes before compression, if the empty reply with the zone's SOA record does.
  pub authoritative-WithinBudget :
      (s : State) (qname : Bytes)
      → SoaFits dns w.domain
      → WithinBudget dns (authoritative dns s w qname)
  unfolding authoritative
  authoritative-WithinBudget s qname h =
      elim (Option-cases
        (dissect (dns.split_domain_name (trim_suffix qname (dns.fqdn w.domain))))) [
          | inl e ↦ rw (e, authoritative) (empty_fits h)
          | inr (q, e) ↦ rw (e, authoritative) (answer_asked_fits s q h)
        ]
