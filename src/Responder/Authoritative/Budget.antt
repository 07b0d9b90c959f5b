-- ===== src/Responder/Authoritative/Budget.antt =====
-- How large a reply can get.
use cozyplane.Base.{
  ℕ, ◌+◌, ◌≤◌, ◌≡◌, Bool, true, false, List, [], ◌∷◌, ◌++◌, Option, none, some, Bytes, arith,
  if◌then◌else◌, length, length-append,
}
use cozyplane.Responder.Message.{
  Rr, srv, addr_record, Message, QueryType, Dns, Builder, Section, in_answer, in_ns, in_extra, add,
  add_some, add_addr, ◌>>=◌, type_a, type_aaaa, type_srv, type_any, other_type,
}
use cozyplane.Responder.Answer.{
  Endpoint, Service, ServicePort, Asked, asks_srv, add_srv, vip_srv, srv_endpoints, answer_srv,
  add_addrs, bare_ports, bare_srv,
}

-- The records of a message.
unfoldable pub record_count : Message → ℕ
record_count m = length m.answer + length m.ns + length m.extra

unfoldable pub rrs_len : Dns → List Rr → ℕ
rrs_len dns [] = 0
rrs_len dns (rr ∷ rrs) = dns.rr_len rr + rrs_len dns rrs

-- The bytes of a message before compression: those of the empty reply and of its records.
unfoldable pub message_len : Dns → Message → ℕ
message_len dns m = dns.reply_len + rrs_len dns m.answer + rrs_len dns m.ns + rrs_len dns m.extra

rrs_len-append :
    (dns : Dns) (xs ys : List Rr) → rrs_len dns (xs ++ ys) ≡ rrs_len dns xs + rrs_len dns ys
unfolding rrs_len
rrs_len-append dns [] ys = omega arith
rrs_len-append dns (x ∷ xs) ys = omega (arith, rrs_len-append dns xs ys)

-- The budget counts what the message holds, and is within the limits.
abbrev pub Accounted : Dns → Builder → Type 0
Accounted dns b =
    (b.records ≡ record_count b.msg)
    × (b.bytes ≡ message_len dns b.msg)
    × (b.records ≤ 4096)
    × (b.bytes ≤ 65535)

abbrev pub AccountedResult : Dns → Option Builder → Type 0
AccountedResult dns none = Unit
AccountedResult dns (some b) = Accounted dns b

module _ (dns : Dns) where
  pub add-Accounted :
      (sec : Section) (rr : Rr) (b : Builder)
      → Accounted dns b
      → AccountedResult dns (add dns sec rr b)
  unfolding add record_count message_len rrs_len
  add-Accounted in_answer rr b (hr, hb, lr, lb) =
      ground
        (arith, length-append b.msg.answer (rr ∷ []), rrs_len-append dns b.msg.answer (rr ∷ []))
  add-Accounted in_ns rr b (hr, hb, lr, lb) =
      ground (arith, length-append b.msg.ns (rr ∷ []), rrs_len-append dns b.msg.ns (rr ∷ []))
  add-Accounted in_extra rr b (hr, hb, lr, lb) =
      ground (arith, length-append b.msg.extra (rr ∷ []), rrs_len-append dns b.msg.extra (rr ∷ []))

  pub bind-Accounted :
      (o : Option Builder) (f : Builder → Option Builder)
      → AccountedResult dns o
      → ((b : Builder) → Accounted dns b → AccountedResult dns (f b))
      → AccountedResult dns (o >>= f)
  bind-Accounted none f h k = tt
  bind-Accounted (some b) f h k = k b h

  add_some-Accounted :
      (sec : Section) (o : Option Rr) (b : Builder)
      → Accounted dns b
      → AccountedResult dns (add_some dns sec o b)
  unfolding add_some
  add_some-Accounted sec none b h = h
  add_some-Accounted sec (some rr) b h = add-Accounted sec rr b h

  pub add_addr-Accounted :
      (t : QueryType) (owner ip : Bytes) (b : Builder)
      → Accounted dns b
      → AccountedResult dns (add_addr dns t owner ip b)
  unfolding add_addr
  add_addr-Accounted type_a owner ip b h = add_some-Accounted in_answer _ b h
  add_addr-Accounted type_aaaa owner ip b h = add_some-Accounted in_answer _ b h
  add_addr-Accounted type_srv owner ip b h = h
  add_addr-Accounted type_any owner ip b h = add_some-Accounted in_answer _ b h
  add_addr-Accounted other_type owner ip b h = h

  pub if-Accounted :
      (c : Bool) (o : Option Builder) (b : Builder)
      → AccountedResult dns o
      → Accounted dns b
      → AccountedResult dns (if c then o else some b)
  if-Accounted true o b h k = h
  if-Accounted false o b h k = k

module _ (dns : Dns) (domain : Bytes) where
  -- The SRV record of `add_srv`.
  abbrev wanted : QueryType → Bytes → ℕ → Bytes → Option Rr
  wanted t owner port target = if asks_srv dns domain t then some (srv owner port target) else none

  add_srv-Accounted :
      (t : QueryType) (owner : Bytes) (port : ℕ) (target ip : Bytes) (b : Builder)
      → Accounted dns b
      → AccountedResult dns (add_srv dns domain t owner port target ip b)
  unfolding add_srv
  add_srv-Accounted t owner port target ip b h =
      bind-Accounted dns (add_some dns in_answer (wanted t owner port target) b) _
        (add_some-Accounted dns in_answer (wanted t owner port target) b h)
        (λ c k.
          bind-Accounted dns (add_some dns in_extra (addr_record target type_a ip) c) _
            (add_some-Accounted dns in_extra (addr_record target type_a ip) c k)
            (λ d l. add_some-Accounted dns in_extra (addr_record target type_aaaa ip) d l))

  pub vip_srv-Accounted :
      (t : QueryType) (owner : Bytes) (q : Asked) (vip : Bytes) (ports : List ServicePort)
      (b : Builder)
      → Accounted dns b
      → AccountedResult dns (vip_srv dns domain t owner q vip ports b)
  unfolding vip_srv
  vip_srv-Accounted t owner q vip [] b h = h
  vip_srv-Accounted t owner q vip (p ∷ ports) b h =
      bind-Accounted dns _ _ (if-Accounted dns _ _ b (add_srv-Accounted t owner _ _ vip b h) h)
        (λ c k. vip_srv-Accounted t owner q vip ports c k)

  srv_endpoints-Accounted :
      (t : QueryType) (owner : Bytes) (svc : Service) (p : ServicePort) (eps : List Endpoint)
      (b : Builder)
      → Accounted dns b
      → AccountedResult dns (srv_endpoints dns domain t owner svc p eps b)
  unfolding srv_endpoints
  srv_endpoints-Accounted t owner svc p [] b h = h
  srv_endpoints-Accounted t owner svc p (e ∷ eps) b h =
      bind-Accounted dns _ _ (add_srv-Accounted t owner _ _ e.ip b h)
        (λ c k. srv_endpoints-Accounted t owner svc p eps c k)

  pub answer_srv-Accounted :
      (t : QueryType) (owner : Bytes) (q : Asked) (svc : Service) (eps : List Endpoint)
      (ports : List ServicePort) (b : Builder)
      → Accounted dns b
      → AccountedResult dns (answer_srv dns domain t owner q svc eps ports b)
  unfolding answer_srv
  answer_srv-Accounted t owner q svc eps [] b h = h
  answer_srv-Accounted t owner q svc eps (p ∷ ports) b h =
      bind-Accounted dns _ _
        (if-Accounted dns _ _ b (srv_endpoints-Accounted t owner svc p eps b h) h)
        (λ c k. answer_srv-Accounted t owner q svc eps ports c k)

  pub add_addrs-Accounted :
      (t : QueryType) (owner : Bytes) (want : Endpoint → Bool) (eps : List Endpoint) (b : Builder)
      → Accounted dns b
      → AccountedResult dns (add_addrs dns domain t owner want eps b)
  unfolding add_addrs
  add_addrs-Accounted t owner want [] b h = h
  add_addrs-Accounted t owner want (e ∷ eps) b h =
      bind-Accounted dns _ _ (if-Accounted dns _ _ b (add_addr-Accounted dns t owner e.ip b h) h)
        (λ c k. add_addrs-Accounted t owner want eps c k)

  bare_ports-Accounted :
      (owner : Bytes) (q : Asked) (e : Endpoint) (ports : List ServicePort) (b : Builder)
      → Accounted dns b
      → AccountedResult dns (bare_ports dns domain owner q e ports b)
  unfolding bare_ports
  bare_ports-Accounted owner q e [] b h = h
  bare_ports-Accounted owner q e (p ∷ ports) b h =
      bind-Accounted dns _ _ (if-Accounted dns _ _ b (add-Accounted dns in_answer _ b h) h)
        (λ c k. bare_ports-Accounted owner q e ports c k)

  pub bare_srv-Accounted :
      (owner : Bytes) (q : Asked) (ports : List ServicePort) (eps : List Endpoint) (b : Builder)
      → Accounted dns b
      → AccountedResult dns (bare_srv dns domain owner q ports eps b)
  unfolding bare_srv
  bare_srv-Accounted owner q ports [] b h = h
  bare_srv-Accounted owner q ports (e ∷ eps) b h =
      bind-Accounted dns _ _ (bare_ports-Accounted owner q e ports b h)
        (λ c k. bare_srv-Accounted owner q ports eps c k)
