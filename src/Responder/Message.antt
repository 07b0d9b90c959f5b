-- ===== src/Responder/Message.antt =====
-- The messages of the resolver, and the budget on what an answer may hold.
use cozyplane.Base.{
  ℕ, ◌+◌, Bool, true, false, ◌||◌, List, [], ◌∷◌, ◌++◌, Option, none, some, Bytes, ltb, leb,
  if◌then◌else◌,
}
use cozyplane.Base.Net.{to4, to16}

-- The records that the resolver makes, with the fields that differ: owner name and data.
pub data Rr : Type 0 where
  a : Bytes → Bytes → Rr
  aaaa : Bytes → Bytes → Rr
  srv : Bytes → ℕ → Bytes → Rr
  soa : Bytes → Rr

pub data Rcode : Type 0 where
  no_error name_error refused server_failure : Rcode

pub record Message : Type 0 where
  pub rcode : Rcode
  pub authoritative : Bool
  pub answer : List Rr
  pub ns : List Rr
  pub extra : List Rr

-- The query types that the code names; any other is `other_type`.
pub data QueryType : Type 0 where
  type_a type_aaaa type_srv type_any other_type : QueryType

-- What is used of the DNS library: `Fqdn`, `IsSubDomain`, `SplitDomainName`, the sizes of a record
-- and of a fresh reply, and the folding of letters.
pub record Dns : Type 0 where
  pub fqdn : Bytes → Bytes
  pub is_sub_domain : Bytes → Bytes → Bool
  pub split_domain_name : Bytes → List Bytes
  pub rr_len : Rr → ℕ
  pub reply_len : ℕ
  pub to_lower : Bytes → Bytes
  pub equal_fold : Bytes → Bytes → Bool

abbrev pub max_msg_size : ℕ
max_msg_size = 65535

abbrev pub max_answer_records : ℕ
max_answer_records = 4096

abbrev pub max_endpoints : ℕ
max_endpoints = 4096

abbrev pub max_service_ports : ℕ
max_service_ports = 4096

-- `new(dns.Msg).SetReply(req)` with `Authoritative`.
abbrev pub reply_message : Message
reply_message = record { rcode = no_error; authoritative = true; answer = []; ns = []; extra = [] }

abbrev pub rcode_message : Rcode → Message
rcode_message rcode = record {
  rcode = rcode;
  authoritative = false;
  answer = [];
  ns = [];
  extra = [];
}

-- A message with the budget that its records have used: `m` and `answerBudget`.
pub record Builder : Type 0 where
  pub msg : Message
  pub bytes : ℕ
  pub records : ℕ

pub data Section : Type 0 where
  in_answer in_ns in_extra : Section

abbrev append_to : Section → Rr → Message → Message
append_to in_answer rr m = record m { answer = m.answer ++ rr ∷ [] }
append_to in_ns rr m = record m { ns = m.ns ++ rr ∷ [] }
append_to in_extra rr m = record m { extra = m.extra ++ rr ∷ [] }

-- `failed` and `refused`.
unfoldable pub failed : Message
failed = rcode_message server_failure

unfoldable pub refuse : Message
refuse = rcode_message refused

-- `soaRecord`.
unfoldable pub soa_record : Bytes → Rr
soa_record zone = soa zone

-- `addrRecord`; nil is `none`.
unfoldable pub addr_record : Bytes → QueryType → Bytes → Option Rr
addr_record name type_a ip = elim (to4 ip) [ none ↦ none | some v4 ↦ some (a name v4) ]
addr_record name type_aaaa ip = elim (to4 ip) [ none ↦ some (aaaa name (to16 ip)) | some v4 ↦ none ]
addr_record name t ip = none

infixl 5 ◌>>=◌
abbrev pub ◌>>=◌ : Option Builder → (Builder → Option Builder) → Option Builder
o >>= next = elim o [ none ↦ none | some b ↦ next b ]

module _ (dns : Dns) where
  -- `answerBudget.add`; `none` where it returns false.
  unfoldable pub add : Section → Rr → Builder → Option Builder
  add section rr b =
      let size = dns.rr_len rr in
      if leb max_answer_records b.records || ltb max_msg_size (b.bytes + size)
      then none
      else some (record {
        msg = append_to section rr b.msg;
        bytes = b.bytes + size;
        records = b.records + 1;
      })

  -- The guarded `budget.add(&m.Extra, rr)` of a record that may be nil.
  unfoldable pub add_some : Section → Option Rr → Builder → Option Builder
  unfolding add
  add_some section none b = some b
  add_some section (some rr) b = add section rr b

  -- The type that `addAddr` answers an `ANY` query with.
  abbrev pub effective_type : QueryType → Bytes → QueryType
  effective_type type_any ip = elim (to4 ip) [ none ↦ type_aaaa | some v4 ↦ type_a ]
  effective_type t ip = t

  -- `addAddr`.
  unfoldable pub add_addr : QueryType → Bytes → Bytes → Builder → Option Builder
  unfolding add_some
  add_addr type_srv owner ip b = some b
  add_addr other_type owner ip b = some b
  add_addr t owner ip b = add_some in_answer (addr_record owner (effective_type t ip) ip) b

  -- `nxdomain`, which keeps the additional section.
  unfoldable pub nxdomain : Bytes → Message → Message
  unfolding soa_record
  nxdomain domain m = record m {
    rcode = name_error;
    answer = [];
    ns = soa_record (dns.fqdn domain) ∷ [];
  }
