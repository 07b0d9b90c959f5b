-- ===== src/Dhcp6/Examples.antt =====
-- A SOLICIT with a rapid commit and two client identifiers, and a byte behind its options.
use cozyplane.Base.{ℕ, ◌≡◌, ◌↔◌, List, [], ◌∷◌, ◌++◌, none, some, inl, Bytes, arith}
use cozyplane.Dhcp6.{build_dhcp6_reply}
use cozyplane.Dhcp6.Wire.{Opt, encode, last_of, client_id_of, is_rapid}
use cozyplane.Dhcp6.Reply.{reply_bytes}
use cozyplane.Dhcp6.Exact.{Answers, reply_exact}

abbrev options : List Opt
options =
    record { code = 1; body = 65 ∷ [] }
    ∷ record { code = 14; body = [] }
    ∷ record { code = 2; body = 67 ∷ [] }
    ∷ record { code = 3; body = 9 ∷ 9 ∷ 9 ∷ 8 ∷ 0 ∷ [] }
    ∷ record { code = 1; body = 65 ∷ 66 ∷ [] }
    ∷ []

abbrev mac : Bytes
mac = 2 ∷ 0 ∷ 0 ∷ 0 ∷ 0 ∷ 1 ∷ []

abbrev pod_ip : Bytes
pod_ip = 10 ∷ 0 ∷ 0 ∷ 5 ∷ []

abbrev reply : Bytes
reply = reply_bytes 7 (7 ∷ 8 ∷ 9 ∷ []) (65 ∷ 66 ∷ []) options mac pod_ip none

reply_exact_example :
    (build_dhcp6_reply (1 ∷ 7 ∷ 8 ∷ 9 ∷ (encode options ++ 5 ∷ [])) mac pod_ip none ≡ some reply)
    ↔ ((rtype : ℕ) × (client_id : Bytes) × Answers 1 (is_rapid options) rtype
        × (last_of client_id_of options ≡ some client_id)
        × (reply_bytes rtype (7 ∷ 8 ∷ 9 ∷ []) client_id options mac pod_ip none ≡ reply))
reply_exact_example =
    reply_exact 1 7 8 9 options (5 ∷ []) mac pod_ip none
      (
        (omega arith, omega arith),
        (
          (omega arith, omega arith),
          (
            (omega arith, omega arith),
            ((omega arith, omega arith), ((omega arith, omega arith), tt)),
          ),
        ),
      )
      (inl (omega arith)) (omega arith) reply
