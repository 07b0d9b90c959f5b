-- ===== src/Dhcp6.antt =====
-- datapath/dhcpv6.go: the reply to one DHCPv6 message of a Pod.
pub mod Wire
pub mod Reply
pub mod Exact
pub mod Examples
use cozyplane.Base.{
  ℕ, zero, suc, ◌+◌, ◌*◌, ◌/◌, ◌%◌, Bool, true, false, ◌&&◌, ◌||◌, not, List, [], ◌∷◌, ◌++◌, Option,
  none, some, Bytes, ltb, leb, ◌==◌, length, take, drop, get_or, replicate, if◌then◌else◌,
}
use cozyplane.Base.Net.{to16}

-- What the loop over the options has found; nil is `none`.
pub record Options : Type 0 where
  pub client_id : Option Bytes
  pub iaid : Option Bytes
  pub rapid : Bool

abbrev pub no_options : Options
no_options = record { client_id = none; iaid = none; rapid = false }

-- A 16-bit number in network order.
abbrev pub be16 : Bytes → ℕ
be16 b = 256 * get_or b 0 0 + get_or b 1 0

abbrev pub put16 : ℕ → Bytes
put16 n = n / 256 % 256 ∷ n % 256 ∷ []

-- The switch on an option's code.
unfoldable pub note_option : ℕ → Bytes → Options → Options
note_option code body o =
    if code == 1
    then record o { client_id = some body }
    else if code == 3
    then if leb 4 (length body) then record o { iaid = some (take 4 body) } else o
    else if code == 14
    then record o { rapid = true }
    else o

-- The loop over the options, on fuel: each round takes four bytes or more.
unfoldable pub scan_options : ℕ → Bytes → Options → Options
scan_options zero opts o = o
scan_options (suc fuel) opts o =
    let olen = be16 (drop 2 opts) in
    let body = take olen (drop 4 opts) in
    let rest = scan_options fuel (drop (4 + olen) opts) (note_option (be16 opts) body o) in
    if ltb (length opts) 4 || ltb (length opts) (4 + olen) then o else rest

-- `appendOpt`.
unfoldable pub append_opt : Bytes → ℕ → Bytes → Bytes
append_opt b code body =
    if ltb 65535 (length body) then b else b ++ (put16 code ++ (put16 (length body) ++ body))

-- The type of the reply; none for a message that is ignored.
unfoldable pub reply_type : ℕ → Bool → Option ℕ
reply_type typ rapid =
    if typ == 1
    then some (if rapid then 7 else 2)
    else if typ == 3
    then some 7
    else if typ == 4
    then some 7
    else if typ == 5
    then some 7
    else if typ == 6
    then some 7
    else none

abbrev pub infinite : Bytes
infinite = replicate 4 255

-- The body of the IA_NA option: the identity, endless times, and the address with endless lifetimes.
unfoldable pub iana_body : Bytes → Bytes → Bytes
iana_body iaid pod_ip =
    append_opt (iaid ++ (infinite ++ infinite)) 5 (
      (if length (to16 pod_ip) == 0 then replicate 16 0 else to16 pod_ip) ++ (infinite ++ infinite))

-- The reply, for what the message holds.
unfoldable pub reply_with : ℕ → Bytes → Bytes → Bytes → Bool → Bytes → Bytes → Option Bytes → Bytes
reply_with rtype txid client_id iaid rapid mac pod_ip rdnss =
    let a = append_opt (rtype ∷ txid) 1 client_id in
    let b = append_opt a 2 (put16 3 ++ (put16 1 ++ mac)) in
    let c = if rapid && rtype == 7 then append_opt b 14 [] else b in
    let d = append_opt c 3 (iana_body iaid pod_ip) in
    elim rdnss [ none ↦ d | some ip ↦ append_opt d 23 (to16 ip) ]

-- `buildDHCP6Reply`, for a message of four bytes or more; nil is `none`.
unfoldable pub build_dhcp6_reply : Bytes → Bytes → Bytes → Option Bytes → Option Bytes
build_dhcp6_reply msg mac pod_ip rdnss =
    let o = scan_options (length msg) (drop 4 msg) no_options in
    elim o.client_id [
      | none ↦ none
      | some client_id ↦
          let iaid : Bytes = elim o.iaid [ none ↦ 0 ∷ 0 ∷ 0 ∷ 1 ∷ [] | some i ↦ i ] in
          elim (reply_type (get_or msg 0 0) o.rapid) [
            | none ↦ none
            | some rtype ↦
                some
                  (reply_with rtype (take 3 (drop 1 msg)) client_id iaid o.rapid mac pod_ip rdnss)
          ]
    ]
