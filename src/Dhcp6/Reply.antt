-- ===== src/Dhcp6/Reply.antt =====
-- The options of a reply as a list, and that the reply's bytes are theirs.
use cozyplane.Base.{
  ℕ, ◌/◌, ◌%◌, ◌≤◌, ◌<◌, ◌≡◌, refl, sym, ap, ◌∙◌, Bool, true, false, ◌&&◌, List, [], ◌∷◌, ◌++◌,
  Option, none, some, Bytes, inl, inr, append_assoc, append-nil, Option-cases, arith, All,
  if◌then◌else◌, ◌==◌, length, length-append, take, length-take, replicate,
}
use cozyplane.Base.Net.{to16}
use mathlib.Core.Path.{subst}
use cozyplane.Dhcp6.{append_opt, iana_body, reply_with}
use cozyplane.Dhcp6.Wire.{
  Opt, Fits, encode_option, encode, last_of, client_id_of, iaid_of, is_rapid,
}

abbrev opt : ℕ → Bytes → Opt
opt code body = record { code = code; body = body }

-- The sixteen bytes of the Pod's address, zeros if it has none.
abbrev pub pod_bytes : Bytes → Bytes
pod_bytes ip = if length (to16 ip) == 0 then replicate 16 0 else to16 ip

abbrev forever : Bytes
forever = 255 ∷ 255 ∷ 255 ∷ 255 ∷ 255 ∷ 255 ∷ 255 ∷ 255 ∷ []

abbrev pub default_iaid : Option Bytes → Bytes
default_iaid none = 0 ∷ 0 ∷ 0 ∷ 1 ∷ []
default_iaid (some iaid) = iaid

abbrev dns_option : Option Bytes → List Opt
dns_option none = []
dns_option (some ip) = opt 23 (to16 ip) ∷ []

abbrev rapid_option : Bool → List Opt
rapid_option true = opt 14 [] ∷ []
rapid_option false = []

-- The options of a reply to a client: its identifier; the server's, a link-layer DUID on the MAC
-- address; the rapid commit if the client asked for it; the IA_NA with the client's identity, or one of
-- its own, endless times, and the Pod's address with endless lifetimes; and the DNS server.
abbrev pub reply_options : Bytes → List Opt → Bytes → Bytes → Option Bytes → List Opt
reply_options client_id opts mac pod_ip rdnss =
    opt 1 client_id
    ∷ opt 2 (0 ∷ 3 ∷ 0 ∷ 1 ∷ mac)
    ∷ (rapid_option (is_rapid opts)
        ++ opt 3 (
            default_iaid (last_of iaid_of opts)
            ++ (forever ++ encode (opt 5 (pod_bytes pod_ip ++ forever) ∷ [])))
          ∷ dns_option rdnss)

append_opt-encode :
    (b : Bytes) (x : Opt) → Fits x → append_opt b x.code x.body ≡ b ++ encode_option x
unfolding append_opt
append_opt-encode b x (f, g) =
    let high : x.code / 256 % 256 ≡ x.code / 256 = omega arith in
    let long : length x.body / 256 % 256 ≡ length x.body / 256 = omega arith in
    rw (high, long) (ground arith)

append_all : Bytes → List Opt → Bytes
append_all b [] = b
append_all b (x ∷ xs) = append_all (append_opt b x.code x.body) xs

append_all-encode : (b : Bytes) (xs : List Opt) → All Fits xs → append_all b xs ≡ b ++ encode xs
unfolding append_all
append_all-encode b [] f = sym (append-nil b)
append_all-encode b (x ∷ xs) (f, fs) =
    append_all-encode (append_opt b x.code x.body) xs fs
    ∙ (ap (λ t. t ++ encode xs) (append_opt-encode b x f)
        ∙ append_assoc b (encode_option x) (encode xs))

to16-length : (ip : Bytes) → length (to16 ip) ≤ 16
unfolding to16
to16-length ip = ground arith

pub last_of-length :
    (f : Opt → Option Bytes) (n : ℕ)
    → ((x : Opt) (b : Bytes) → Fits x → f x ≡ some b → length b < n)
    → (xs : List Opt) (b : Bytes) → All Fits xs
    → last_of f xs ≡ some b
    → length b < n
last_of-length f n h [] b g e = absurd (ground arith)
last_of-length f n h (x ∷ xs) b (g, gs) e = elim (Option-cases (last_of f xs)) [
  | inl p ↦ h x b g (ground arith)
  | inr (c, p) ↦ last_of-length f n h xs b gs (ground arith)
]

pub client_id_of-length :
    (x : Opt) (b : Bytes) → Fits x → client_id_of x ≡ some b → length b < 65536
client_id_of-length x b (f, g) h = subst (λ t. length t < 65536) (some_inj (ground arith)) g
  where
    some_inj : some x.body ≡ some b → x.body ≡ b
    some_inj e = cc

iaid_of-length : (x : Opt) (b : Bytes) → Fits x → iaid_of x ≡ some b → length b < 5
iaid_of-length x b f h =
    subst (λ t. length t < 5) (some_inj (ground arith)) (omega (arith, length-take 4 x.body))
  where
    some_inj : some (take 4 x.body) ≡ some b → take 4 x.body ≡ b
    some_inj e = cc

default_iaid-length :
    (o : Option Bytes) → ((b : Bytes) → o ≡ some b → length b < 5) → length (default_iaid o) < 5
default_iaid-length none h = omega arith
default_iaid-length (some b) h = h b refl

pod_bytes-length : (ip : Bytes) → length (pod_bytes ip) ≤ 16
pod_bytes-length ip = ground (arith, to16-length ip)

dns_option-Fits : (o : Option Bytes) → All Fits (dns_option o)
dns_option-Fits none = tt
dns_option-Fits (some ip) = ((omega arith, omega (arith, to16-length ip)), tt)

rapid_option-Fits : (b : Bool) (xs : List Opt) → All Fits xs → All Fits (rapid_option b ++ xs)
rapid_option-Fits true xs h = ((omega arith, omega arith), h)
rapid_option-Fits false xs h = h

address_option : Bytes → Opt
address_option pod_ip = opt 5 (pod_bytes pod_ip ++ forever)

address_option-Fits : (pod_ip : Bytes) → Fits (address_option pod_ip)
unfolding address_option
address_option-Fits pod_ip =
    (omega arith, omega (arith, length-append (pod_bytes pod_ip) forever, pod_bytes-length pod_ip))

-- The body of the IA_NA option.
abbrev iana : Bytes → Bytes → Bytes
iana iaid pod_ip = iaid ++ (forever ++ encode (opt 5 (pod_bytes pod_ip ++ forever) ∷ []))

iana-Fits : (iaid pod_ip : Bytes) → length iaid < 5 → Fits (opt 3 (iana iaid pod_ip))
iana-Fits iaid pod_ip h = (
  omega arith,
  omega (
    arith,
    length-append iaid (forever ++ encode (opt 5 (pod_bytes pod_ip ++ forever) ∷ [])),
    length-append (pod_bytes pod_ip ++ forever) [],
    length-append (pod_bytes pod_ip) forever,
    pod_bytes-length pod_ip,
  ),
)

iana_body-iana : (iaid pod_ip : Bytes) → iana_body iaid pod_ip ≡ iana iaid pod_ip
unfolding iana_body
iana_body-iana iaid pod_ip =
    append_opt-encode (iaid ++ forever) (opt 5 (pod_bytes pod_ip ++ forever))
      (unfold address_option in address_option-Fits pod_ip)
    ∙ (append_assoc iaid forever (encode_option (opt 5 (pod_bytes pod_ip ++ forever)))
        ∙ ap (λ t. iaid ++ (forever ++ t))
            (sym (append-nil (encode_option (opt 5 (pod_bytes pod_ip ++ forever))))))

reply_options-Fits :
    (client_id : Bytes) (opts : List Opt) (mac pod_ip : Bytes) (rdnss : Option Bytes)
    → All Fits opts
    → length client_id < 65536
    → length mac < 65532
    → All Fits (reply_options client_id opts mac pod_ip rdnss)
reply_options-Fits client_id opts mac pod_ip rdnss f c m = (
  (omega arith, c),
  (
    (omega arith, omega arith),
    rapid_option-Fits (is_rapid opts) _ (
      iana-Fits (default_iaid (last_of iaid_of opts)) pod_ip
          (default_iaid-length _ (λ b e. last_of-length iaid_of 5 iaid_of-length opts b f e)),
      dns_option-Fits rdnss,
    ),
  ),
)

-- The bytes of the reply.
abbrev pub reply_bytes : ℕ → Bytes → Bytes → List Opt → Bytes → Bytes → Option Bytes → Bytes
reply_bytes rtype txid client_id opts mac pod_ip rdnss =
    rtype ∷ txid ++ encode (reply_options client_id opts mac pod_ip rdnss)

pub reply_with-bytes :
    (rtype : ℕ) (txid client_id : Bytes) (opts : List Opt) (mac pod_ip : Bytes)
    (rdnss : Option Bytes)
    → All Fits opts
    → length client_id < 65536
    → length mac < 65532
    → (is_rapid opts && rtype == 7) ≡ is_rapid opts
    → reply_with rtype txid client_id
        (default_iaid (last_of iaid_of opts))
        (is_rapid opts)
        mac
        pod_ip
        rdnss
      ≡ reply_bytes rtype txid client_id opts mac pod_ip rdnss
unfolding reply_with append_all
reply_with-bytes rtype txid client_id opts mac pod_ip rdnss f c m r =
    folded (last_of iaid_of opts) (is_rapid opts) rdnss r
    ∙ append_all-encode (rtype ∷ txid) (reply_options client_id opts mac pod_ip rdnss)
        (reply_options-Fits client_id opts mac pod_ip rdnss f c m)
  where
    folded :
        (iaid : Option Bytes) (rapid : Bool) (rdnss : Option Bytes)
        → (rapid && rtype == 7) ≡ rapid
        → reply_with rtype txid client_id (default_iaid iaid) rapid mac pod_ip rdnss
          ≡ append_all (rtype ∷ txid) (
              opt 1 client_id
              ∷ opt 2 (0 ∷ 3 ∷ 0 ∷ 1 ∷ mac)
              ∷ (rapid_option rapid ++ opt 3 (iana (default_iaid iaid) pod_ip) ∷ dns_option rdnss))
    folded iaid true none e = rw (e, iana_body-iana) refl
    folded iaid true (some ip) e = rw (e, iana_body-iana) refl
    folded iaid false none e = rw iana_body-iana refl
    folded iaid false (some ip) e = rw iana_body-iana refl
