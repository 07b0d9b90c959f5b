-- ===== src/Dhcp6/Wire.antt =====
-- The options of a message as a list, apart from its bytes, and what the scan of the bytes finds.
use cozyplane.Base.{
  ℕ, zero, suc, ◌+◌, ◌*◌, ◌/◌, ◌%◌, ◌≤◌, ◌<◌, ◌≡◌, ◌⊎◌, refl, sym, ap, ◌∙◌, Bool, false, ◌&&◌, ◌||◌,
  List, [], ◌∷◌, ◌++◌, Option, none, some, Bytes, inl, inr, Bool-cases, arith, All, if◌then◌else◌,
  leb, ◌==◌, length, length-append, take, drop, take-append, drop-append, get_or, append_assoc,
}
use cozyplane.Dhcp6.{Options, be16, note_option, scan_options}

pub record Opt : Type 0 where
  pub code : ℕ
  pub body : Bytes

-- The code and the length have sixteen bits.
abbrev pub Fits : Opt → Type 0
Fits x = (x.code < 65536) × (length x.body < 65536)

-- The bytes of an option, and of options: code and length in network order, then the body.
abbrev pub encode_option : Opt → Bytes
encode_option x = x.code / 256 ∷ x.code % 256 ∷ length x.body / 256 ∷ length x.body % 256 ∷ x.body

abbrev pub encode : List Opt → Bytes
encode [] = []
encode (x ∷ xs) = encode_option x ++ encode xs

-- The bytes are too few for an option's header, or for the body that their header announces.
abbrev pub IsCut : Bytes → Type 0
IsCut rest = (length rest < 4) ⊎ (length rest < 4 + (256 * get_or rest 2 0 + get_or rest 3 0))

-- The last of the answers that the options give.
abbrev pub or_else : Option Bytes → Option Bytes → Option Bytes
or_else none b = b
or_else (some a) b = some a

abbrev pub last_of : (Opt → Option Bytes) → List Opt → Option Bytes
last_of f [] = none
last_of f (x ∷ xs) = or_else (last_of f xs) (f x)

-- What an option says: a client identifier has code 1, an IA_NA with an identity has code 3 and starts
-- with the identity's four bytes, and the rapid commit has code 14.
abbrev pub client_id_of : Opt → Option Bytes
client_id_of x = if x.code == 1 then some x.body else none

abbrev pub iaid_of : Opt → Option Bytes
iaid_of x = if x.code == 3 && leb 4 (length x.body) then some (take 4 x.body) else none

abbrev pub is_rapid : List Opt → Bool
is_rapid [] = false
is_rapid (x ∷ xs) = x.code == 14 || is_rapid xs

-- What the options say on top of what was found before them.
abbrev pub gathered : List Opt → Options → Options
gathered xs o = record {
  client_id = or_else (last_of client_id_of xs) o.client_id;
  iaid = or_else (last_of iaid_of xs) o.iaid;
  rapid = is_rapid xs || o.rapid;
}

or_else_assoc : (a b c : Option Bytes) → or_else (or_else a b) c ≡ or_else a (or_else b c)
or_else_assoc none b c = refl
or_else_assoc (some a) b c = refl

or_swap : (a b c : Bool) → ((a || b) || c) ≡ (b || (a || c))
or_swap a b c = ground arith

noted : Opt → Options → Options
noted x o = record {
  client_id = or_else (client_id_of x) o.client_id;
  iaid = or_else (iaid_of x) o.iaid;
  rapid = x.code == 14 || o.rapid;
}

note_option-noted : (x : Opt) (o : Options) → note_option x.code x.body o ≡ noted x o
unfolding note_option noted
note_option-noted x o = elim (Bool-cases (x.code == 1)) [
  | inl e ↦ ground arith
  | inr e ↦ elim (Bool-cases (x.code == 3)) [
    | inl f ↦ elim (Bool-cases (leb 4 (length x.body))) [
      | inl g ↦ ground arith
      | inr g ↦ ground arith
    ]
    | inr f ↦ elim (Bool-cases (x.code == 14)) [ inl g ↦ ground arith | inr g ↦ ground arith ]
  ]
]

gathered-cons :
    (x : Opt) (xs : List Opt) (o : Options) → gathered xs (noted x o) ≡ gathered (x ∷ xs) o
unfolding noted
gathered-cons x xs o = λ i. record {
  client_id = sym (or_else_assoc (last_of client_id_of xs) (client_id_of x) o.client_id) i;
  iaid = sym (or_else_assoc (last_of iaid_of xs) (iaid_of x) o.iaid) i;
  rapid = sym (or_swap (x.code == 14) (is_rapid xs) o.rapid) i;
}

word : (n : ℕ) → n < 65536 → 256 * (n / 256) + n % 256 ≡ n
word n h = omega arith

be16-drop : (rest : Bytes) → be16 (drop 2 rest) ≡ 256 * get_or rest 2 0 + get_or rest 3 0
be16-drop [] = refl
be16-drop (a ∷ []) = refl
be16-drop (a ∷ b ∷ rest) = refl

drop_header : (n a b c d : ℕ) (rest : Bytes) → drop (4 + n) (a ∷ b ∷ c ∷ d ∷ rest) ≡ drop n rest
drop_header n a b c d rest = ap (λ k. drop k (a ∷ b ∷ c ∷ d ∷ rest)) (four n)
  where
    four : (n : ℕ) → 4 + n ≡ suc (suc (suc (suc n)))
    four n = omega arith

scan_options-cut :
    (fuel : ℕ) (rest : Bytes) (o : Options) → IsCut rest → scan_options fuel rest o ≡ o
unfolding scan_options
scan_options-cut zero rest o c = refl
scan_options-cut (suc fuel) rest o c = elim c [
  | inl short ↦ ground arith
  | inr short ↦ ground (arith, be16-drop rest)
]

-- One round.
scan_options-cons :
    (fuel : ℕ) (x : Opt) (more : Bytes) (o : Options)
    → Fits x
    → scan_options (suc fuel) (encode_option x ++ more) o
      ≡ scan_options fuel more (note_option x.code x.body o)
unfolding scan_options
scan_options-cons fuel x more o f =
    rw
      (
        word x.code f.0,
        word (length x.body) f.1,
        take-append x.body more,
        drop_header (length x.body) (x.code / 256) (x.code % 256) (length x.body / 256)
            (length x.body % 256) (x.body ++ more),
        drop-append x.body more,
      )
      (ground (arith, length-append x.body more))

-- The scan of encoded options finds what they say, whatever incomplete bytes come after them.
pub scan_options-encode :
    (fuel : ℕ) (xs : List Opt) (rest : Bytes) (o : Options)
    → All Fits xs
    → IsCut rest
    → length (encode xs ++ rest) ≤ fuel
    → scan_options fuel (encode xs ++ rest) o ≡ gathered xs o
scan_options-encode fuel [] rest o f c n = scan_options-cut fuel rest o c
scan_options-encode zero (x ∷ xs) rest o (f, fs) c n = absurd (omega arith)
scan_options-encode (suc fuel) (x ∷ xs) rest o (f, fs) c n =
    let more = encode xs ++ rest in
    let whole : length (encode (x ∷ xs) ++ rest) ≡ 4 + (length x.body + length more) =
      ap length (append_assoc (encode_option x) (encode xs) rest)
      ∙ omega (arith, length-append x.body more) in
    ap (λ t. scan_options (suc fuel) t o) (append_assoc (encode_option x) (encode xs) rest)
    ∙ (scan_options-cons fuel x more o f
        ∙ (ap (λ t. scan_options fuel more t) (note_option-noted x o)
            ∙ (scan_options-encode fuel xs rest (noted x o) fs c
                  (shorter (length more) (length (encode (x ∷ xs) ++ rest)) whole n)
                ∙ gathered-cons x xs o)))
  where
    shorter : (m l : ℕ) → l ≡ 4 + (length x.body + m) → l ≤ suc fuel → m ≤ fuel
    shorter m l e h = omega arith
