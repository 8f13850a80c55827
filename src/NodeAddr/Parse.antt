-- ===== src/NodeAddr/Parse.antt =====
-- What `NodeAddrParse` accepts.
use native.Mathlib.Nat.{pow-suc, le_trans}
use redisraft.Prelude.{
  if◌then◌else◌, sign_of, is_digit, ◌||◌, append-nil, sym, ℕ, zero, suc, ◌+◌, ◌-◌, ◌*◌, ◌/◌, ◌%◌,
  ◌^◌, ◌≤◌, ◌<◌, ◌≡◌, ◌≢◌, refl, ap, ◌∙◌, Bool, true, false, Option, none, some, [], ◌∷◌, ◌++◌,
  append_assoc, arith, length, take, Bool-cases, inl, inr, ltb, lt→ltb, c_string, skip_spaces,
  scan_digits, strtoul,
}
use redisraft.Wire.{Bytes, digits, print_lu}
use redisraft.Wire.Digits.{length-digits, length-digits_pos}
use redisraft.NodeAddr.{
  at_end, not, accept_port, leb, parse_split, NodeAddr, colon, split_last, node_addr_parse,
}

length-c_string : (s : Bytes) → length (c_string s) ≤ length s
unfolding c_string
length-c_string [] = omega arith
length-c_string (c ∷ s) = ground (arith, length-c_string s)

length-take_le : (k : ℕ) (s : Bytes) → length (take k s) ≤ k
length-take_le zero s = omega arith
length-take_le (suc k) [] = omega arith
length-take_le (suc k) (c ∷ s) = omega (arith, length-take_le k s)

chosen : (b : Bool) (x a : NodeAddr) → (if b then none else some x) ≡ some a → (b ≡ false) × (x ≡ a)
chosen true x a h = cc
chosen false x a h = (refl, cc)

port_range : (b : Bool) (l : ℕ) → (b || ltb l 1 || ltb 65535 l) ≡ false → 1 ≤ l
port_range b l h = ground arith

port_top : (b : Bool) (l : ℕ) → (b || ltb l 1 || ltb 65535 l) ≡ false → l ≤ 65535
port_top b l h = ground arith

accept_port_bounds :
    (before endptr : Bytes) (l : ℕ) (a : NodeAddr)
    → accept_port before l endptr ≡ some a
    → (1 ≤ a.port) × (a.port ≤ 65535) × (length a.host ≤ 255)
unfolding accept_port
accept_port_bounds before endptr l a h =
    let (good, same) = chosen (not (at_end endptr) || ltb l 1 || ltb 65535 l) _ a h in
    rw (← same) (
      port_range (not (at_end endptr)) l good,
      port_top (not (at_end endptr)) l good,
      le_trans (length-c_string (take 255 before)) (length-take_le 255 before),
    )

parse_split_bounds :
    (o : Option (Bytes × Bytes)) (a : NodeAddr)
    → parse_split o ≡ some a
    → (1 ≤ a.port) × (a.port ≤ 65535) × (length a.host ≤ 255)
parse_split_bounds none a h = cc
parse_split_bounds (some (before, after)) a h =
    elim (Bool-cases (leb 32 (length after) || ltb (length after) 1)) [
      | inl bad ↦ absurd (rejected bad)
      | inr good ↦
          accept_port_bounds before (strtoul (c_string after)).1 (strtoul (c_string after)).0 a
            (rw good at h)
    ]
  where
    rejected : (leb 32 (length after) || ltb (length after) 1) ≡ true → ⊥
    rejected bad = let h' : none ≡ some a = (rw bad at h) in cc

-- An accepted address has a port from 1 to 65535, and its host and the NUL fit the field of 256
-- bytes.
pub node_addr_parse_bounds :
    (s : Bytes) (a : NodeAddr)
    → node_addr_parse s ≡ some a
    → (1 ≤ a.port) × (a.port ≤ 65535) × (length a.host ≤ 255)
unfolding node_addr_parse
node_addr_parse_bounds s a h = parse_split_bounds (split_last s) a h

abbrev pub AllDigits : Bytes → Type 0
AllDigits [] = Unit
AllDigits (c ∷ s) = (48 ≤ c) × (c ≤ 57) × AllDigits s

AllDigits-append : (a b : Bytes) → AllDigits a → AllDigits b → AllDigits (a ++ b)
AllDigits-append [] b ha hb = hb
AllDigits-append (c ∷ a) b ha hb = (ha.0, ha.1, AllDigits-append a b ha.2 hb)

pub AllDigits-digits : (fuel n : ℕ) → AllDigits (digits fuel n)
unfolding digits
AllDigits-digits zero n = tt
AllDigits-digits (suc fuel) n = elim (Bool-cases (ltb n 10)) [
  | inl small ↦ rw small (omega arith, ground arith, tt)
  | inr large ↦ rw large (
      AllDigits-append (digits fuel (n / 10)) _ (AllDigits-digits fuel (n / 10))
        (omega arith, omega arith, tt))
]

c_string-AllDigits : (s : Bytes) → AllDigits s → c_string s ≡ s
unfolding c_string
c_string-AllDigits [] h = refl
c_string-AllDigits (c ∷ s) h = ground (arith, c_string-AllDigits s h.2)

split_last-AllDigits : (s : Bytes) → AllDigits s → split_last s ≡ none
unfolding split_last
split_last-AllDigits [] h = refl
split_last-AllDigits (c ∷ s) h = ground (arith, split_last-AllDigits s h.2)

split_last-append :
    (host s : Bytes) → split_last s ≡ none → split_last (host ++ colon ∷ s) ≡ some (host, s)
unfolding split_last
split_last-append [] s h = ground arith
split_last-append (c ∷ host) s h = ground (arith, split_last-append host s h)

scan_digits-digit :
    (d acc : ℕ) (rest : Bytes)
    → d < 10
    → scan_digits acc ((48 + d) ∷ rest) ≡ scan_digits (acc * 10 + d) rest
unfolding scan_digits
scan_digits-digit d acc rest h = let e : 48 + d - 48 ≡ d = omega arith in ground arith

pub scan_digits-digits :
    (fuel n : ℕ) (rest : Bytes)
    → n < 10 ^ suc fuel
    → scan_digits 0 (digits (suc fuel) n ++ rest) ≡ scan_digits n rest
unfolding digits
scan_digits-digits zero n rest h =
    rw (lt→ltb n 10 h) (scan_digits-digit n 0 rest h ∙ ap (λ t. scan_digits t rest) (omega arith))
scan_digits-digits (suc fuel) n rest h = elim (Bool-cases (ltb n 10)) [
  | inl small ↦
      rw small
        (scan_digits-digit n 0 rest (ground arith) ∙ ap (λ t. scan_digits t rest) (omega arith))
  | inr large ↦ rw large (
      rw append_assoc (
        scan_digits-digits fuel (n / 10) ((48 + n % 10) ∷ rest)
          (omega (arith, pow-suc 10 (suc fuel)))
        ∙ scan_digits-digit (n % 10) (n / 10) rest (omega arith)
        ∙ ap (λ t. scan_digits t rest) (omega arith)))
]

port_length :
    (port : ℕ)
    → port ≤ 65535
    → (leb 32 (length (print_lu port)) || ltb (length (print_lu port)) 1) ≡ false
port_length port h = ground (arith, length-digits 20 port 5, length-digits_pos 19 port)

pub no_spaces : (c : ℕ) (s : Bytes) → 48 ≤ c → skip_spaces (c ∷ s) ≡ c ∷ s
unfolding skip_spaces
no_spaces c s h = ground arith

pub no_sign : (c : ℕ) (s : Bytes) → 48 ≤ c → sign_of (c ∷ s) ≡ (false, c ∷ s)
no_sign c s h = ground arith

pub digit_first : (c : ℕ) → 48 ≤ c → c ≤ 57 → is_digit c ≡ true
digit_first c h k = ground arith

pub in_range : (v : ℕ) → v < 2 ^ 64 → leb (2 ^ 64) v ≡ false
in_range v h = ground arith

strtoul-digits :
    (s : Bytes) (v : ℕ)
    → AllDigits s
    → 0 < length s
    → scan_digits 0 s ≡ (v, [])
    → v < 2 ^ 64
    → strtoul s ≡ (v, [])
unfolding strtoul
strtoul-digits [] v h l e b = absurd (omega arith)
strtoul-digits (c ∷ s) v h l e b =
    rw (no_spaces c s h.0, no_sign c s h.0, digit_first c h.0 h.1, e, in_range v b)

scan_digits-print : (n : ℕ) → n < 10 ^ 20 → scan_digits 0 (print_lu n) ≡ (n, [])
unfolding scan_digits
scan_digits-print n h =
    ap (scan_digits 0) (sym (append-nil (print_lu n))) ∙ scan_digits-digits 19 n [] h

abbrev pub NoNul : Bytes → Type 0
NoNul [] = Unit
NoNul (c ∷ s) = (c ≢ 0) × NoNul s

pub c_string-NoNul : (s : Bytes) → NoNul s → c_string s ≡ s
unfolding c_string
c_string-NoNul [] h = refl
c_string-NoNul (c ∷ s) h = ground (arith, c_string-NoNul s h.1)

take-short : (k : ℕ) (s : Bytes) → length s ≤ k → take k s ≡ s
take-short zero [] h = refl
take-short zero (c ∷ s) h = absurd (omega arith)
take-short (suc k) [] h = refl
take-short (suc k) (c ∷ s) h = ap (λ r. c ∷ r) (take-short k s (omega arith))

-- A host of at most 255 bytes, none of them NUL (a colon may be among them), and a port from 1 to
-- 65535 in decimal are parsed to themselves.
pub node_addr_parse-print :
    (host : Bytes) (port : ℕ)
    → length host ≤ 255
    → NoNul host
    → 1 ≤ port
    → port ≤ 65535
    → node_addr_parse (host ++ colon ∷ print_lu port) ≡ some (record { host = host; port = port })
unfolding node_addr_parse accept_port
node_addr_parse-print host port short nul low high =
    let text = print_lu port in
    let plain = AllDigits-digits 20 port in
    rw
      (
        split_last-append host text (split_last-AllDigits text plain),
        port_length port high,
        c_string-AllDigits text plain,
        strtoul-digits text port plain (length-digits_pos 19 port)
            (scan_digits-print port (omega arith)) (omega arith),
        take-short 255 host short,
        c_string-NoNul host nul,
      )
      (ground arith)
