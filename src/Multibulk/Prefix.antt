-- ===== src/Multibulk/Prefix.antt =====
-- What is read does not depend on what follows it: the reverse of a read that fails on a file cut short.
use redisraft.Prelude.{
  ℕ, zero, suc, ◌-◌, ◌^◌, ◌≤◌, ◌≡◌, Bool, true, false, Option, none, some, [], ◌∷◌, ◌++◌, ◌>>=◌,
  ltb, if◌then◌else◌, length, take, arith, Bool-cases, Option-cases, inl, inr, c_string,
  length-append, take-append_of_le, drop-append_of_le,
}
use redisraft.Wire.{Bytes, dollar}
use redisraft.Multibulk.{
  starts_with_crlf, file_gets, file_read, read_len, read_str, read_signed, read_unsigned,
  parse_signed, parse_unsigned, is_crlf, as_length, behind_type, ended_by_crlf,
}

-- The reader succeeds in the same way when more bytes follow, and leaves them.
abbrev pub IsPrefixed : {A : Type 0} → (Bytes → Option (A × Bytes)) → Type 0
IsPrefixed {A} read =
    (s rest more : Bytes) (a : A)
    → read s ≡ some (a, rest)
    → read (s ++ more) ≡ some (a, rest ++ more)

pub some-IsPrefixed : {A : Type 0} (a : A) → IsPrefixed (λ s. some (a, s))
some-IsPrefixed a s rest more b h = cc

abbrev pub refuse : {A : Type 0} → Bytes → Option (A × Bytes)
refuse s = none

pub refuse-IsPrefixed : {A : Type 0} → IsPrefixed (refuse {A = A})
refuse-IsPrefixed s rest more b h = cc

pub pure-IsPrefixed :
    {A C : Type 0} (o : Option C) (next : C → Bytes → Option (A × Bytes))
    → ((c : C) → IsPrefixed (next c))
    → IsPrefixed (λ s. o >>= (λ c. next c s))
pure-IsPrefixed none next second s rest more a h = cc
pure-IsPrefixed (some c) next second s rest more a h = second c s rest more a h

pub if-IsPrefixed :
    {A : Type 0} (b : Bool) (f g : Bytes → Option (A × Bytes))
    → IsPrefixed f
    → IsPrefixed g
    → IsPrefixed (λ s. if b then f s else g s)
if-IsPrefixed true f g hf hg = hf
if-IsPrefixed false f g hf hg = hg

-- One reader after another.
pub then-IsPrefixed :
    {A B : Type 0} (read : Bytes → Option (A × Bytes)) (next : A → Bytes → Option (B × Bytes))
    → IsPrefixed read
    → ((a : A) → IsPrefixed (next a))
    → IsPrefixed (λ s. read s >>= (λ r. next r.0 r.1))
then-IsPrefixed read next first second s rest more b h = elim (Option-cases (read s)) [
  | inl e ↦ absurd (ground (arith, e, h))
  | inr (r, e) ↦
      let step : next r.0 r.1 ≡ some (b, rest) = (rw e at h) in
      rw (first s r.1 more r.0 e) (second r.0 r.1 rest more b step)
]

pub file_gets-IsPrefixed : (cap : ℕ) → IsPrefixed (file_gets cap)
unfolding file_gets
file_gets-IsPrefixed zero s rest more a h = cc
file_gets-IsPrefixed (suc cap) [] rest more a h = cc
file_gets-IsPrefixed (suc cap) (c ∷ s) rest more a h = elim (Option-cases (file_gets cap s)) [
  | inl e ↦ ground (arith, e, h)
  | inr (r, e) ↦ ground (arith, e, h, file_gets-IsPrefixed cap s r.1 more r.0)
]

pub file_read-IsPrefixed : (n : ℕ) → IsPrefixed (file_read n)
unfolding file_read
file_read-IsPrefixed n s rest more a h = elim (Bool-cases (ltb (length s) n)) [
  | inl short ↦ absurd (ground (arith, short, h))
  | inr enough ↦
      let more_left : ltb (length (s ++ more)) n ≡ false =
        ground (arith, enough, length-append s more) in
      let n_le : n ≤ length s = ground (arith, enough) in
      rw (more_left, take-append_of_le s more n n_le, drop-append_of_le s more n n_le)
        (ground (arith, enough, h))
]

pub read_len-IsPrefixed : (type : ℕ) → IsPrefixed (read_len type)
unfolding read_len
read_len-IsPrefixed type = then-IsPrefixed (file_gets 62) _ (file_gets-IsPrefixed 62) (λ line.
    pure-IsPrefixed (behind_type type line) _ (λ body.
      pure-IsPrefixed (parse_signed (2 ^ 31) body) _
        (λ r. pure-IsPrefixed (ended_by_crlf r) _ (λ v. some-IsPrefixed v))))

pub end-IsPrefixed :
    {A : Type 0} (two : Bytes) (next : Bytes → Option (A × Bytes))
    → IsPrefixed next
    → IsPrefixed (λ s. is_crlf (two, s) >>= next)
end-IsPrefixed two next second s rest more b h = elim (Bool-cases (starts_with_crlf two)) [
  | inl e ↦ rw e (second s rest more b (rw e at h))
  | inr e ↦ absurd (ground (arith, e, h))
]

pub read_str-IsPrefixed : (size : ℕ) → IsPrefixed (read_str size)
unfolding read_str
read_str-IsPrefixed size = then-IsPrefixed (read_len dollar) _ (read_len-IsPrefixed dollar) (λ v.
    pure-IsPrefixed (as_length v) _ (λ len.
      if-IsPrefixed (ltb size len) refuse _ refuse-IsPrefixed (
        then-IsPrefixed (file_read len) _ (file_read-IsPrefixed len) (λ str.
          then-IsPrefixed (file_read 2) _ (file_read-IsPrefixed 2)
            (λ two. end-IsPrefixed two _ (some-IsPrefixed (c_string (take (size - 1) str))))))))

pub read_signed-IsPrefixed : (limit : ℕ) → IsPrefixed (read_signed limit)
unfolding read_signed
read_signed-IsPrefixed limit =
    then-IsPrefixed (read_str 64) _ (read_str-IsPrefixed 64)
      (λ str. pure-IsPrefixed (parse_signed limit str) _ (λ r. some-IsPrefixed r.0))

pub read_unsigned-IsPrefixed : IsPrefixed read_unsigned
unfolding read_unsigned
read_unsigned-IsPrefixed =
    then-IsPrefixed (read_str 64) _ (read_str-IsPrefixed 64)
      (λ str. pure-IsPrefixed (parse_unsigned str) _ (λ n. some-IsPrefixed n))
