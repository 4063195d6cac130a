-- ===== src/WaBinary/Strings.antt =====
-- Reading back the strings and byte blocks that the encoder wrote.
use ngen_orca.WaBinary.Encoder.{write_raw, write_byte_length, Error, write_string}
use ngen_orca.WaBinary.Utf8.{lead, utf8_from, is_utf8}
use ngen_orca.Base.{
  Bytes, ◌≡◌, ℕ, length, some, ◌≤◌, ◌<◌, ◌++◌, ◌∷◌, arith, ◌^◌, ok, Bool-cases, true, le→leb,
  length-append, take-length-append, drop-length-append, inl, suc, inr, Option-cases, [], zero,
  refl, ltb, ◌%◌, tests, Result, get_elem?, ap, append_assoc,
}
use ngen_orca.WaBinary.Decoder.{
  read_bytes, read_string_from, Parser, utf8_string, ◌>>=◌, read_u8, read_string,
}
use ngen_orca.WaBinary.Tokens.{single_byte_tokens}
use ngen_orca.WaBinary.TokenLaws.{token_index_lem}
use ngen_orca.WaBinary.Written.{
  Written, write_string-Written, Written-pos, as_token, as_raw, as_jid,
}

lead_low : (b n lo hi : ℕ) → lead b ≡ some (n, lo, hi) → 0x80 ≤ lo
unfolding lead
lead_low b n lo hi e = ground arith

-- A well-formed text cut before an ASCII sign is well-formed.
utf8_from-before :
    (n lo hi : ℕ) (xs ys : Bytes)
    → 0x80 ≤ lo
    → utf8_from n lo hi (xs ++ b'@' ∷ ys) ≡ true
    → utf8_from n lo hi xs ≡ true
unfolding utf8_from
utf8_from-before zero lo hi [] ys low h = refl
utf8_from-before (suc n) lo hi [] ys low h = absurd (ground arith)
utf8_from-before zero lo hi (b ∷ xs) ys low h = elim (Option-cases (lead b)) [
  | inl bad ↦ absurd (ground arith)
  | inr ((n, lo', hi'), first) ↦
      ground (arith, utf8_from-before n lo' hi' xs ys (lead_low b n lo' hi' first))
]
utf8_from-before (suc n) lo hi (b ∷ xs) ys low h =
    ground (arith, utf8_from-before n 0x80 0xBF xs ys (omega arith))

abbrev FitsWord : Bytes → Type 0
FitsWord s = length s < 2 ^ 32

read_bytes-append : (s rest : Bytes) → read_bytes (length s) (s ++ rest) ≡ ok (s, rest)
unfolding read_bytes
read_bytes-append s rest = rw (
  le→leb (length s) (length (s ++ rest)) (omega (arith, length-append s rest)),
  take-length-append s rest,
  drop-length-append s rest,
)

pub >>=-ok :
    {A B : Type 0} (p : Parser A) (f : A → Parser B) (c : Bytes) {a : A} {c' : Bytes}
    {r : Result Error (B × Bytes)}
    → p c ≡ ok (a, c')
    → f a c' ≡ r
    → (p >>= f) c ≡ r
>>=-ok p f c e h = rw (e, ◌>>=◌) h

pub read_block : (n : ℕ) (s rest : Bytes) → n ≡ length s → read_bytes n (s ++ rest) ≡ ok (s, rest)
read_block n s rest e = rw e (read_bytes-append s rest)

read_text :
    (n : ℕ) (s rest : Bytes)
    → n ≡ length s
    → is_utf8 s ≡ true
    → (read_bytes n >>= utf8_string) (s ++ rest) ≡ ok (s, rest)
unfolding utf8_string
read_text n s rest e good =
    >>=-ok (read_bytes n) utf8_string (s ++ rest) (read_block n s rest e) (rw good)

read_string-write_raw :
    (g : ℕ) (s rest : Bytes)
    → is_utf8 s ≡ true
    → FitsWord s
    → read_string_from (suc g) (write_raw s ++ rest) ≡ ok (s, rest)
unfolding read_string_from write_raw
read_string-write_raw g s rest good fits = elim (Bool-cases (ltb (length s) 256)) [
  | inl short ↦
      rw (short, write_byte_length) (read_text (length s % 2 ^ 8) s rest (omega tests) good)
  | inr more ↦ elim (Bool-cases (ltb (length s) (2 ^ 20))) [
    | inl medium ↦ rw (more, medium, write_byte_length) (read_text _ s rest (omega tests) good)
    | inr long ↦ rw (more, long, write_byte_length) (read_text _ s rest (omega tests) good)
  ]
]

read_token :
    (g t : ℕ) (s rest : Bytes)
    → get_elem? single_byte_tokens t ≡ some s
    → 1 ≤ t
    → t ≤ 165
    → read_string_from (suc g) (t ∷ rest) ≡ ok (s, rest)
unfolding read_string_from read_u8
read_token g t s rest found lo hi = ground arith

read_jid :
    (g t : ℕ) (user server bs rest : Bytes)
    → read_string_from g (bs ++ t ∷ rest) ≡ ok (user, t ∷ rest)
    → get_elem? single_byte_tokens t ≡ some server
    → read_string_from (suc g) (0xFC ∷ (bs ++ t ∷ rest)) ≡ ok (user ++ b'@' ∷ server, rest)
unfolding read_string_from read_u8
read_jid g t user server bs rest e found = rw (e, ◌>>=◌, found) refl

is_utf8-before : (xs ys s : Bytes) → xs ++ b'@' ∷ ys ≡ s → is_utf8 s ≡ true → is_utf8 xs ≡ true
unfolding is_utf8
is_utf8-before xs ys s e good = utf8_from-before 0 0x80 0xBF xs ys (omega arith) (rw e good)

-- A string that was written in any form is read back, whatever follows it.
Written-read :
    (g : ℕ) {s bs : Bytes} (rest : Bytes)
    → Written s bs
    → is_utf8 s ≡ true
    → FitsWord s
    → length bs ≤ g
    → read_string_from g (bs ++ rest) ≡ ok (s, rest)
Written-read zero rest w good fits h = absurd (omega (arith, Written-pos w))
Written-read (suc g) {s} rest (as_token t known e) good fits h =
    let (found, lo, hi, _) = token_index_lem s t known in rw e (read_token g t s rest found lo hi)
Written-read (suc g) {s} rest (as_raw e) good fits h =
    rw e (read_string-write_raw g s rest good fits)
Written-read (suc g) {s} rest (as_jid user server u t split known w e) good fits h =
    let (found, _, _, _) = token_index_lem server t known in
    let more : length u ≤ g = omega (arith, ap length e, length-append u (t ∷ [])) in
    let small : FitsWord user =
      omega (arith, ap length split, length-append user (b'@' ∷ server)) in
    rw (e, append_assoc u (t ∷ []) rest, ← split)
      (read_jid g t user server u rest
        (Written-read g (t ∷ rest) w (is_utf8-before user server s split good) small more) found)

pub read_string-write_string :
    (s bs rest : Bytes)
    → write_string s ≡ ok bs
    → is_utf8 s ≡ true
    → FitsWord s
    → read_string (bs ++ rest) ≡ ok (s, rest)
unfolding read_string
read_string-write_string s bs rest e good fits =
    Written-read (suc (length (bs ++ rest))) rest (write_string-Written s bs e) good fits
      (omega (arith, length-append bs rest))
