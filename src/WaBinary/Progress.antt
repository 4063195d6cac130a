-- ===== src/WaBinary/Progress.antt =====
-- What each parser of binary.rs consumes.
use ngen_orca.Base.{
  ℕ, Bytes, Result, ◌+◌, ◌∷◌, Bool-cases, length, arith, leb, ◌≤◌, inl, ok, ◌≡◌, length-drop, inr,
  ◌≢◌, err, [], refl, ◌==◌, ◌<◌, suc, insert, zero, text_key,
}
use ngen_orca.WaBinary.Decoder.{
  ◌>>=◌, read_u8, read_bytes, utf8_string, Parser, read_len20, read_len32, list_size_at,
  read_list_size, read_string_at, read_string_from, read_string, read_attrs, StringTag, token,
  string_tag, binary8, binary20, binary32, jid_pair, empty, unknown,
}
use ngen_orca.WaBinary.Encoder.{Error, out_of_fuel}
use ngen_orca.WaBinary.Utf8.{is_utf8}
use ngen_orca.WaBinary.Node.{Attrs}

-- A parser left at most `length c - k` bytes of `c`, or failed with an error of the program.
pub data Progress {A : Type 0} (k : ℕ) (c : Bytes) : Result Error (A × Bytes) → Type 0 where
  left : {a : A} {c' : Bytes} → k + length c' ≤ length c → Progress k c (ok (a, c'))
  refused : {e : Error} → e ≢ out_of_fuel → Progress k c (err e)

bind-step :
    {A B : Type 0} (k : ℕ) (c : Bytes) (r : Result Error (A × Bytes)) (f : A → Parser B)
    → Progress k c r
    → ((a : A) (c' : Bytes) → k + length c' ≤ length c → Progress 0 c' (f a c'))
    → (p : Parser A) → p c ≡ r
    → Progress k c ((p >>= f) c)
bind-step k c (ok (a, c')) f (left le) next p e = rw (e, ◌>>=◌) (weaken (next a c' le))
  where
    weaken : {B : Type 0} {r : Result Error (B × Bytes)} → Progress 0 c' r → Progress k c r
    weaken (left le') = left (omega arith)
    weaken (refused ne) = refused ne
bind-step k c (err e') f (refused ne) next p e = rw (e, ◌>>=◌) (refused ne)

pub Progress-bind :
    {A B : Type 0} {k : ℕ} (p : Parser A) (f : A → Parser B) (c : Bytes)
    → Progress k c (p c)
    → ((a : A) (c' : Bytes) → k + length c' ≤ length c → Progress 0 c' (f a c'))
    → Progress k c ((p >>= f) c)
Progress-bind {k} p f c h next = bind-step k c (p c) f h next p refl

pub Progress-weaken :
    {A : Type 0} {k : ℕ} {c : Bytes} {r : Result Error (A × Bytes)}
    → Progress k c r
    → Progress 0 c r
Progress-weaken (left le) = left (omega arith)
Progress-weaken (refused ne) = refused ne

pub read_u8-Progress : (c : Bytes) → Progress 1 c (read_u8 c)
unfolding read_u8
read_u8-Progress [] = refused (λ e. cc)
read_u8-Progress (b ∷ c) = left (omega arith)

pub read_bytes-Progress : (n : ℕ) (c : Bytes) → Progress 0 c (read_bytes n c)
unfolding read_bytes
read_bytes-Progress n c = elim (Bool-cases (leb n (length c))) [
  | inl enough ↦ rw enough (left (omega (arith, length-drop n c)))
  | inr short ↦ rw short (refused (λ e. cc))
]

utf8_string-Progress : (s c : Bytes) → Progress 0 c (utf8_string s c)
unfolding utf8_string
utf8_string-Progress s c = elim (Bool-cases (is_utf8 s)) [
  | inl good ↦ rw good (left (omega arith))
  | inr bad ↦ rw bad (refused (λ e. cc))
]

pub len20-Progress : (c : Bytes) → Progress 0 c (read_len20 c)
unfolding read_len20
len20-Progress c = Progress-weaken (
    Progress-bind read_u8 _ c (read_u8-Progress c) λ b0 c0 _.
      Progress-bind read_u8 _ c0 (Progress-weaken (read_u8-Progress c0)) λ b1 c1 _.
        Progress-bind read_u8 _ c1 (Progress-weaken (read_u8-Progress c1))
          λ b2 c2 _. left (omega arith))

pub len32-Progress : (c : Bytes) → Progress 0 c (read_len32 c)
unfolding read_len32
len32-Progress c = Progress-weaken (
    Progress-bind read_u8 _ c (read_u8-Progress c) λ b0 c0 _.
      Progress-bind read_u8 _ c0 (Progress-weaken (read_u8-Progress c0)) λ b1 c1 _.
        Progress-bind read_u8 _ c1 (Progress-weaken (read_u8-Progress c1)) λ b2 c2 _.
          Progress-bind read_u8 _ c2 (Progress-weaken (read_u8-Progress c2))
            λ b3 c3 _. left (omega arith))

list_size_at-Progress : (t : ℕ) (c : Bytes) → Progress 0 c (list_size_at t c)
unfolding list_size_at
list_size_at-Progress t c = elim (Bool-cases (t == 0)) [
  | inl a ↦ rw a (left (omega arith))
  | inr a ↦ elim (Bool-cases (t == 0xF8)) [
    | inl b ↦ rw (a, b) (Progress-weaken (read_u8-Progress c))
    | inr b ↦ elim (Bool-cases (t == 0xF9)) [
      | inl d ↦
          rw (a, b, d)
            (Progress-weaken (
              Progress-bind read_u8 _ c (read_u8-Progress c) λ hi c1 _.
                Progress-bind read_u8 _ c1 (Progress-weaken (read_u8-Progress c1))
                  λ lo c2 _. left (omega arith)))
      | inr d ↦ rw (a, b, d) (refused (λ e. cc))
    ]
  ]
]

pub read_list_size-Progress : (c : Bytes) → Progress 1 c (read_list_size c)
unfolding read_list_size
read_list_size-Progress c =
    Progress-bind read_u8 _ c (read_u8-Progress c) λ t c' _. list_size_at-Progress t c'

block-Progress :
    (len : Parser ℕ) (c : Bytes)
    → Progress 0 c (len c)
    → Progress 0 c ((len >>= λ n. read_bytes n >>= utf8_string) c)
block-Progress len c h = Progress-bind len _ c h λ n c1 _.
    Progress-bind (read_bytes n) _ c1 (read_bytes-Progress n c1) λ s c2 _. utf8_string-Progress s c2

string_at-Progress :
    (read_user : Parser Bytes) (t : ℕ) (x : StringTag) (c : Bytes)
    → Progress 1 c (read_user c)
    → Progress 0 c (read_string_at read_user t x c)
unfolding read_string_at
string_at-Progress read_user t token c h = left (omega arith)
string_at-Progress read_user t binary8 c h =
    block-Progress read_u8 c (Progress-weaken (read_u8-Progress c))
string_at-Progress read_user t binary20 c h = block-Progress read_len20 c (len20-Progress c)
string_at-Progress read_user t binary32 c h = block-Progress read_len32 c (len32-Progress c)
string_at-Progress read_user t jid_pair c h =
    Progress-bind read_user _ c (Progress-weaken h) λ user c1 _.
      Progress-bind read_u8 _ c1 (Progress-weaken (read_u8-Progress c1))
        λ server c2 _. left (omega arith)
string_at-Progress read_user t empty c h = left (omega arith)
string_at-Progress read_user t unknown c h = refused (λ e. cc)

read_string_from-Progress : (f : ℕ) (c : Bytes) → length c < f → Progress 1 c (read_string_from f c)
unfolding read_string_from
read_string_from-Progress zero c h = elim h [ ]
read_string_from-Progress (suc f) c h = Progress-bind read_u8 _ c (read_u8-Progress c) λ t c' le.
    string_at-Progress (read_string_from f) t (string_tag t) c'
      (read_string_from-Progress f c' (omega arith))

pub read_string-Progress : (c : Bytes) → Progress 1 c (read_string c)
unfolding read_string
read_string-Progress c = read_string_from-Progress (suc (length c)) c (omega arith)

pub read_attrs-Progress : (n : ℕ) (kvs : Attrs) (c : Bytes) → Progress 0 c (read_attrs n kvs c)
unfolding read_attrs
read_attrs-Progress zero kvs c = left (omega arith)
read_attrs-Progress (suc n) kvs c =
    Progress-bind read_string _ c (Progress-weaken (read_string-Progress c)) λ k c1 _.
      Progress-bind read_string _ c1 (Progress-weaken (read_string-Progress c1))
        λ v c2 _. read_attrs-Progress n (insert k v kvs) c2
