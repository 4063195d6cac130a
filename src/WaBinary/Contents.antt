-- ===== src/WaBinary/Contents.antt =====
-- Reading back attributes, byte blocks and list sizes.
use ngen_orca.WaBinary.Decoder.{
  read_list_size, read_attrs, Parser, read_content, read_bytes, read_string, read_content_at, other,
  content_tag, ContentTag, read_children, children,
}
use ngen_orca.Base.{
  Bytes, ℕ, ◌<◌, lookup, ◌≡◌, ◌^◌, none, ok, insert, length, ◌++◌, Bool-cases, ◌∷◌, [], ◌==◌, arith,
  >>=-parts, ltb, inl, text_key, inr, refl, map-parts, ◌%◌, tests, ◌/◌, ◌*◌, ◌+◌, append-nil,
  append_assoc, ◌≢◌, Option-cases, ◌≤◌, ap,
}
use ngen_orca.WaBinary.Node.{Attrs, WaNode, binary, text, no_content, WaNodes, list}
use ngen_orca.WaBinary.Encoder.{
  write_attrs, write_raw, write_list_start, write_string, write_byte_length, jid_parts,
}
use ngen_orca.WaBinary.Fits.{FitsAttrs, Distinct, wire_text, FitsText}
use ngen_orca.WaBinary.Strings.{>>=-ok, read_block, read_string-write_string}
use ngen_orca.WaBinary.Tokens.{token_index}
use ngen_orca.WaBinary.TokenLaws.{token_index_lem}
use ngen_orca.WaBinary.Written.{write_string_token, write_string_raw, write_string_jid, jid-ne-nil}

pub read_list_size-write_list_start :
    (n : ℕ) (c : Bytes) → n < 2 ^ 16 → read_list_size (write_list_start n ++ c) ≡ ok (n, c)
unfolding read_list_size write_list_start
read_list_size-write_list_start n c h = elim (Bool-cases (n == 0)) [
  | inl none_left ↦ rw (none_left, write_list_start) (ground arith)
  | inr some_left ↦ elim (Bool-cases (ltb n 256)) [
    | inl small ↦
        let e : n % 2 ^ 8 ≡ n = omega tests in rw (some_left, small, write_list_start, e) refl
    | inr big ↦
        let e : n / 2 ^ 8 % 2 ^ 8 * 2 ^ 8 + n % 2 ^ 8 ≡ n = omega tests in
        rw (some_left, big, write_list_start, e) refl
  ]
]

insert-new : (k v : Bytes) (m : Attrs) → lookup k m ≡ none → insert k v m ≡ m ++ (k, v) ∷ []
insert-new k v [] h = refl
insert-new k v ((j, w) ∷ m) h = ground (arith, insert-new k v m)

pub read_attrs-write_attrs :
    (seen kvs : Attrs) (bs rest : Bytes)
    → write_attrs kvs ≡ ok bs
    → FitsAttrs kvs
    → Distinct seen kvs
    → read_attrs (length kvs) seen (bs ++ rest) ≡ ok (seen ++ kvs, rest)
unfolding read_attrs write_attrs
read_attrs-write_attrs seen [] bs rest e h d =
    let e' : [] ≡ bs = cc in rw (← e', append-nil seen) refl
read_attrs-write_attrs seen ((k, v) ∷ kvs) bs rest e ((hk, hv), h) (new, d) =
    let (key, ek, e1) = >>=-parts (write_string k) _ e in
    let (value, ev, e2) = >>=-parts (write_string v) _ e1 in
    let (more, em, e3) = map-parts (write_attrs kvs) _ e2 in
    rw (← e3, append_assoc key (value ++ more) rest, append_assoc value more rest)
      (>>=-ok read_string _ (key ++ (value ++ (more ++ rest)))
        (read_string-write_string k key (value ++ (more ++ rest)) ek hk.well_formed hk.short)
        (>>=-ok read_string _ (value ++ (more ++ rest))
          (read_string-write_string v value (more ++ rest) ev hv.well_formed hv.short)
          (rw (insert-new k v seen new, ← append_assoc seen ((k, v) ∷ []) kvs)
            (read_attrs-write_attrs (seen ++ (k, v) ∷ []) kvs more rest em h d))))

content_tag-token : (t : ℕ) → 1 ≤ t → t ≤ 165 → content_tag t ≡ other
unfolding content_tag
content_tag-token t lo hi = ground arith

content_tag-jid : content_tag 0xFC ≡ other
unfolding content_tag
content_tag-jid = refl

module _ (decode_child : Parser WaNode) where
  pub read_content-write_raw :
      (s rest : Bytes)
      → length s < 2 ^ 32
      → read_content decode_child (write_raw s ++ rest) ≡ ok (binary s, rest)
  unfolding read_content write_raw
  read_content-write_raw s rest h = elim (Bool-cases (ltb (length s) 256)) [
    | inl short ↦
        rw (short, write_byte_length)
          (>>=-ok (read_bytes (length s % 2 ^ 8)) _ (s ++ rest) (read_block _ s rest (omega tests))
            refl)
    | inr more ↦ elim (Bool-cases (ltb (length s) (2 ^ 20))) [
      | inl medium ↦
          rw (more, medium, write_byte_length)
            (>>=-ok (read_bytes _) _ (s ++ rest) (read_block _ s rest (omega tests)) refl)
      | inr long ↦
          rw (more, long, write_byte_length)
            (>>=-ok (read_bytes _) _ (s ++ rest) (read_block _ s rest (omega tests)) refl)
    ]
  ]

  read_content_at-other :
      (s bs rest : Bytes)
      → read_string (bs ++ rest) ≡ ok (s, rest)
      → s ≢ []
      → read_content_at decode_child other (bs ++ rest) ≡ ok (text s, rest)
  unfolding read_content_at
  read_content_at-other [] bs rest e full = absurd (full refl)
  read_content_at-other (b ∷ s) bs rest e full = >>=-ok read_string _ (bs ++ rest) e refl

  pub read_content-tag :
      (x : ContentTag) (b : ℕ) (c : Bytes)
      → content_tag b ≡ x
      → read_content decode_child (b ∷ c) ≡ read_content_at decode_child x (b ∷ c)
  unfolding read_content
  read_content-tag x b c e = ap (λ (y : ContentTag). read_content_at decode_child y (b ∷ c)) e

  read_content-other :
      (s bs rest : Bytes) (b : ℕ) (r : Bytes)
      → bs ≡ b ∷ r
      → content_tag b ≡ other
      → read_string (bs ++ rest) ≡ ok (s, rest)
      → s ≢ []
      → read_content decode_child (bs ++ rest) ≡ ok (text s, rest)
  read_content-other s bs rest b r first tag e full =
      rw (first, read_content-tag other b (r ++ rest) tag)
        (read_content_at-other s (b ∷ r) rest (rw first at e) full)

  pub read_content-write_string :
      (s bs rest : Bytes)
      → write_string s ≡ ok bs
      → FitsText s
      → read_content decode_child (bs ++ rest) ≡ ok (wire_text s, rest)
  unfolding wire_text
  read_content-write_string s bs rest e h = elim (Option-cases (token_index s)) [
    | inr (t, known) ↦
        let (_, lo, hi, full) = token_index_lem s t known in
        rw (known, wire_text)
          (read_content-other s bs rest t [] (write_string_token s bs e t known)
            (content_tag-token t lo hi) (read_string-write_string s bs rest e h.well_formed h.short)
            full)
    | inl free ↦ elim (Option-cases (jid_parts s)) [
      | inl raw ↦
          rw (free, raw, wire_text, write_string_raw s bs e free raw)
            (read_content-write_raw s rest h.short)
      | inr ((user, t), jid) ↦
          let (r, first) = write_string_jid s bs e user t free jid in
          rw (free, jid, wire_text)
            (read_content-other s bs rest 0xFC r first content_tag-jid
              (read_string-write_string s bs rest e h.well_formed h.short)
              (jid-ne-nil s user t jid))
    ]
  ]

  pub read_content-nothing :
      (rest : Bytes)
      → read_content decode_child (write_list_start 0 ++ rest) ≡ ok (no_content, rest)
  unfolding read_content write_list_start
  read_content-nothing rest = refl

  pub read_content_at-children :
      (n b : ℕ) (r bs rest : Bytes) {vs : WaNodes}
      → write_list_start n ++ (bs ++ rest) ≡ b ∷ r
      → n < 2 ^ 16
      → read_children decode_child n (bs ++ rest) ≡ ok (vs, rest)
      → read_content_at decode_child children (b ∷ r) ≡ ok (list vs, rest)
  unfolding read_content_at
  read_content_at-children n b r bs rest first small es = rw (← first) (
      >>=-ok read_list_size _ (write_list_start n ++ (bs ++ rest))
        (read_list_size-write_list_start n (bs ++ rest) small)
        (>>=-ok (read_children decode_child n) _ (bs ++ rest) es refl))
