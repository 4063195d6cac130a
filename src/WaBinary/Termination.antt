-- ===== src/WaBinary/Termination.antt =====
-- The fuel of the decoder of binary.rs.
use ngen_orca.Base.{
  ℕ, Bytes, Result, ◌+◌, ◌∷◌, length, arith, ◌≢◌, err, [], Bool, ◌==◌, ◌<◌, suc, if◌then◌else◌, ◌*◌,
  zero, true, ◌^◌, text_key, ◌-◌, false, ltb, ◌/◌, ◌%◌, take,
}
use ngen_orca.WaBinary.Decoder.{
  ◌>>=◌, read_u8, read_bytes, Parser, read_len20, read_len32, read_list_size, read_string,
  read_attrs, decode_node_from, decode_node, value_of, decode, decode_raw, read_children, pure,
  read_content_at, read_content, node_body, failed, decode_node_with, ContentTag, content_tag,
  children, other,
}
use ngen_orca.WaBinary.Encoder.{Error, out_of_fuel, empty_node_list, frame_truncated}
use ngen_orca.WaBinary.Node.{WaNode, binary, no_content}
use ngen_orca.WaBinary.Progress.{
  Progress, left, Progress-bind, refused, Progress-weaken, read_list_size-Progress,
  read_u8-Progress, read_string-Progress, read_bytes-Progress, len20-Progress, read_attrs-Progress,
  len32-Progress,
}

-- The parser of the child nodes makes progress on inputs shorter than `f`.
module _ (f : ℕ) (decode_child : Parser WaNode)
    (child : (c : Bytes) → length c < f → Progress 1 c (decode_child c)) where
  read_children-Progress :
      (n : ℕ) (c : Bytes) → length c < f → Progress 0 c (read_children decode_child n c)
  unfolding read_children
  read_children-Progress zero c h = left (omega arith)
  read_children-Progress (suc n) c h =
      Progress-bind decode_child _ c (Progress-weaken (child c h)) λ v c1 le.
        Progress-bind (read_children decode_child n) _ c1
          (read_children-Progress n c1 (omega arith)) λ vs c2 _. left (omega arith)

  binary-Progress :
      (len : Parser ℕ) (c : Bytes)
      → ((c' : Bytes) → Progress 0 c' (len c'))
      → Progress 0 c
          ((read_u8 >>= λ _. len >>= λ n. read_bytes n >>= λ bytes. pure (binary bytes)) c)
  binary-Progress len c h =
      Progress-bind read_u8 _ c (Progress-weaken (read_u8-Progress c)) λ b c1 _.
        Progress-bind len _ c1 (h c1) λ n c2 _.
          Progress-bind (read_bytes n) _ c2 (read_bytes-Progress n c2) λ s c3 _. left (omega arith)

  content_at-Progress :
      (x : ContentTag) (c : Bytes) → length c < f → Progress 0 c (read_content_at decode_child x c)
  unfolding read_content_at
  content_at-Progress children c h =
      Progress-bind read_list_size _ c (Progress-weaken (read_list_size-Progress c)) λ n c1 le.
        Progress-bind (read_children decode_child n) _ c1
          (read_children-Progress n c1 (omega arith)) λ vs c2 _. left (omega arith)
  content_at-Progress ContentTag.binary8 c h =
      binary-Progress read_u8 c (λ c'. Progress-weaken (read_u8-Progress c'))
  content_at-Progress ContentTag.binary20 c h = binary-Progress read_len20 c len20-Progress
  content_at-Progress ContentTag.binary32 c h = binary-Progress read_len32 c len32-Progress
  content_at-Progress other c h =
      Progress-bind read_string _ c (Progress-weaken (read_string-Progress c))
        λ s c1 _. left (omega arith)

  read_content-Progress : (c : Bytes) → length c < f → Progress 0 c (read_content decode_child c)
  unfolding read_content
  read_content-Progress [] h = left (omega arith)
  read_content-Progress (b ∷ c) h = content_at-Progress (content_tag b) (b ∷ c) h

  content-Progress :
      (has : Bool) (c : Bytes)
      → length c < f
      → Progress 0 c ((if has then read_content decode_child else pure no_content) c)
  content-Progress true c h = read_content-Progress c h
  content-Progress false c h = left (omega arith)

  node_body-Progress :
      (n : ℕ) (c : Bytes) → length c < f → Progress 0 c (node_body decode_child n c)
  unfolding node_body
  node_body-Progress n c h =
      Progress-bind read_string _ c (Progress-weaken (read_string-Progress c)) λ t c1 le1.
        Progress-bind (read_attrs ((n - 1) / 2) []) _ c1 (read_attrs-Progress ((n - 1) / 2) [] c1)
          λ kvs c2 le2.
            Progress-bind (if (n - 1) % 2 == 1 then read_content decode_child else pure no_content)
              _ c2 (content-Progress ((n - 1) % 2 == 1) c2 (omega arith))
              λ x c3 _. left (omega arith)

  sized_body-Progress :
      (empty : Bool) (n : ℕ) (c : Bytes)
      → length c < f
      → Progress 0 c ((if empty then failed empty_node_list else node_body decode_child n) c)
  sized_body-Progress true n c h = refused (λ e. cc)
  sized_body-Progress false n c h = node_body-Progress n c h

  decode_node_with-Progress :
      (c : Bytes) → length c < suc f → Progress 1 c (decode_node_with decode_child c)
  unfolding decode_node_with
  decode_node_with-Progress c h =
      Progress-bind read_list_size _ c (read_list_size-Progress c)
        λ n c1 le. sized_body-Progress (n == 0) n c1 (omega arith)

decode_node_from-Progress : (f : ℕ) (c : Bytes) → length c < f → Progress 1 c (decode_node_from f c)
unfolding decode_node_from
decode_node_from-Progress zero c h = elim h [ ]
decode_node_from-Progress (suc f) c h =
    decode_node_with-Progress f (decode_node_from f) (decode_node_from-Progress f) c h

decode_node-Progress : (c : Bytes) → Progress 1 c (decode_node c)
unfolding decode_node
decode_node-Progress c = decode_node_from-Progress (suc (length c)) c (omega arith)

value_of-Progress :
    {c : Bytes} {r : Result Error (WaNode × Bytes)} → Progress 1 c r → value_of r ≢ err out_of_fuel
unfolding value_of
value_of-Progress (left le) = λ e. cc
value_of-Progress (refused ne) = λ e. ne (cc)

body-ne-fuel :
    (short : Bool) (e : Error) (r : Result Error WaNode)
    → e ≢ out_of_fuel
    → r ≢ err out_of_fuel
    → (if short then err e else r) ≢ err out_of_fuel
body-ne-fuel true e r he hr = λ eq. he (cc)
body-ne-fuel false e r he hr = hr

decode-ne-fuel : (data' : Bytes) → decode data' ≢ err out_of_fuel
unfolding decode
decode-ne-fuel [] = λ e. cc
decode-ne-fuel (_ ∷ []) = λ e. cc
decode-ne-fuel (_ ∷ _ ∷ []) = λ e. cc
decode-ne-fuel (_ ∷ _ ∷ _ ∷ []) = λ e. cc
decode-ne-fuel (b0 ∷ b1 ∷ b2 ∷ b3 ∷ body) =
    let len : ℕ = b1 * 2 ^ 16 + b2 * 2 ^ 8 + b3 in
    body-ne-fuel (ltb (4 + length body) (4 + len)) (frame_truncated (4 + len) (4 + length body)) _
      (λ e. cc) (value_of-Progress (decode_node-Progress (take len body)))

-- On every input, well-formed or not, the decoder of a frame and the decoder of raw bytes come to
-- an answer: a node, or one of the program's errors.
pub decode_terminates :
    (data' : Bytes) → (decode data' ≢ err out_of_fuel) × (decode_raw data' ≢ err out_of_fuel)
unfolding decode_raw
decode_terminates data' = (decode-ne-fuel data', value_of-Progress (decode_node-Progress data'))
