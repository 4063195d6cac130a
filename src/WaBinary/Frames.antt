-- ===== src/WaBinary/Frames.antt =====
-- The frames of binary.rs, whole and cut short.
use ngen_orca.Base.{
  Bytes, ℕ, ◌≡◌, some, length, ok, ◌<◌, suc, ◌∷◌, [], ◌+◌, arith, Option-cases, ◌++◌, ◌^◌, ap, refl,
  ◌*◌, inr, take, length-append, inl, err, if◌then◌else◌, ltb, zero, ◌/◌, ◌∙◌, ◌%◌, length-take,
  true, false, Result,
}
use ngen_orca.WaBinary.Encoder.{
  write_string_from, write_string, write_attrs, encode_node, encode, split_at_sign,
  write_list_start, jid_parts, encode_content, write_raw, frame_too_short, frame_truncated,
  encode_nodes,
}
use ngen_orca.WaBinary.Node.{
  Attrs, WaNode, node, has_content, WaNodeContent, binary, text, list, count, WaNodes, cons,
  no_content, nil,
}
use ngen_orca.WaBinary.Tokens.{token_index}
use ngen_orca.WaBinary.Decoder.{decode}
use ngen_orca.WaBinary.Written.{split_at_sign-eq, jid_parts-eq}
use ngen_orca.WaBinary.RoundTrip.{frame_of}

split_at_sign-shorter :
    (s user server : Bytes) → split_at_sign s ≡ some (user, server) → length user < length s
split_at_sign-shorter s user server e =
    omega (arith, ap length (split_at_sign-eq s user server e), length-append user (b'@' ∷ server))

write_string_from-total :
    (f : ℕ) (s : Bytes) → length s < f → (bs : Bytes) × (write_string_from f s ≡ ok bs)
unfolding write_string_from
write_string_from-total zero s h = elim h [ ]
write_string_from-total (suc f) s h = elim (Option-cases (token_index s)) [
  | inr (t, known) ↦ (t ∷ [], ground arith)
  | inl free ↦ elim (Option-cases (jid_parts s)) [
    | inl raw ↦ (write_raw s, ground arith)
    | inr ((user, t), jid) ↦
        let (server, known, split) = jid_parts-eq s user t jid in
        let less : length user < length s = split_at_sign-shorter s user server split in
        let (u, wrote) = write_string_from-total f user (omega arith) in
        (0xFC ∷ (u ++ t ∷ []), ground arith)
  ]
]

write_string-total : (s : Bytes) → (bs : Bytes) × (write_string s ≡ ok bs)
unfolding write_string
write_string-total s = write_string_from-total (suc (length s)) s (omega arith)

write_attrs-total : (kvs : Attrs) → (bs : Bytes) × (write_attrs kvs ≡ ok bs)
unfolding write_attrs
write_attrs-total [] = ([], refl)
write_attrs-total ((k, v) ∷ kvs) =
    let (a, ea) = write_string-total k in
    let (b, eb) = write_string-total v in
    let (c, ec) = write_attrs-total kvs in (a ++ (b ++ c), rw (ea, eb, ec) refl)

mutual
  unfolding encode_node

  encode_node-total : (n : WaNode) → (bs : Bytes) × (encode_node n ≡ ok bs)
  encode_node-total (node t kvs c) =
      let (a, ea) = write_string-total t in
      let (b, eb) = write_attrs-total kvs in
      let (d, ed) = encode_content-total c in
      (
        write_list_start (1 + 2 * length kvs + has_content c) ++ (a ++ (b ++ d)),
        rw (ea, eb, ed) refl,
      )

  encode_content-total : (c : WaNodeContent) → (bs : Bytes) × (encode_content c ≡ ok bs)
  encode_content-total no_content = ([], refl)
  encode_content-total (binary d) = (write_raw d, refl)
  encode_content-total (text s) = write_string-total s
  encode_content-total (list ns) =
      let (b, eb) = encode_nodes-total ns in (write_list_start (count ns) ++ b, rw eb refl)

  encode_nodes-total : (ns : WaNodes) → (bs : Bytes) × (encode_nodes ns ≡ ok bs)
  encode_nodes-total nil = ([], refl)
  encode_nodes-total (cons n ns) =
      let (a, ea) = encode_node-total n in
      let (b, eb) = encode_nodes-total ns in (a ++ b, rw (ea, eb) refl)

-- The encoder returns a frame for every node: its four header bytes and the node's encoding.
pub encode_total :
    (n : WaNode)
    → (buf : Bytes) × (frame : Bytes) × (encode_node n ≡ ok buf)
      × (encode n ≡ ok frame)
      × (length frame ≡ 4 + length buf)
unfolding encode frame_of
encode_total n =
    let (buf, e) = encode_node-total n in (buf, frame_of buf, e, rw e refl, omega arith)

length-frame_of : (buf : Bytes) → 4 + length buf ≡ length (frame_of buf)
unfolding frame_of
length-frame_of buf = omega arith

encode-frame_of :
    (n : WaNode) (buf frame : Bytes)
    → encode_node n ≡ ok buf
    → encode n ≡ ok frame
    → frame_of buf ≡ frame
unfolding encode frame_of
encode-frame_of n buf frame eb e =
    let h : Result.ok (frame_of buf) ≡ encode n = rw eb refl in cc (h, e)

decode-take-frame_of :
    (buf : Bytes) (k : ℕ)
    → length buf < 2 ^ 24
    → k < 4 + length buf
    → decode (take k (frame_of buf))
      ≡ err (if ltb k 4 then frame_too_short else frame_truncated (4 + length buf) k)
unfolding decode frame_of
decode-take-frame_of buf zero small h = refl
decode-take-frame_of buf (suc zero) small h = refl
decode-take-frame_of buf (suc (suc zero)) small h = refl
decode-take-frame_of buf (suc (suc (suc zero))) small h = refl
decode-take-frame_of buf (suc (suc (suc (suc k)))) small h =
    let l : ℕ = length buf in
    let e : l / 2 ^ 16 % 2 ^ 8 * 2 ^ 16 + l / 2 ^ 8 % 2 ^ 8 * 2 ^ 8 + l % 2 ^ 8 ≡ l = omega arith in
    let got : 4 + length (take k buf) ≡ suc (suc (suc (suc k))) =
      omega (arith, length-take k buf) in
    let cut : ltb (4 + length (take k buf)) (4 + l) ≡ true = ground (arith, length-take k buf) in
    let late : ltb (suc (suc (suc (suc k)))) 4 ≡ false = ground arith in rw (e, cut, got, late) refl

-- Every proper prefix of a frame is refused: as too short below four bytes, and otherwise as
-- truncated, with the frame's length and the length received.
pub decode-take-encode :
    (n : WaNode) (frame : Bytes) (k : ℕ)
    → encode n ≡ ok frame
    → length frame < 2 ^ 24
    → k < length frame
    → decode (take k frame)
      ≡ err (if ltb k 4 then frame_too_short else frame_truncated (length frame) k)
unfolding encode
decode-take-encode n frame k e small h =
    let (buf, eb) = encode_node-total n in
    let same_frame : frame_of buf ≡ frame = encode-frame_of n buf frame eb e in
    let len : 4 + length buf ≡ length frame = length-frame_of buf ∙ ap length same_frame in
    rw (← same_frame, ← length-frame_of buf)
      (decode-take-frame_of buf k (omega arith) (omega arith))
