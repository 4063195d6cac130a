-- ===== src/WaBinary/RoundTrip.antt =====
-- `decode` after `encode`.
use ngen_orca.WaBinary.Fits.{
  wire_form, Fits, wire_content, wire_nodes, fits, FitsContent, fits_binary, fits_text, fits_list,
  FitsNodes, fits_cons, fits_none, fits_nil,
}
use ngen_orca.Base.{
  ℕ, ◌≤◌, ◌<◌, ◌+◌, ◌*◌, Bytes, ◌/◌, ◌%◌, ◌≡◌, arith, ok, length, ◌++◌, refl, suc, ◌^◌,
  append_assoc, [], if◌then◌else◌, ◌==◌, zero, false, >>=-parts, ap, ◌∷◌, map-parts, length-append,
  ltb, take-length-append, append-nil,
}
use ngen_orca.WaBinary.Encoder.{
  encode_node, encode_content, write_list_start, encode_nodes, write_raw, encode,
}
use ngen_orca.WaBinary.Node.{WaNodes, WaNode, count, WaNodeContent, has_content, no_content}
use ngen_orca.WaBinary.Decoder.{
  decode_node_from, read_content, read_children, pure, decode, value_of, decode_node,
}
use ngen_orca.WaBinary.Contents.{read_content-write_string, read_content-write_raw}
use ngen_orca.WaBinary.Parts.{
  encode_node-parts, write_list_start-pos, decode_node_with-parts, has_content-le, node_body-parts,
  read_content-list, read_children-cons,
}

mutual
  unfolding encode_node wire_form decode_node_from

  decode_node-encode_node :
      {n : WaNode}
      → Fits n
      → (f : ℕ) (bs rest : Bytes) → encode_node n ≡ ok bs
      → length bs ≤ f
      → decode_node_from f (bs ++ rest) ≡ ok (wire_form n, rest)
  decode_node-encode_node (fits {t} {kvs} {c} ht hk d small hc) zero bs rest e h =
      let (tag, attrs, content, _, _, _, e') = encode_node-parts t kvs c bs e in
      let n : ℕ = 1 + 2 * length kvs + has_content c in
      absurd (
        omega (
          arith,
          write_list_start-pos n,
          ap length e',
          length-append (write_list_start n) (tag ++ (attrs ++ content)),
        ))
  decode_node-encode_node (fits {t} {kvs} {c} ht hk d small hc) (suc f) bs rest e h =
      let (tag, attrs, content, et, ea, ec, e') = encode_node-parts t kvs c bs e in
      let k : ℕ = has_content c in
      let n : ℕ = 1 + 2 * length kvs + k in
      let less : length content ≤ f = omega (
        arith,
        write_list_start-pos n,
        ap length e',
        length-append (write_list_start n) (tag ++ (attrs ++ content)),
        length-append tag (attrs ++ content),
        length-append attrs content,
      ) in
      rw (← e') (
        decode_node_with-parts (decode_node_from f) t kvs k (has_content-le c) (wire_content c) tag
          attrs content rest small
          (node_body-parts (decode_node_from f) t kvs k (has_content-le c) (wire_content c) tag
            attrs content rest et ht ea hk d
            (read_content-encode_content hc f content rest ec less)))

  read_content-encode_content :
      {c : WaNodeContent}
      → FitsContent c
      → (f : ℕ) (bs rest : Bytes) → encode_content c ≡ ok bs
      → length bs ≤ f
      → (if has_content c == 1 then read_content (decode_node_from f) else pure no_content)
          (bs ++ rest)
        ≡ ok (wire_content c, rest)
  read_content-encode_content fits_none f bs rest e h = let e' : [] ≡ bs = cc in rw (← e') refl
  read_content-encode_content (fits_binary {d} small) f bs rest e h =
      let e' : write_raw d ≡ bs = cc in
      rw (← e') (read_content-write_raw (decode_node_from f) d rest small)
  read_content-encode_content (fits_text {s} ht) f bs rest e h =
      read_content-write_string (decode_node_from f) s bs rest e ht
  read_content-encode_content (fits_list {ns} small hs) f bs rest e h =
      let (cs, ec, e') = map-parts (encode_nodes ns) _ e in
      let less : length cs ≤ f =
        omega (arith, ap length e', length-append (write_list_start (count ns)) cs) in
      rw (← e', append_assoc (write_list_start (count ns)) cs rest)
        (read_content-list (decode_node_from f) ns cs rest small ec
          (read_children-encode_nodes hs f cs rest ec less))

  read_children-encode_nodes :
      {ns : WaNodes}
      → FitsNodes ns
      → (f : ℕ) (bs rest : Bytes) → encode_nodes ns ≡ ok bs
      → length bs ≤ f
      → read_children (decode_node_from f) (count ns) (bs ++ rest) ≡ ok (wire_nodes ns, rest)
  read_children-encode_nodes fits_nil f bs rest e h = let e' : [] ≡ bs = cc in rw (← e') refl
  read_children-encode_nodes (fits_cons {n} {ns} hn hs) f bs rest e h =
      let (first, ef, e1) = >>=-parts (encode_node n) _ e in
      let (more, em, e2) = map-parts (encode_nodes ns) _ e1 in
      let both : length first + length more ≤ f =
        omega (arith, ap length e2, length-append first more) in
      rw (← e2, append_assoc first more rest)
        (read_children-cons (decode_node_from f) (count ns) first more rest
          (decode_node-encode_node hn f first (more ++ rest) ef (omega arith))
          (read_children-encode_nodes hs f more rest em (omega arith)))

unfoldable pub frame_of : Bytes → Bytes
frame_of buf =
    0 ∷ length buf / 2 ^ 16 % 2 ^ 8 ∷ length buf / 2 ^ 8 % 2 ^ 8 ∷ length buf % 2 ^ 8 ∷ buf

decode-frame_of :
    (buf rest : Bytes)
    → length buf < 2 ^ 24
    → decode (frame_of buf ++ rest) ≡ value_of (decode_node buf)
unfolding decode frame_of
decode-frame_of buf rest small =
    let l : ℕ = length buf in
    let e : l / 2 ^ 16 % 2 ^ 8 * 2 ^ 16 + l / 2 ^ 8 % 2 ^ 8 * 2 ^ 8 + l % 2 ^ 8 ≡ l = omega arith in
    let whole : ltb (4 + length (buf ++ rest)) (4 + l) ≡ false =
      ground (arith, length-append buf rest) in
    rw (e, whole, take-length-append buf rest) refl

decode_node-encoded :
    (n : WaNode) (buf : Bytes)
    → Fits n
    → encode_node n ≡ ok buf
    → decode_node buf ≡ ok (wire_form n, [])
unfolding decode_node
decode_node-encoded n buf h e =
    rw append-nil at (decode_node-encode_node h (suc (length buf)) buf [] e (omega arith))

-- `decode` after `encode` gives the node's wire form, for any node that fits the format and whose
-- encoding fits the three length bytes of the frame, also with bytes behind the frame.
pub decode-encode :
    (n : WaNode) (buf rest : Bytes)
    → Fits n
    → encode_node n ≡ ok buf
    → length buf < 2 ^ 24
    → (frame : Bytes) × (encode n ≡ ok frame) × (decode (frame ++ rest) ≡ ok (wire_form n))
unfolding encode decode frame_of
decode-encode n buf rest h e small = (
  frame_of buf,
  rw (e, frame_of) refl,
  rw (decode-frame_of buf rest small, decode_node-encoded n buf h e) refl,
)
