-- ===== src/WaBinary/Parts.antt =====
-- Reading back the parts of a node.
use ngen_orca.WaBinary.Fits.{wire_form, wire_content, wire_nodes, FitsText, FitsAttrs, Distinct}
use ngen_orca.Base.{
  ℕ, ◌≤◌, ◌<◌, ◌+◌, ◌*◌, ◌-◌, Bytes, ◌/◌, ◌%◌, ◌≡◌, arith, ok, length, ◌++◌, refl, suc, ◌^◌,
  append_assoc, [], if◌then◌else◌, ◌==◌, false, >>=-parts, ◌∷◌, map-parts, Bool-cases, ltb, inl,
  inr,
}
use ngen_orca.WaBinary.Encoder.{
  encode_node, encode_content, write_list_start, write_string, write_attrs, encode_nodes,
}
use ngen_orca.WaBinary.Node.{
  WaNodes, WaNode, count, list, cons, nil, WaNodeContent, has_content, no_content, Attrs, node,
}
use ngen_orca.WaBinary.Decoder.{
  Parser, read_content, node_body, decode_node_with, read_list_size, read_children, pure,
  read_string, read_attrs, content_tag, children,
}
use ngen_orca.WaBinary.Contents.{
  read_list_size-write_list_start, read_attrs-write_attrs, read_content-nothing, read_content-tag,
  read_content_at-children,
}
use ngen_orca.WaBinary.Strings.{>>=-ok, read_string-write_string}

attr_count : (n h : ℕ) → h ≤ 1 → (1 + 2 * n + h - 1) / 2 ≡ n
attr_count n h le = omega arith

content_bit : (n h : ℕ) → h ≤ 1 → (1 + 2 * n + h - 1) % 2 ≡ h
content_bit n h le = omega arith

size-nonzero : (n h : ℕ) → (1 + 2 * n + h == 0) ≡ false
size-nonzero n h = ground arith

-- The parts of a node are read back in their order.
module _ (decode_child : Parser WaNode) (t : Bytes) (kvs : Attrs) (h : ℕ) (le : h ≤ 1) where
  pub node_body-parts :
      (c' : WaNodeContent) (tag attrs content rest : Bytes)
      → write_string t ≡ ok tag
      → FitsText t
      → write_attrs kvs ≡ ok attrs
      → FitsAttrs kvs
      → Distinct [] kvs
      → (if h == 1 then read_content decode_child else pure no_content) (content ++ rest)
        ≡ ok (c', rest)
      → node_body decode_child (1 + 2 * length kvs + h) (tag ++ (attrs ++ (content ++ rest)))
        ≡ ok (node t kvs c', rest)
  unfolding node_body
  node_body-parts c' tag attrs content rest et ht ea hk d ec =
      rw (attr_count (length kvs) h le, content_bit (length kvs) h le)
        (>>=-ok read_string _ (tag ++ (attrs ++ (content ++ rest)))
          (read_string-write_string t tag (attrs ++ (content ++ rest)) et ht.well_formed ht.short)
          (>>=-ok (read_attrs (length kvs) []) _ (attrs ++ (content ++ rest))
            (read_attrs-write_attrs [] kvs attrs (content ++ rest) ea hk d)
            (>>=-ok (if h == 1 then read_content decode_child else pure no_content) _
              (content ++ rest) ec refl)))

  pub decode_node_with-parts :
      (c' : WaNodeContent) (tag attrs content rest : Bytes)
      → 1 + 2 * length kvs + h < 2 ^ 16
      → node_body decode_child (1 + 2 * length kvs + h) (tag ++ (attrs ++ (content ++ rest)))
        ≡ ok (node t kvs c', rest)
      → decode_node_with decode_child
          ((write_list_start (1 + 2 * length kvs + h) ++ (tag ++ (attrs ++ content))) ++ rest)
        ≡ ok (node t kvs c', rest)
  unfolding decode_node_with
  decode_node_with-parts c' tag attrs content rest small e =
      let n : ℕ = 1 + 2 * length kvs + h in
      let body : Bytes = tag ++ (attrs ++ (content ++ rest)) in
      rw
        (
          append_assoc (write_list_start n) (tag ++ (attrs ++ content)) rest,
          append_assoc tag (attrs ++ content) rest,
          append_assoc attrs content rest,
        )
        (>>=-ok read_list_size _ (write_list_start n ++ body)
          (read_list_size-write_list_start n body small) (rw (size-nonzero (length kvs) h) e))

pub has_content-le : (c : WaNodeContent) → has_content c ≤ 1
has_content-le no_content = omega arith
has_content-le _ = omega arith

pub write_list_start-pos : (n : ℕ) → 1 ≤ length (write_list_start n)
unfolding write_list_start
write_list_start-pos n = ground arith

pub read_children-cons :
    (decode_child : Parser WaNode) (n : ℕ) (first more rest : Bytes) {v : WaNode} {vs : WaNodes}
    → decode_child (first ++ (more ++ rest)) ≡ ok (v, more ++ rest)
    → read_children decode_child n (more ++ rest) ≡ ok (vs, rest)
    → read_children decode_child (suc n) (first ++ (more ++ rest)) ≡ ok (cons v vs, rest)
unfolding read_children
read_children-cons decode_child n first more rest e es =
    >>=-ok decode_child _ (first ++ (more ++ rest)) e
      (>>=-ok (read_children decode_child n) _ (more ++ rest) es refl)

list_content_tag :
    (n : ℕ) (c : Bytes)
    → 0 < n
    → (b : ℕ) × (r : Bytes) × (write_list_start n ++ c ≡ b ∷ r) × (content_tag b ≡ children)
unfolding write_list_start content_tag
list_content_tag n c pos = elim (Bool-cases (ltb n 256)) [
  | inl small ↦ (0xF8, n % 2 ^ 8 ∷ c, ground arith, refl)
  | inr big ↦ (0xF9, n / 2 ^ 8 % 2 ^ 8 ∷ n % 2 ^ 8 ∷ c, ground arith, refl)
]

-- A list with no nodes comes back as no content.
pub read_content-list :
    (decode_child : Parser WaNode) (ns : WaNodes) (bs rest : Bytes)
    → count ns < 2 ^ 16
    → encode_nodes ns ≡ ok bs
    → read_children decode_child (count ns) (bs ++ rest) ≡ ok (wire_nodes ns, rest)
    → read_content decode_child (write_list_start (count ns) ++ (bs ++ rest))
      ≡ ok (wire_content (list ns), rest)
unfolding encode_node wire_form
read_content-list decode_child nil bs rest small e es =
    let e' : [] ≡ bs = cc in rw (← e') (read_content-nothing decode_child rest)
read_content-list decode_child (cons n ns) bs rest small e es =
    let (b, r, first, tag) = list_content_tag (suc (count ns)) (bs ++ rest) (omega arith) in
    rw (first, read_content-tag decode_child children b r tag)
      (read_content_at-children decode_child (suc (count ns)) b r bs rest first small es)

pub encode_node-parts :
    (t : Bytes) (kvs : Attrs) (c : WaNodeContent) (bs : Bytes)
    → encode_node (node t kvs c) ≡ ok bs
    → (tag : Bytes) × (attrs : Bytes) × (content : Bytes) × (write_string t ≡ ok tag)
      × (write_attrs kvs ≡ ok attrs)
      × (encode_content c ≡ ok content)
      × (write_list_start (1 + 2 * length kvs + has_content c) ++ (tag ++ (attrs ++ content)) ≡ bs)
unfolding encode_node
encode_node-parts t kvs c bs e =
    let (tag, et, e1) = >>=-parts (write_string t) _ e in
    let (attrs, ea, e2) = >>=-parts (write_attrs kvs) _ e1 in
    let (content, ec, e3) = map-parts (encode_content c) _ e2 in
    (tag, attrs, content, et, ea, ec, e3)
