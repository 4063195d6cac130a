-- ===== src/WaBinary/Encoder.antt =====
-- `encode` and the functions that it calls. A function that pushes onto the buffer returns the bytes
-- that it appends.
use ngen_orca.Base.{
  ℕ, zero, suc, ◌+◌, ◌*◌, ◌/◌, ◌%◌, ◌^◌, Option, none, some, [], ◌∷◌, ◌++◌, ltb, ◌==◌,
  if◌then◌else◌, length, Bytes, Result, ok, err, ◌>>=◌,
}
use ngen_orca.WaBinary.Tokens.{token_index}
use ngen_orca.WaBinary.Node.{
  WaNode, WaNodeContent, WaNodes, Attrs, node, no_content, binary, text, list, nil, cons, count,
  has_content,
}

-- `crate::Error::Binary`, a constructor for each message. `out_of_fuel` has no counterpart.
pub data Error : Type 0 where
  frame_too_short : Error
  frame_truncated : ℕ → ℕ → Error
  unexpected_end : Error
  empty_node_list : Error
  expected_list_tag : ℕ → Error
  unknown_string_tag : ℕ → Error
  invalid_utf8 : Error
  out_of_fuel : Error

unfoldable pub write_list_start : ℕ → Bytes
write_list_start size =
    if size == 0
    then 0 ∷ []
    else if ltb size 256
    then 0xF8 ∷ size % 2 ^ 8 ∷ []
    else 0xF9 ∷ size / 2 ^ 8 % 2 ^ 8 ∷ size % 2 ^ 8 ∷ []

unfoldable pub write_byte_length : ℕ → Bytes
write_byte_length len =
    if ltb len 256
    then 0xFE ∷ len % 2 ^ 8 ∷ []
    else if ltb len (2 ^ 20)
    then 0xFF ∷ len / 2 ^ 16 % 2 ^ 4 ∷ len / 2 ^ 8 % 2 ^ 8 ∷ len % 2 ^ 8 ∷ []
    else 0xFD ∷ len / 2 ^ 24 % 2 ^ 8 ∷ len / 2 ^ 16 % 2 ^ 8 ∷ len / 2 ^ 8 % 2 ^ 8 ∷ len % 2 ^ 8 ∷ []

-- `s.find('@')`, with the texts before and behind the sign.
unfoldable pub split_at_sign : Bytes → Option (Bytes × Bytes)
split_at_sign [] = none
split_at_sign (b ∷ s) =
    if b == b'@'
    then some ([], s)
    else elim (split_at_sign s) [ none ↦ none | some (user, server) ↦ some (b ∷ user, server) ]

-- The user and the server's token, if the string is a JID with a known server.
unfoldable pub jid_parts : Bytes → Option (Bytes × ℕ)
unfolding split_at_sign
jid_parts s = elim (split_at_sign s) [
  | none ↦ none
  | some (user, server) ↦ elim (token_index server) [ none ↦ none | some t ↦ some (user, t) ]
]

unfoldable pub write_raw : Bytes → Bytes
unfolding write_byte_length
write_raw s = write_byte_length (length s) ++ s

-- The recursive call is made on the part before the first '@', so the length is fuel enough.
unfoldable pub write_string_from : ℕ → Bytes → Result Error Bytes
unfolding jid_parts write_raw
write_string_from zero s = err out_of_fuel
write_string_from (suc f) s = elim (token_index s) [
  | some t ↦ ok (t ∷ [])
  | none ↦ elim (jid_parts s) [
    | none ↦ ok (write_raw s)
    | some (user, server) ↦ do u ← write_string_from f user; ok (0xFC ∷ (u ++ server ∷ []))
  ]
]

unfoldable pub write_string : Bytes → Result Error Bytes
unfolding write_string_from
write_string s = write_string_from (suc (length s)) s

unfoldable pub write_attrs : Attrs → Result Error Bytes
unfolding write_string
write_attrs [] = ok []
write_attrs ((k, v) ∷ kvs) = do
  key ← write_string k
  value ← write_string v
  more ← write_attrs kvs
  ok (key ++ (value ++ more))

unfoldable mutual
  unfolding write_list_start write_attrs write_string write_raw

  pub encode_node : WaNode → Result Error Bytes
  encode_node (node t kvs c) = do
    tag ← write_string t
    attrs ← write_attrs kvs
    content ← encode_content c
    ok (write_list_start (1 + 2 * length kvs + has_content c) ++ (tag ++ (attrs ++ content)))

  pub encode_content : WaNodeContent → Result Error Bytes
  encode_content no_content = ok []
  encode_content (binary d) = ok (write_raw d)
  encode_content (text t) = write_string t
  encode_content (list cs) = do
    children ← encode_nodes cs
    ok (write_list_start (count cs) ++ children)

  pub encode_nodes : WaNodes → Result Error Bytes
  encode_nodes nil = ok []
  encode_nodes (cons n ns) = do first ← encode_node n; more ← encode_nodes ns; ok (first ++ more)

-- Flags, the length in three bytes, and the node.
unfoldable pub encode : WaNode → Result Error Bytes
unfolding encode_node
encode n = do
  buf ← encode_node n
  ok (0 ∷ length buf / 2 ^ 16 % 2 ^ 8 ∷ length buf / 2 ^ 8 % 2 ^ 8 ∷ length buf % 2 ^ 8 ∷ buf)
