-- ===== src/WaBinary/Decoder.antt =====
-- `decode`, `decode_raw` and the cursor. A cursor is the list of the bytes that remain, so `pos`
-- is the length of what has been dropped from `data`.
use ngen_orca.Base.{
  ℕ, zero, suc, ◌+◌, ◌-◌, ◌*◌, ◌/◌, ◌%◌, ◌^◌, ◌&&◌, ◌||◌, [], ◌∷◌, ◌++◌, leb, ltb, ◌==◌,
  if◌then◌else◌, length, take, drop, get_elem?, get_or, insert, text_key, Bytes, codes, Result, ok,
  err,
}
use ngen_orca.WaBinary.Tokens.{single_byte_tokens, is_empty}
use ngen_orca.WaBinary.Utf8.{is_utf8}
use ngen_orca.WaBinary.Node.{
  WaNode, WaNodeContent, WaNodes, Attrs, node, no_content, binary, text, list, nil, cons,
}
use ngen_orca.WaBinary.Encoder.{
  Error, frame_too_short, frame_truncated, unexpected_end, empty_node_list, expected_list_tag,
  unknown_string_tag, invalid_utf8, out_of_fuel,
}

abbrev pub Parser : Type 0 → Type 0
Parser A = Bytes → Result Error (A × Bytes)

abbrev pub pure : {A : Type 0} → A → Parser A
pure a c = ok (a, c)

abbrev pub failed : {A : Type 0} → Error → Parser A
failed e c = err e

infixl 5 ◌>>=◌
abbrev pub ◌>>=◌ : {A B : Type 0} → Parser A → (A → Parser B) → Parser B
◌>>=◌ p f c = elim (p c) [ ok (a, c') ↦ f a c' | err e ↦ err e ]

unfoldable pub read_u8 : Parser ℕ
read_u8 [] = err unexpected_end
read_u8 (b ∷ c) = ok (b, c)

unfoldable pub read_u16 : Parser ℕ
unfolding read_u8
read_u16 = do hi ← read_u8; lo ← read_u8; pure (hi * 2 ^ 8 + lo)

unfoldable pub read_bytes : ℕ → Parser Bytes
read_bytes n c = if leb n (length c) then ok (take n c, drop n c) else err unexpected_end

-- The lengths behind BINARY_8, BINARY_20 and BINARY_32. Bytes shifted apart share no bit, so `|`
-- is `+`.
unfoldable pub read_len20 : Parser ℕ
unfolding read_u8
read_len20 = do
  b0 ← read_u8
  b1 ← read_u8
  b2 ← read_u8
  pure (b0 % 2 ^ 4 * 2 ^ 16 + b1 * 2 ^ 8 + b2)

unfoldable pub read_len32 : Parser ℕ
unfolding read_u8
read_len32 = do
  b0 ← read_u8
  b1 ← read_u8
  b2 ← read_u8
  b3 ← read_u8
  pure (b0 * 2 ^ 24 + b1 * 2 ^ 16 + b2 * 2 ^ 8 + b3)

-- The match of `read_list_size` on its first byte.
unfoldable pub list_size_at : ℕ → Parser ℕ
unfolding read_u8 read_u16
list_size_at tag =
    if tag == 0
    then pure 0
    else if tag == 0xF8
    then read_u8
    else if tag == 0xF9
    then read_u16
    else failed (expected_list_tag tag)

unfoldable pub read_list_size : Parser ℕ
unfolding list_size_at
read_list_size = do tag ← read_u8; list_size_at tag

unfoldable pub utf8_string : Bytes → Parser Bytes
utf8_string s = if is_utf8 s then pure s else failed invalid_utf8

-- The arms of the match on a string's first byte.
pub data StringTag : Type 0 where
  token binary8 binary20 binary32 jid_pair empty unknown : StringTag

unfoldable pub string_tag : ℕ → StringTag
string_tag t =
    if leb 1 t && leb t 165
    then token
    else if t == 0xFE
    then binary8
    else if t == 0xFF
    then binary20
    else if t == 0xFD
    then binary32
    else if t == 0xFC
    then jid_pair
    else if t == 0
    then empty
    else unknown

-- The recursive call of `read_string` comes as an argument.
unfoldable pub read_string_at : Parser Bytes → ℕ → StringTag → Parser Bytes
unfolding read_u8 read_len20 read_len32 read_bytes utf8_string
read_string_at read_user tag token = pure (get_or (get_elem? single_byte_tokens tag) [])
read_string_at read_user tag binary8 = do len ← read_u8; bytes ← read_bytes len; utf8_string bytes
read_string_at read_user tag binary20 = do
  len ← read_len20
  bytes ← read_bytes len
  utf8_string bytes
read_string_at read_user tag binary32 = do
  len ← read_len32
  bytes ← read_bytes len
  utf8_string bytes
read_string_at read_user tag jid_pair = do
  user ← read_user
  server ← read_u8
  pure (user ++ b'@' ∷ get_or (get_elem? single_byte_tokens server) (codes "unknown"))
read_string_at read_user tag empty = pure []
read_string_at read_user tag unknown = failed (unknown_string_tag tag)

unfoldable pub read_string_from : ℕ → Parser Bytes
unfolding read_string_at string_tag
read_string_from zero c = err out_of_fuel
read_string_from (suc f) c =
    (do tag ← read_u8; read_string_at (read_string_from f) tag (string_tag tag)) c

-- Each call reads a byte, so the bytes that remain are fuel enough.
unfoldable pub read_string : Parser Bytes
unfolding read_string_from
read_string c = read_string_from (suc (length c)) c

-- The loop over the attributes; a key that comes twice keeps its last value.
unfoldable pub read_attrs : ℕ → Attrs → Parser Attrs
unfolding read_string
read_attrs zero attrs = pure attrs
read_attrs (suc n) attrs = do
  key ← read_string
  value ← read_string
  read_attrs n (insert key value attrs)

-- The arms of the match on the byte that `read_content` peeks at.
pub data ContentTag : Type 0 where
  children binary8 binary20 binary32 other : ContentTag

unfoldable pub content_tag : ℕ → ContentTag
content_tag t =
    if t == 0xF8 || t == 0xF9
    then children
    else if t == 0xFE
    then binary8
    else if t == 0xFF
    then binary20
    else if t == 0xFD
    then binary32
    else other

-- `decode_node` and `read_content` call each other; here the call comes as an argument.
module _ (decode_child : Parser WaNode) where
  unfoldable pub read_children : ℕ → Parser WaNodes
  read_children zero = pure nil
  read_children (suc n) = do first ← decode_child; more ← read_children n; pure (cons first more)

  unfoldable pub read_content_at : ContentTag → Parser WaNodeContent
  unfolding read_children read_list_size read_u8 read_len20 read_len32 read_bytes read_string
  read_content_at children = do size ← read_list_size; nodes ← read_children size; pure (list nodes)
  read_content_at binary8 = do
    _ ← read_u8
    len ← read_u8
    bytes ← read_bytes len
    pure (binary bytes)
  read_content_at binary20 = do
    _ ← read_u8
    len ← read_len20
    bytes ← read_bytes len
    pure (binary bytes)
  read_content_at binary32 = do
    _ ← read_u8
    len ← read_len32
    bytes ← read_bytes len
    pure (binary bytes)
  read_content_at other = do s ← read_string; pure (if is_empty s then no_content else text s)

  unfoldable pub read_content : Parser WaNodeContent
  unfolding read_content_at content_tag
  read_content [] = ok (no_content, [])
  read_content (b ∷ c) = read_content_at (content_tag b) (b ∷ c)

  -- What follows the size of the list.
  unfoldable pub node_body : ℕ → Parser WaNode
  unfolding read_string read_attrs read_content
  node_body list_size = do
    t ← read_string
    attrs ← read_attrs ((list_size - 1) / 2) []
    content ← (if (list_size - 1) % 2 == 1 then read_content else pure no_content)
    pure (node t attrs content)

  unfoldable pub decode_node_with : Parser WaNode
  unfolding read_list_size node_body
  decode_node_with = do
    list_size ← read_list_size
    (if list_size == 0 then failed empty_node_list else node_body list_size)

unfoldable pub decode_node_from : ℕ → Parser WaNode
unfolding decode_node_with
decode_node_from zero c = err out_of_fuel
decode_node_from (suc f) c = decode_node_with (decode_node_from f) c

-- Each node reads a byte before it reads its children, so the bytes that remain are fuel enough.
unfoldable pub decode_node : Parser WaNode
unfolding decode_node_from
decode_node c = decode_node_from (suc (length c)) c

unfoldable pub value_of : Result Error (WaNode × Bytes) → Result Error WaNode
value_of (ok (n, _)) = ok n
value_of (err e) = err e

unfoldable pub decode_raw : Bytes → Result Error WaNode
unfolding decode_node value_of
decode_raw data' = value_of (decode_node data')

unfoldable pub decode : Bytes → Result Error WaNode
unfolding decode_node value_of
decode (_ ∷ b1 ∷ b2 ∷ b3 ∷ body) =
    let len = b1 * 2 ^ 16 + b2 * 2 ^ 8 + b3 in
    if ltb (4 + length body) (4 + len)
    then err (frame_truncated (4 + len) (4 + length body))
    else value_of (decode_node (take len body))
decode _ = err frame_too_short
