-- ===== src/WaBinary/Node.antt =====
-- `WaNode` and `WaNodeContent`, their constructors and getters. An attribute map is the association
-- list of its entries, in iteration order.
use ngen_orca.Base.{ℕ, suc, Option, none, some, List, if◌then◌else◌, Bytes, lookup, same, text_key}

abbrev pub Attrs : Type 0
Attrs = List (Bytes × Bytes)

mutual
  pub data WaNode : Type 0 where
    node : Bytes → Attrs → WaNodeContent → WaNode

  pub data WaNodeContent : Type 0 where
    no_content : WaNodeContent
    binary : Bytes → WaNodeContent
    text : Bytes → WaNodeContent
    list : WaNodes → WaNodeContent

  -- `Vec<WaNode>`.
  pub data WaNodes : Type 0 where
    nil : WaNodes
    cons : WaNode → WaNodes → WaNodes

abbrev pub count : WaNodes → ℕ
count nil = 0
count (cons _ ns) = suc (count ns)

unfoldable pub new : Bytes → Attrs → WaNode
new t kvs = node t kvs no_content

unfoldable pub with_binary : Bytes → Attrs → Bytes → WaNode
with_binary t kvs d = node t kvs (binary d)

unfoldable pub with_children : Bytes → Attrs → WaNodes → WaNode
with_children t kvs cs = node t kvs (list cs)

unfoldable pub attr : WaNode → Bytes → Option Bytes
attr (node t kvs c) key = lookup key kvs

abbrev pub tag : WaNode → Bytes
tag (node t kvs c) = t

unfoldable pub find_tag : WaNodes → Bytes → Option WaNode
find_tag nil t = none
find_tag (cons n ns) t = if same (tag n) t then some n else find_tag ns t

unfoldable pub child : WaNode → Bytes → Option WaNode
unfolding find_tag
child (node t kvs (list cs)) key = find_tag cs key
child (node t kvs _) key = none

unfoldable pub content_bytes : WaNode → Option Bytes
content_bytes (node t kvs (binary b)) = some b
content_bytes (node t kvs (text b)) = some b
content_bytes (node t kvs _) = none

abbrev pub has_content : WaNodeContent → ℕ
has_content no_content = 0
has_content _ = 1
