-- ===== src/WaBinary/Fits.antt =====
-- The nodes that the format of binary.rs can carry, and what a node becomes on the wire.
use ngen_orca.Base.{
  Bytes, All, ◌≡◌, [], some, true, ◌+◌, length, ◌*◌, ◌<◌, ◌^◌, none, ◌∷◌, lookup, ◌++◌, text_key,
}
use ngen_orca.WaBinary.Node.{
  WaNode, Attrs, WaNodeContent, node, binary, text, list, no_content, has_content, cons, WaNodes,
  nil, count,
}
use ngen_orca.WaBinary.Utf8.{is_utf8}
use ngen_orca.WaBinary.Tokens.{token_index}
use ngen_orca.WaBinary.Encoder.{jid_parts}

-- What comes back for a text: a raw text is written like binary data.
unfoldable pub wire_text : Bytes → WaNodeContent
wire_text s = elim (token_index s) [
  | some _ ↦ text s
  | none ↦ elim (jid_parts s) [ some _ ↦ text s | none ↦ binary s ]
]

unfoldable mutual
  unfolding wire_text

  pub wire_form : WaNode → WaNode
  wire_form (node t kvs c) = node t kvs (wire_content c)

  pub wire_content : WaNodeContent → WaNodeContent
  wire_content no_content = no_content
  wire_content (binary d) = binary d
  wire_content (text s) = wire_text s
  wire_content (list nil) = no_content
  wire_content (list (cons n ns)) = list (cons (wire_form n) (wire_nodes ns))

  pub wire_nodes : WaNodes → WaNodes
  wire_nodes nil = nil
  wire_nodes (cons n ns) = cons (wire_form n) (wire_nodes ns)

-- A Rust `String` whose length fits the four length bytes.
pub record FitsText (s : Bytes) : Type 0 where
  pub well_formed : is_utf8 s ≡ true
  pub short : length s < 2 ^ 32

-- No key stands among those before it.
abbrev pub Distinct : Attrs → Attrs → Type 0
Distinct seen [] = Unit
Distinct seen ((k, v) ∷ kvs) = (lookup k seen ≡ none) × Distinct (seen ++ (k, v) ∷ []) kvs

abbrev pub FitsAttrs : Attrs → Type 0
FitsAttrs kvs = All (λ kv. FitsText kv.0 × FitsText kv.1) kvs

-- `Fits` is a family, so that a proof recurs on it or on the node.
mutual
  pub data Fits : WaNode → Type 0 where
    fits :
        {t : Bytes} {kvs : Attrs} {c : WaNodeContent}
        → FitsText t
        → FitsAttrs kvs
        → Distinct [] kvs
        → 1 + 2 * length kvs + has_content c < 2 ^ 16
        → FitsContent c
        → Fits (node t kvs c)

  pub data FitsContent : WaNodeContent → Type 0 where
    fits_none : FitsContent no_content
    fits_binary : {d : Bytes} → length d < 2 ^ 32 → FitsContent (binary d)
    fits_text : {s : Bytes} → FitsText s → FitsContent (text s)
    fits_list : {ns : WaNodes} → count ns < 2 ^ 16 → FitsNodes ns → FitsContent (list ns)

  pub data FitsNodes : WaNodes → Type 0 where
    fits_nil : FitsNodes nil
    fits_cons : {n : WaNode} {ns : WaNodes} → Fits n → FitsNodes ns → FitsNodes (cons n ns)
