-- ===== src/WaBinary/Tokens.antt =====
-- The single-byte token dictionary of ngenorca-whatsapp-web/src/binary.rs. A string of the model is
-- the list of its bytes.
use ngen_orca.Base.{
  ℕ, suc, ◌%◌, String, Bool, true, false, List, [], ◌∷◌, Option, map, if◌then◌else◌, Bytes, codes,
  insert, lookup, text_key,
}

abbrev token_texts : List String
token_texts =
    "" ∷ "xmlstreamend" ∷ "xmlstreamstart" ∷ "s.whatsapp.net" ∷ "type" ∷ "participant" ∷ "from"
    ∷ "to" ∷ "fallback_hostname" ∷ "media" ∷ "notification" ∷ "0" ∷ "1" ∷ "ag" ∷ "message" ∷ "body"
    ∷ "response" ∷ "action" ∷ "list" ∷ "set" ∷ "delete" ∷ "urn:xmpp:whatsapp:push" ∷ "result"
    ∷ "groups_v2" ∷ "image" ∷ "count" ∷ "jid" ∷ "id" ∷ "g.us" ∷ "status" ∷ "subject" ∷ "broadcast"
    ∷ "success" ∷ "receipt" ∷ "error" ∷ "text" ∷ "ack" ∷ "category" ∷ "reason" ∷ "creation"
    ∷ "epoch" ∷ "relay" ∷ "value" ∷ "read" ∷ "call" ∷ "code" ∷ "query" ∷ "picture" ∷ "audio"
    ∷ "played" ∷ "last" ∷ "offer" ∷ "user" ∷ "enable" ∷ "critical_unblock_low" ∷ "accept" ∷ "ib"
    ∷ "timeout" ∷ "devices" ∷ "after" ∷ "props" ∷ "true" ∷ "false" ∷ "contact" ∷ "get" ∷ "order"
    ∷ "linked_devices_ts" ∷ "encrypt" ∷ "key" ∷ "none" ∷ "identity" ∷ "all" ∷ "group" ∷ "item"
    ∷ "item_count" ∷ "video" ∷ "priority" ∷ "server-error" ∷ "w:gp2" ∷ "available" ∷ "admin"
    ∷ "owner" ∷ "mute" ∷ "create" ∷ "revoke" ∷ "encoding" ∷ "chatstate" ∷ "paused" ∷ "composing"
    ∷ "recording" ∷ "hash" ∷ "stanza" ∷ "lidJid" ∷ "pn" ∷ "dirty" ∷ "w:stats" ∷ "device_hash"
    ∷ "hostname" ∷ "edit" ∷ "2" ∷ "3" ∷ "subscribe" ∷ "w:web" ∷ "offline" ∷ "preview"
    ∷ "w:profile:picture" ∷ "add" ∷ "remove" ∷ "demote" ∷ "promote" ∷ "ts" ∷ "reg_push" ∷ "config"
    ∷ "features" ∷ "web" ∷ "primary" ∷ "w:m" ∷ "voip" ∷ "display" ∷ "dc" ∷ "t" ∷ "resource"
    ∷ "batch" ∷ "update" ∷ "msg" ∷ "device-list" ∷ "resume" ∷ "description" ∷ "business_hours"
    ∷ "categories" ∷ "delivery" ∷ "modify" ∷ "disappearing_mode" ∷ "usync" ∷ "notice" ∷ "protocol"
    ∷ "v" ∷ "lid" ∷ "not-found" ∷ "dns" ∷ "verified_name" ∷ "contact_remove" ∷ "profile"
    ∷ "side_list" ∷ "active" ∷ "passive" ∷ "terminate" ∷ "member_add_mode"
    ∷ "membership_approval_mode" ∷ "locale" ∷ "default_membership_approval_mode" ∷ "chat"
    ∷ "presence" ∷ "tag" ∷ "link_code_companion_reg" ∷ "companion_identity_class" ∷ "edge_routing"
    ∷ "routing_info" ∷ "hi" ∷ "4" ∷ "5" ∷ "6" ∷ "7" ∷ "8" ∷ "9" ∷ "10" ∷ []

unfoldable pub single_byte_tokens : List Bytes
single_byte_tokens = map codes token_texts

abbrev pub is_empty : Bytes → Bool
is_empty [] = true
is_empty (_ ∷ _) = false

-- The loop of `build_token_map`, from index `i` on.
unfoldable pub insert_tokens : ℕ → List Bytes → List (Bytes × ℕ) → List (Bytes × ℕ)
insert_tokens i [] tokens = tokens
insert_tokens i (tok ∷ toks) tokens =
    insert_tokens (suc i) toks (if is_empty tok then tokens else insert tok (i % 256) tokens)

unfoldable pub build_token_map : List (Bytes × ℕ)
unfolding insert_tokens single_byte_tokens
build_token_map = insert_tokens 0 single_byte_tokens []

-- `tokens.get(s)`.
unfoldable pub token_index : Bytes → Option ℕ
unfolding build_token_map
token_index s = lookup s build_token_map
