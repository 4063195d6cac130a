-- ===== src/WaBinary/Tests.antt =====
-- Runs of the codec of binary.rs, and its theorems at concrete nodes.
use ngen_orca.WaBinary.Node.{WaNode, node, new, list, cons, binary, text, nil}
use ngen_orca.Base.{
  Bytes, ◌∷◌, codes, ◌≡◌, [], ok, refl, true, ◌++◌, ◌≢◌, length, take, ◌<◌, err, ◌+◌, ◌^◌, arith,
}
use ngen_orca.WaBinary.Encoder.{encode_node, encode, jid_parts, out_of_fuel, frame_truncated}
use ngen_orca.WaBinary.Decoder.{decode_raw, decode}
use ngen_orca.WaBinary.Tokens.{token_index, single_byte_tokens}
use ngen_orca.WaBinary.Utf8.{is_utf8}
use ngen_orca.WaBinary.Fits.{
  wire_form, Fits, fits, FitsText, fits_list, fits_cons, fits_binary, fits_text, fits_nil,
}
use ngen_orca.WaBinary.RoundTrip.{decode-encode}
use ngen_orca.WaBinary.Frames.{encode_total, decode-take-encode}
use ngen_orca.WaBinary.Termination.{decode_terminates}

abbrev greeting : WaNode
greeting =
    node (codes "message")
      ((codes "type", codes "text") ∷ (codes "to", codes "7@s.whatsapp.net") ∷ [])
      (list (
        cons (node (codes "body") [] (binary (codes "hi")))
          (cons (node (codes "item") [] (text (codes "hello"))) nil)))

abbrev greeting_bytes : Bytes
greeting_bytes =
    0xF8
    ∷ 6
    ∷ 14
    ∷ 4
    ∷ 35
    ∷ 7
    ∷ 0xFC
    ∷ 162
    ∷ 3
    ∷ 0xF8
    ∷ 2
    ∷ 0xF8
    ∷ 2
    ∷ 15
    ∷ 0xFE
    ∷ 2
    ∷ b'h'
    ∷ b'i'
    ∷ 0xF8
    ∷ 2
    ∷ 73
    ∷ 0xFE
    ∷ 5
    ∷ codes "hello"

greeting_encodes : encode_node greeting ≡ ok greeting_bytes
unfolding encode_node token_index
greeting_encodes = refl

raw_node : decode_raw (0xF8 ∷ 1 ∷ 14 ∷ []) ≡ ok (new (codes "message") [])
unfolding decode_raw single_byte_tokens new
raw_node = refl

ascii-FitsText : (s : Bytes) → is_utf8 s ≡ true → length s < 2 ^ 32 → FitsText s
ascii-FitsText s good short = record { well_formed = good; short = short }

greeting-Fits : Fits greeting
unfolding is_utf8
greeting-Fits =
    fits (ascii-FitsText _ refl (omega arith))
      (
        (ascii-FitsText _ refl (omega arith), ascii-FitsText _ refl (omega arith)),
        ((ascii-FitsText _ refl (omega arith), ascii-FitsText _ refl (omega arith)), tt),
      )
      (refl, (refl, tt)) (omega arith)
      (fits_list (omega arith) (
        fits_cons
          (fits (ascii-FitsText _ refl (omega arith)) tt tt (omega arith)
            (fits_binary (omega arith)))
          (fits_cons
            (fits (ascii-FitsText _ refl (omega arith)) tt tt (omega arith)
              (fits_text (ascii-FitsText _ refl (omega arith))))
            fits_nil)))

decode-encode_example :
    (frame : Bytes) × (encode greeting ≡ ok frame)
    × (decode (frame ++ 9 ∷ []) ≡ ok (wire_form greeting))
decode-encode_example =
    decode-encode greeting greeting_bytes (9 ∷ []) greeting-Fits greeting_encodes (omega arith)

-- The text of the second child comes back as binary data.
greeting_wire :
    wire_form (node (codes "item") [] (text (codes "hello")))
    ≡ node (codes "item") [] (binary (codes "hello"))
unfolding wire_form token_index jid_parts
greeting_wire = refl

decode_terminates_example :
    (decode (0 ∷ 0 ∷ 0 ∷ 2 ∷ 0xF8 ∷ 5 ∷ []) ≢ err out_of_fuel)
    × (decode_raw (0 ∷ 0 ∷ 0 ∷ 2 ∷ 0xF8 ∷ 5 ∷ []) ≢ err out_of_fuel)
decode_terminates_example = decode_terminates (0 ∷ 0 ∷ 0 ∷ 2 ∷ 0xF8 ∷ 5 ∷ [])

encode_total_example :
    (buf : Bytes) × (frame : Bytes) × (encode_node greeting ≡ ok buf)
    × (encode greeting ≡ ok frame)
    × (length frame ≡ 4 + length buf)
encode_total_example = encode_total greeting

greeting_frame : encode greeting ≡ ok (0 ∷ 0 ∷ 0 ∷ 28 ∷ greeting_bytes)
unfolding encode token_index
greeting_frame = refl

decode-take-encode_example :
    decode (take 9 (0 ∷ 0 ∷ 0 ∷ 28 ∷ greeting_bytes)) ≡ err (frame_truncated 32 9)
decode-take-encode_example =
    decode-take-encode greeting (0 ∷ 0 ∷ 0 ∷ 28 ∷ greeting_bytes) 9 greeting_frame (omega arith)
      (omega arith)
