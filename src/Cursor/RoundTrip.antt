-- ===== src/Cursor/RoundTrip.antt =====
-- A cursor read back gives the key values that it was made of.
use filtrx.Base.{ℕ, ◌≡◌, refl, some, List, [], ◌∷◌, map, Bytes, codes}
use filtrx.Base.Compare.{bytes_eq}
use filtrx.Base.Int.{ℤ}
use filtrx.Cursor.{
  Key, nil, time, bytes, nil_pointer, pointer, valuer_error, valuer_nil, valuer, int, uint, float,
  text, bool, other_kind, Payload, no_payload, int_payload, uint_payload, float_payload,
  string_payload, bool_payload, CursorElem, Json, number, string, boolean, other_json, JsonElem,
  Wire, and_then, to_cursor_elem, to_elems, encode_cursor, int_elem, uint_elem, float_elem,
  text_elem, bool_elem, time_elem, bytes_elem, from_cursor_elem, from_elems, decode_cursor,
}

-- How json.Marshal writes numbers.
pub record Digits : Type 0 where
  pub int_text : ℤ → Bytes
  pub uint_text : ℕ → Bytes
  pub float_text : ℕ → Bytes

-- What a decoder with UseNumber makes of a payload.
abbrev pub json_of : Digits → Payload → Json
json_of d no_payload = other_json
json_of d (int_payload n) = number (d.int_text n)
json_of d (uint_payload n) = number (d.uint_text n)
json_of d (float_payload f) = number (d.float_text f)
json_of d (string_payload s) = string s
json_of d (bool_payload b) = boolean b

abbrev pub json_elem : Digits → CursorElem → JsonElem
json_elem d e = record { t = e.t; v = json_of d e.v }

-- A key without its pointers and Valuers; an absent value is NULL.
abbrev pub plain : Key → Key
plain nil_pointer = nil
plain valuer_nil = nil
plain (pointer k) = plain k
plain (valuer k) = plain k
plain k = k

module _ (w : Wire) (d : Digits) where
  -- A key of a kind that can be encoded, whose number, time or bytes are parsed from their own text.
  abbrev pub Readable : Key → Type 0
  Readable nil = Unit
  Readable (time t) = w.parse_time (w.format_time t) ≡ some t
  Readable (bytes b) = w.std_decode (w.std_encode b) ≡ some b
  Readable nil_pointer = Unit
  Readable (pointer k) = Readable k
  Readable valuer_error = ⊥
  Readable valuer_nil = Unit
  Readable (valuer k) = Readable k
  Readable (int n) = w.parse_int (d.int_text n) ≡ some n
  Readable (uint n) = w.parse_uint (d.uint_text n) ≡ some n
  Readable (float f) = w.parse_float (d.float_text f) ≡ some f
  Readable (text s) = Unit
  Readable (bool b) = Unit
  Readable other_kind = ⊥

  abbrev pub AllReadable : List Key → Type 0
  AllReadable [] = Unit
  AllReadable (k ∷ ks) = Readable k × AllReadable ks

  from_cursor_elem-to :
      (k : Key)
      → Readable k
      → (e : CursorElem) × (to_cursor_elem w k ≡ some e)
        × (from_cursor_elem w e.t (json_of d e.v) ≡ some (plain k))
  unfolding to_cursor_elem from_cursor_elem bytes_eq codes int_elem uint_elem float_elem text_elem
      bool_elem time_elem bytes_elem and_then
  from_cursor_elem-to nil h = (_, refl, refl)
  from_cursor_elem-to (time t) h = (_, refl, rw h refl)
  from_cursor_elem-to (bytes b) h = (_, refl, rw h refl)
  from_cursor_elem-to nil_pointer h = (_, refl, refl)
  from_cursor_elem-to (pointer k) h = from_cursor_elem-to k h
  from_cursor_elem-to valuer_nil h = (_, refl, refl)
  from_cursor_elem-to (valuer k) h = from_cursor_elem-to k h
  from_cursor_elem-to (int n) h = (_, refl, rw h refl)
  from_cursor_elem-to (uint n) h = (_, refl, rw h refl)
  from_cursor_elem-to (float f) h = (_, refl, rw h refl)
  from_cursor_elem-to (text s) h = (_, refl, refl)
  from_cursor_elem-to (bool b) h = (_, refl, refl)
  from_cursor_elem-to valuer_error h = elim h [ ]
  from_cursor_elem-to other_kind h = elim h [ ]

  abbrev pub Restored : List Key → Type 0
  Restored ks =
      (es : List CursorElem) × (to_elems w ks ≡ some es)
      × (from_elems w (map (json_elem d) es) ≡ some (map plain ks))

  Restored-cons :
      (k : Key) (ks : List Key) (e : CursorElem) (es : List CursorElem)
      → to_cursor_elem w k ≡ some e
      → from_cursor_elem w e.t (json_of d e.v) ≡ some (plain k)
      → to_elems w ks ≡ some es
      → from_elems w (map (json_elem d) es) ≡ some (map plain ks)
      → Restored (k ∷ ks)
  unfolding to_elems from_elems
  Restored-cons k ks e es to from tos froms =
      (e ∷ es, rw (tos, to) (unfold and_then in refl), rw (froms, from) (unfold and_then in refl))

  from_elems-to : (ks : List Key) → AllReadable ks → Restored ks
  from_elems-to [] h = unfold to_elems from_elems in ([], refl, refl)
  from_elems-to (k ∷ ks) (h, hs) =
      let (e, to, from) = from_cursor_elem-to k h in
      let (es, tos, froms) = from_elems-to ks hs in Restored-cons k ks e es to from tos froms

  -- JSON reads back the elements of a cursor.
  abbrev pub ReadsJson : List CursorElem → Type 0
  ReadsJson es =
      (raw : Bytes) × (w.marshal es ≡ some raw) × (w.unmarshal raw ≡ some (map (json_elem d) es))

  -- For keys of kinds that can be encoded, whose numbers, times and bytes are parsed from their own
  -- text, and if base64 decodes what it encodes and JSON reads back the elements, the keys encode to
  -- a cursor, and that cursor decodes to the same values, in order and with their types, where a
  -- pointer or a Valuer is the value behind it and an absent one is NULL.
  pub decode_cursor-encode :
      (ks : List Key)
      → AllReadable ks
      → ((raw : Bytes) → w.url_decode (w.url_encode raw) ≡ some raw)
      → ((es : List CursorElem) → to_elems w ks ≡ some es → ReadsJson es)
      → (c : Bytes) × (encode_cursor w ks ≡ some c) × (decode_cursor w c ≡ some (map plain ks))
  unfolding encode_cursor decode_cursor
  decode_cursor-encode ks h base64 json =
      let (es, tos, froms) = from_elems-to ks h in
      let (raw, marshalled, read) = json es tos in
      (
        w.url_encode raw,
        rw tos (unfold and_then in rw marshalled (unfold and_then in refl)),
        rw (base64 raw) (unfold and_then in rw read (unfold and_then in froms)),
      )
