-- ===== src/Cursor/Codec.antt =====
-- The cursor encoding of keyset pages: encodeCursor and decodeCursor on the values of a row.
use filtrx.Base.{◌≡◌, refl, ap, some, List, [], ◌∷◌, map, Bytes}
use filtrx.Value.{Value, null, slice, int, uint, float, text, bool, time, bytes}
use filtrx.Cursor
use filtrx.Cursor.{Key, Wire, and_then, CursorElem, to_elems, encode_cursor, decode_cursor}
use filtrx.Cursor.RoundTrip.{Digits, AllReadable, ReadsJson, plain, decode_cursor-encode}
use filtrx.Seeking.{Codec}

-- The type switch of `toCursorElem` on a value that is no pointer and no Valuer.
unfoldable pub key_of_value : Value → Key
key_of_value null = Cursor.nil
key_of_value (int n) = Cursor.int n
key_of_value (uint n) = Cursor.uint n
key_of_value (float f) = Cursor.float f
key_of_value (text s) = Cursor.text s
key_of_value (bool b) = Cursor.bool b
key_of_value (time t) = Cursor.time t
key_of_value (bytes b) = Cursor.bytes b
key_of_value (slice vs) = Cursor.other_kind

-- A decoded value as `any`; a decoder gives none of the kinds in the last clauses.
unfoldable pub value_of_key : Key → Value
value_of_key (Cursor.time t) = time t
value_of_key (Cursor.bytes b) = bytes b
value_of_key (Cursor.int n) = int n
value_of_key (Cursor.uint n) = uint n
value_of_key (Cursor.float f) = float f
value_of_key (Cursor.text s) = text s
value_of_key (Cursor.bool b) = bool b
value_of_key (Cursor.pointer k) = value_of_key k
value_of_key (Cursor.valuer k) = value_of_key k
value_of_key _ = null

unfoldable pub cursor_codec : Wire → Codec
cursor_codec w = record {
  encode = λ vs. encode_cursor w (map key_of_value vs);
  decode = λ c. and_then (decode_cursor w c) (λ ks. some (map value_of_key ks));
}

-- A value that is no slice but of bytes comes back as it was.
abbrev pub Single : Value → Type 0
Single (slice vs) = ⊥
Single v = Unit

abbrev pub AllSingle : List Value → Type 0
AllSingle [] = Unit
AllSingle (v ∷ vs) = Single v × AllSingle vs

value_of_key-key : (v : Value) → Single v → value_of_key (plain (key_of_value v)) ≡ v
unfolding value_of_key key_of_value
value_of_key-key (slice vs) h = absurd h
value_of_key-key null h = refl
value_of_key-key (int n) h = refl
value_of_key-key (uint n) h = refl
value_of_key-key (float f) h = refl
value_of_key-key (text s) h = refl
value_of_key-key (bool b) h = refl
value_of_key-key (time t) h = refl
value_of_key-key (bytes b) h = refl

values_back :
    (vs : List Value) → AllSingle vs → map value_of_key (map plain (map key_of_value vs)) ≡ vs
values_back [] h = refl
values_back (v ∷ vs) (h, hs) = rw (value_of_key-key v h, values_back vs hs) refl

-- For values of the kinds that a cursor can carry, whose numbers, times and bytes are parsed from
-- their own text, and if base64 decodes what it encodes and JSON reads back the elements: the values
-- of a boundary row encode to a cursor, and keyset paging decodes this cursor to exactly these values.
pub cursor_codec-decode :
    (w : Wire) (d : Digits) (vs : List Value)
    → AllSingle vs
    → AllReadable w d (map key_of_value vs)
    → ((raw : Bytes) → w.url_decode (w.url_encode raw) ≡ some raw)
    → ((es : List CursorElem) → to_elems w (map key_of_value vs) ≡ some es → ReadsJson w d es)
    → (c : Bytes) × ((cursor_codec w).encode vs ≡ some c) × ((cursor_codec w).decode c ≡ some vs)
unfolding cursor_codec and_then
cursor_codec-decode w d vs single readable base64 json =
    let (c, encoded, decoded) =
      decode_cursor-encode w d (map key_of_value vs) readable base64 json in
    (c, encoded, rw decoded (ap some (values_back vs single)))
