-- ===== src/Tests/Tokens.antt =====
-- The cursor codec on a key with a NULL, a large integer behind a pointer, and a text.
use mathlib.Core.Option
use filtrx.Base.{◌≡◌, refl, ap, Option, none, some, List, [], ◌∷◌, map, Bytes, codes}
use filtrx.Base.Int.{ℤ, pos}
use filtrx.Cursor.{
  Key, nil, nil_pointer, pointer, int, text, number, string, other_json, JsonElem, Wire, to_elems,
  to_cursor_elem, encode_cursor, decode_cursor, and_then,
}
use filtrx.Cursor.RoundTrip.{Digits, json_elem, decode_cursor-encode}
use filtrx.Running.{running}

abbrev keys : List Key
keys = pointer (int (pos 9007199254740993)) ∷ nil_pointer ∷ text (codes "b") ∷ []

abbrev read_large : Bytes → Option ℤ
read_large (n ∷ []) = some (pos n)
read_large _ = none

abbrev digits : Digits
digits = record {
  int_text = λ n. 9007199254740993 ∷ [];
  uint_text = λ n. n ∷ [];
  float_text = λ n. n ∷ [];
}

abbrev elems_read : List JsonElem
elems_read =
    record { t = codes "i"; v = number (9007199254740993 ∷ []) }
    ∷ record { t = codes "0"; v = other_json }
    ∷ record { t = codes "s"; v = string (codes "b") }
    ∷ []

abbrev wire : Wire
wire = record {
  marshal = λ es. some (codes "json");
  unmarshal = λ raw. some elems_read;
  url_encode = λ raw. raw;
  url_decode = λ c. some c;
  std_encode = λ b. b;
  std_decode = λ s. some s;
  format_time = λ t. t ∷ [];
  parse_time = λ s. none;
  parse_int = read_large;
  parse_uint = λ s. none;
  parse_float = λ s. none;
}

decode_cursor-encode_example :
    (c : Bytes) × (encode_cursor wire keys ≡ some c)
    × (decode_cursor wire c ≡ some (int (pos 9007199254740993) ∷ nil ∷ text (codes "b") ∷ []))
unfolding running to_elems to_cursor_elem and_then
decode_cursor-encode_example =
    decode_cursor-encode wire digits keys (refl, (tt, (tt, tt))) (λ raw. refl)
      (λ es h. (codes "json", refl, ap (Option.map (map (json_elem digits))) h))
