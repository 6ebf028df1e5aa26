-- ===== src/Cursor.antt =====
-- keyset.go: the cursor codec. JSON, base64 and the formats of numbers and times are parameters.
pub mod RoundTrip
pub mod Codec
use filtrx.Base.{ℕ, Bool, Option, none, some, List, [], ◌∷◌, Bytes, codes, if◌then◌else◌}
use filtrx.Base.Compare.{bytes_eq}
use filtrx.Base.Int.{ℤ}

-- A key value as `toCursorElem` tells it apart, its tests in order. A float is its bit pattern, a
-- time an abstract instant; a Valuer has the value that it gives, none, or an error.
pub data Key : Type 0 where
  nil : Key
  time : ℕ → Key
  bytes : Bytes → Key
  nil_pointer : Key
  pointer : Key → Key
  valuer_error : Key
  valuer_nil : Key
  valuer : Key → Key
  int : ℤ → Key
  uint : ℕ → Key
  float : ℕ → Key
  text : Bytes → Key
  bool : Bool → Key
  other_kind : Key

-- What is put into an element: one of the types that json.Marshal is given.
pub data Payload : Type 0 where
  no_payload : Payload
  int_payload : ℤ → Payload
  uint_payload : ℕ → Payload
  float_payload : ℕ → Payload
  string_payload : Bytes → Payload
  bool_payload : Bool → Payload

pub record CursorElem : Type 0 where
  pub t : Bytes
  pub v : Payload

-- What the decoder finds in an element: a json.Number is its text.
pub data Json : Type 0 where
  number : Bytes → Json
  string : Bytes → Json
  boolean : Bool → Json
  other_json : Json

pub record JsonElem : Type 0 where
  pub t : Bytes
  pub v : Json

-- encoding/json with UseNumber, encoding/base64, and the parsing of strconv and time.
pub record Wire : Type 0 where
  pub marshal : List CursorElem → Option Bytes
  pub unmarshal : Bytes → Option (List JsonElem)
  pub url_encode : Bytes → Bytes
  pub url_decode : Bytes → Option Bytes
  pub std_encode : Bytes → Bytes
  pub std_decode : Bytes → Option Bytes
  pub format_time : ℕ → Bytes
  pub parse_time : Bytes → Option ℕ
  pub parse_int : Bytes → Option ℤ
  pub parse_uint : Bytes → Option ℕ
  pub parse_float : Bytes → Option ℕ

unfoldable pub and_then {ℓ k} : {A : Type ℓ} {B : Type k} → Option A → (A → Option B) → Option B
and_then none f = none
and_then (some a) f = f a

abbrev pub elem : Bytes → Payload → CursorElem
elem t v = record { t = t; v = v }

module _ (w : Wire) where
  -- `toCursorElem`
  unfoldable pub to_cursor_elem : Key → Option CursorElem
  to_cursor_elem nil = some (elem (codes "0") no_payload)
  to_cursor_elem (time t) = some (elem (codes "t") (string_payload (w.format_time t)))
  to_cursor_elem (bytes b) = some (elem (codes "x") (string_payload (w.std_encode b)))
  to_cursor_elem nil_pointer = some (elem (codes "0") no_payload)
  to_cursor_elem (pointer k) = to_cursor_elem k
  to_cursor_elem valuer_error = none
  to_cursor_elem valuer_nil = some (elem (codes "0") no_payload)
  to_cursor_elem (valuer k) = to_cursor_elem k
  to_cursor_elem (int n) = some (elem (codes "i") (int_payload n))
  to_cursor_elem (uint n) = some (elem (codes "u") (uint_payload n))
  to_cursor_elem (float f) = some (elem (codes "f") (float_payload f))
  to_cursor_elem (text s) = some (elem (codes "s") (string_payload s))
  to_cursor_elem (bool b) = some (elem (codes "b") (bool_payload b))
  to_cursor_elem other_kind = none

  -- The loop of `encodeCursor`.
  unfoldable pub to_elems : List Key → Option (List CursorElem)
  to_elems [] = some []
  to_elems (k ∷ ks) =
      let rest = to_elems ks in
      and_then (to_cursor_elem k) (λ e. and_then rest (λ es. some (e ∷ es)))

  -- `encodeCursor`
  unfoldable pub encode_cursor : List Key → Option Bytes
  encode_cursor ks =
      and_then (to_elems ks) (λ es. and_then (w.marshal es) (λ raw. some (w.url_encode raw)))

  unfoldable pub int_elem : Json → Option Key
  int_elem (number s) = and_then (w.parse_int s) (λ n. some (int n))
  int_elem _ = none

  unfoldable pub uint_elem : Json → Option Key
  uint_elem (number s) = and_then (w.parse_uint s) (λ n. some (uint n))
  uint_elem _ = none

  unfoldable pub float_elem : Json → Option Key
  float_elem (number s) = and_then (w.parse_float s) (λ f. some (float f))
  float_elem _ = none

  unfoldable pub text_elem : Json → Option Key
  text_elem (string s) = some (text s)
  text_elem _ = none

  unfoldable pub bool_elem : Json → Option Key
  bool_elem (boolean b) = some (bool b)
  bool_elem _ = none

  unfoldable pub time_elem : Json → Option Key
  time_elem (string s) = and_then (w.parse_time s) (λ t. some (time t))
  time_elem _ = none

  unfoldable pub bytes_elem : Json → Option Key
  bytes_elem (string s) = and_then (w.std_decode s) (λ b. some (bytes b))
  bytes_elem _ = none

  -- `fromCursorElem`
  unfoldable pub from_cursor_elem : Bytes → Json → Option Key
  from_cursor_elem t v =
      if bytes_eq t (codes "0")
      then some nil
      else if bytes_eq t (codes "i")
      then int_elem v
      else if bytes_eq t (codes "u")
      then uint_elem v
      else if bytes_eq t (codes "f")
      then float_elem v
      else if bytes_eq t (codes "s")
      then text_elem v
      else if bytes_eq t (codes "b")
      then bool_elem v
      else if bytes_eq t (codes "t")
      then time_elem v
      else if bytes_eq t (codes "x")
      then bytes_elem v
      else none

  -- The loop of `decodeCursor`.
  unfoldable pub from_elems : List JsonElem → Option (List Key)
  from_elems [] = some []
  from_elems (e ∷ es) =
      let rest = from_elems es in
      and_then (from_cursor_elem e.t e.v) (λ k. and_then rest (λ ks. some (k ∷ ks)))

  -- `decodeCursor`
  unfoldable pub decode_cursor : Bytes → Option (List Key)
  decode_cursor c = and_then (w.url_decode c) (λ raw. and_then (w.unmarshal raw) from_elems)
