-- ===== src/Holders/Optional.antt =====
-- opt.go: the methods of Opt. The JSON encoding of a T, the trimming of JSON text, the conversion of
-- a T to `any` and the type assertion back are parameters.
pub mod Carried
use filtrx.Base.{Bool, true, false, Option, none, some, List, [], ◌∷◌, Bytes, codes, if◌then◌else◌}
use filtrx.Base.Compare.{bytes_eq}
use filtrx.Value.{Value, null}
use filtrx.Holders.{Opt}

-- encoding/json on a T: an error is none, and decoding starts from the value that is there and may
-- change it before it fails; bytes.TrimSpace.
pub record Json {ℓ} (T : Type ℓ) : Type ℓ where
  pub marshal : T → Option Bytes
  pub unmarshal : Bytes → T → T × Bool
  pub trim_space : Bytes → Bytes

-- A T as `any`, and the assertion `src.(T)`.
pub record Boxed {ℓ} (T : Type ℓ) : Type ℓ where
  pub box : T → Value
  pub unbox : Value → Option T

-- v == nil
unfoldable pub is_nil_value : Value → Bool
is_nil_value null = true
is_nil_value _ = false

module _ {ℓ} {T : Type ℓ} where
  -- `Some`
  unfoldable pub some_opt : T → Opt T
  some_opt v = record { val = v; set = true }

  -- `None`, with the zero value of T.
  unfoldable pub none_opt : T → Opt T
  none_opt zero_val = record { val = zero_val; set = false }

  -- `Get`
  unfoldable pub get : Opt T → T × Bool
  get o = (o.val, o.set)

  -- `IsSet`, and `isSet` for the compiler.
  unfoldable pub is_set : Opt T → Bool
  is_set o = o.set

  -- `Or`
  unfoldable pub or_default : Opt T → T → T
  or_default o def = if o.set then o.val else def

  -- `value`
  unfoldable pub value : Boxed T → Opt T → Value
  value b o = b.box o.val

  -- `MarshalJSON`
  unfoldable pub marshal_json : Json T → Opt T → Option Bytes
  marshal_json j o = if o.set then j.marshal o.val else some (codes "null")

  -- The end of `UnmarshalJSON`, behind json.Unmarshal.
  unfoldable pub unmarshalled : Bool → T × Bool → Opt T × Bool
  unmarshalled before (v, true) = (record { val = v; set = true }, true)
  unmarshalled before (v, false) = (record { val = v; set = before }, false)

  -- `UnmarshalJSON`: the Opt after it, and whether there was no error.
  unfoldable pub unmarshal_json : Json T → Bytes → Opt T → Opt T × Bool
  unmarshal_json j b o =
      if bytes_eq (j.trim_space b) (codes "null")
      then (record o { set = false }, true)
      else unmarshalled o.set (j.unmarshal b o.val)

  unfoldable pub scan_value : Option T → Opt T → Opt T × Bool
  scan_value none o = (o, false)
  scan_value (some v) o = (record { val = v; set = true }, true)

  -- `Scan`
  unfoldable pub scan : Boxed T → Value → Opt T → Opt T × Bool
  scan b src o =
      if is_nil_value src then (record o { set = false }, true) else scan_value (b.unbox src) o

  -- `Value`, which has no error.
  unfoldable pub driver_value : Boxed T → Opt T → Value
  driver_value b o = if o.set then b.box o.val else null
