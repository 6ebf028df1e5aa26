-- ===== src/Tests/Carrying.antt =====
-- opt.go on a text Opt, with a JSON encoding that puts the text between quotes.
use filtrx.Base.{◌≡◌, refl, Bool, true, false, Option, none, some, [], ◌∷◌, Bytes, codes}
use filtrx.Value.{Value, text}
use filtrx.Holders.{Opt}
use filtrx.Holders.Optional.{Json, Boxed, some_opt, none_opt, get, or_default}

abbrev quote_text : Bytes → Option Bytes
quote_text s = some (b'"' ∷ s)

abbrev read_text : Bytes → Bytes → Bytes × Bool
read_text [] w = (w, false)
read_text (c ∷ s) w = (s, true)

abbrev text_json : Json Bytes
text_json = record { marshal = quote_text; unmarshal = read_text; trim_space = λ s. s }

abbrev as_text : Value → Option Bytes
as_text (text s) = some s
as_text _ = none

abbrev text_boxed : Boxed Bytes
text_boxed = record { box = text; unbox = as_text }

abbrev paid : Opt Bytes
paid = record { val = codes "paid"; set = true }

abbrev absent_text : Opt Bytes
absent_text = record { val = []; set = false }

read_or :
    (get (some_opt (codes "a")) ≡ (codes "a", true))
    × (or_default (none_opt []) (codes "b") ≡ codes "b")
unfolding get some_opt none_opt or_default
read_or = (refl, refl)
