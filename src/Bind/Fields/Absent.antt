-- ===== src/Bind/Fields/Absent.antt =====
-- bind.go: a parameter that is not there, and a value that is there for a field.
use filtrx.Base.{
  ◌≡◌, refl, ap, Bool, true, false, none, some, List, [], Bytes, if◌then◌else◌, Bool-cases, inl,
  inr,
}
use filtrx.Base.Compare.{bytes_eq}
use filtrx.Holders.{Opt}
use filtrx.Value.{Value}
use filtrx.Bind.{UrlValues, first_of, first_value, list_values, list_entries}
use filtrx.Bind.Fields.{
  ScalarType, Parsers, Run, Cell, opt_cell, or_alias, bind_slice, slice_values, panicked, bad_value,
  parse_scalar, set_string, opt_run,
}

-- What a value of the query string makes of a field: an exported Opt takes the parsed value and is set,
-- keeps what the parser leaves and its mark where the value is not parsed; anything else is a fault.
abbrev pub filled : Parsers → Bytes → Bytes → Bool → Cell → Run Cell
filled ps key raw false c = (c, some panicked)
filled ps key raw true (opt_cell t o) =
    let (v, fine) = parse_scalar ps t raw o.val in
    if fine
    then (opt_cell t (record { val = v; set = true }), none)
    else (opt_cell t (record { val = v; set = o.set }), some (bad_value key))
filled ps key raw true c = (c, some (bad_value key))

pub opt_run-filled :
    (ps : Parsers) (key raw : Bytes) (t : ScalarType) (o : Opt Value)
    → opt_run ps t key (set_string ps t o raw) ≡ filled ps key raw true (opt_cell t o)
unfolding opt_run set_string
opt_run-filled ps key raw t o = elim (Bool-cases (parse_scalar ps t raw o.val).1) [
  | inl e ↦ rw e refl
  | inr e ↦ rw e refl
]

module _ (ps : Parsers) (values : UrlValues) where
  pub list_values-absent : (k : Bytes) → values k ≡ none → list_values ps.strings values k ≡ []
  unfolding list_values
  list_values-absent k h =
      ap
        (λ o.
          let out : List Bytes = elim o [ none ↦ [] | some vs ↦ list_entries ps.strings vs ] in out)
        h

  pub bind_slice-absent :
      (key : Bytes) (exported : Bool) (t : ScalarType) (vs : List Value)
      → values key ≡ none
      → bind_slice ps values key exported t vs key ≡ (vs, none)
  unfolding bind_slice or_alias slice_values
  bind_slice-absent key exported t vs h = elim (Bool-cases (bytes_eq key key)) [
    | inl e ↦ rw (list_values-absent key h, e) refl
    | inr e ↦ rw (list_values-absent key h, e, list_values-absent key h) refl
  ]

  pub first_value-absent : (k : Bytes) → values k ≡ none → first_value values k ≡ none
  unfolding first_value first_of
  first_value-absent k h = ap first_of h
