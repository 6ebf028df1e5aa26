-- ===== src/Bind/Fields/Filled.antt =====
-- A holder written as a query string and bound.
use filtrx.Base.{
  ◌≡◌, refl, ap, sym, Bool, true, false, ◌||◌, Option, none, some, List, [], ◌∷◌, map, Bytes, codes,
  split, is_empty, if◌then◌else◌, Bool-cases, ◌⊎◌, inl, inr,
}
use filtrx.Base.Compare.{bytes_eq}
use filtrx.Value.{Value}
use filtrx.Holders.{Opt}
use filtrx.Bind.{UrlValues, first_of, first_value, list_values, list_entries, list_parts}
use filtrx.Bind.Fields.{
  holder_run, bind_holder, holder_struct, ScalarType, Parsers, Run, Cell, opt_cell, slice_cell,
  other_cell, SubField, each_until, keep_going, with_cell, json_name, or_alias, bind_slice, or_bare,
  set_if, op_key, bind_cell, bind_sub, slice_values, slice_run, zero_of, parse_scalar, set_string,
  opt_run, set_scalar, cons_parsed, parse_all, set_slice,
}

module _ (ps : Parsers) (show : ScalarType → Value → Bytes) where
  -- The parameter's values that spell a cell, none where it is unset.
  abbrev pub spelled : Cell → Option (List Bytes)
  spelled (opt_cell t o) = if o.set then some (show t o.val ∷ []) else none
  spelled (slice_cell t []) = none
  spelled (slice_cell t (v ∷ vs)) = some (map (show t) (v ∷ vs))
  spelled other_cell = none

  -- The cell before anything is bound.
  abbrev pub blank : Cell → Cell
  blank (opt_cell t o) = opt_cell t (record { val = zero_of ps t; set = false })
  blank (slice_cell t vs) = slice_cell t []
  blank other_cell = other_cell

  abbrev pub blank_sub : SubField → SubField
  blank_sub sf = record sf { cell = blank sf.cell }

  abbrev pub Reads : ScalarType → Value → Type 0
  Reads t v = (before : Value) → parse_scalar ps t (show t v) before ≡ (v, true)

  -- A value of a list is spelled without a comma or spaces around it, and not empty.
  abbrev pub ReadsPart : ScalarType → Value → Type 0
  ReadsPart t v =
      Reads t v
      × (split b',' (show t v) ≡ show t v ∷ [])
      × (ps.strings.trim_space (show t v) ≡ show t v)
      × (is_empty (show t v) ≡ false)

  abbrev pub ReadsParts : ScalarType → List Value → Type 0
  ReadsParts t [] = Unit
  ReadsParts t (v ∷ vs) = ReadsPart t v × ReadsParts t vs

  -- The values of the cell are read back, and an unset Opt holds the zero value.
  abbrev pub ReadsCell : Cell → Type 0
  ReadsCell (opt_cell t o) = (o.set ≡ true → Reads t o.val) × (o.set ≡ false → o.val ≡ zero_of ps t)
  ReadsCell (slice_cell t vs) = ReadsParts t vs
  ReadsCell other_cell = Unit

  list_entries-shown :
      (t : ScalarType) (vs : List Value)
      → ReadsParts t vs
      → list_entries ps.strings (map (show t) vs) ≡ map (show t) vs
  unfolding list_entries list_parts
  list_entries-shown t [] h = refl
  list_entries-shown t (v ∷ vs) ((reads, single, trimmed, full), hs) =
      rw (single, trimmed, full, list_entries-shown t vs hs) refl

  parse_all-shown :
      (t : ScalarType) (vs : List Value)
      → ReadsParts t vs
      → parse_all ps t (map (show t) vs) ≡ some vs
  unfolding parse_all cons_parsed
  parse_all-shown t [] h = refl
  parse_all-shown t (v ∷ vs) ((reads, single, trimmed, full), hs) =
      rw (reads (zero_of ps t), parse_all-shown t vs hs) refl

  same_opt :
      (t : ScalarType) (o p : Opt Value)
      → o.val ≡ p.val
      → o.set ≡ p.set
      → opt_cell t o ≡ opt_cell t p
  same_opt t o p h k = cc

  abbrev done_run : Cell → Run Cell
  done_run c = (c, none)

  done_cell : (c d : Cell) → c ≡ d → done_run c ≡ done_run d
  done_cell c d h = ap done_run h

  set_if-shown :
      (t : ScalarType) (o b : Opt Value) (key : Bytes)
      → Reads t o.val
      → o.set ≡ true
      → set_if ps true (opt_cell t b) key (some (show t o.val)) ≡ (opt_cell t o, none)
  unfolding set_if set_scalar opt_run set_string
  set_if-shown t o b key reads there = rw (reads b.val) (
      done_cell (opt_cell t (record { val = o.val; set = true })) (opt_cell t o)
        (same_opt t (record { val = o.val; set = true }) o refl (sym there)))

  or_bare-none : (is_eq : Bool) → or_bare ps none is_eq none ≡ none
  unfolding or_bare
  or_bare-none true = refl
  or_bare-none false = refl

  slice_values-shown :
      (t : ScalarType) (v : Value) (vs : List Value) (key : Bytes)
      → ReadsParts t (v ∷ vs)
      → slice_values ps true t [] key (map (show t) (v ∷ vs)) ≡ (v ∷ vs, none)
  unfolding slice_values
  slice_values-shown t v vs key h = rw (parse_all-shown t (v ∷ vs) h) (unfold set_slice in refl)

  module _ (values : UrlValues) where
    first_value-of :
        (k : Bytes) (vs : Option (List Bytes)) → values k ≡ vs → first_value values k ≡ first_of vs
    unfolding first_value
    first_value-of k vs h = ap first_of h

    list_values-of :
        (k : Bytes) (vs : Option (List Bytes))
        → values k ≡ vs
        → list_values ps.strings values k ≡ (
            let out : List Bytes = elim vs [ none ↦ [] | some us ↦ list_entries ps.strings us ] in
            out)
    unfolding list_values
    list_values-of k vs h =
        ap
          (λ o.
            let out : List Bytes = elim o [ none ↦ [] | some us ↦ list_entries ps.strings us ] in
            out)
          h

    bind_slice-spelled :
        (key : Bytes) (t : ScalarType) (vs : List Value)
        → values key ≡ spelled (slice_cell t vs)
        → ReadsParts t vs
        → bind_slice ps values key true t [] key ≡ (vs, none)
    unfolding bind_slice or_alias
    bind_slice-spelled key t [] given reads = elim (Bool-cases (bytes_eq key key)) [
      | inl e ↦ rw (list_values-of key none given, e) (unfold slice_values in refl)
      | inr e ↦
          rw (list_values-of key none given, e, list_values-of key none given)
            (unfold slice_values in refl)
    ]
    bind_slice-spelled key t (v ∷ vs) given reads =
        rw (list_values-of key _ given, list_entries-shown t (v ∷ vs) reads)
          (slice_values-shown t v vs key reads)

    bind_cell-spelled :
        (wire opword : Bytes) (c : Cell)
        → values wire ≡ none
        → values (op_key wire opword) ≡ spelled c
        → ReadsCell c
        → bind_cell ps values wire opword true (blank c) ≡ (c, none)
    unfolding bind_cell
    bind_cell-spelled wire opword (slice_cell t vs) bare given reads =
        rw (bind_slice-spelled (op_key wire opword) t vs given reads) (unfold slice_run in refl)
    bind_cell-spelled wire opword (opt_cell t o) bare given (back, zero) = elim (Bool-cases o.set) [
      | inl there ↦
          rw (first_value-of (op_key wire opword) (some (show t o.val ∷ [])) (rw there at given)) (
            unfold first_of or_bare in
            set_if-shown t o (record { val = zero_of ps t; set = false }) (op_key wire opword)
              (back there) there)
      | inr absent ↦
          rw
            (
              first_value-of (op_key wire opword) none (rw absent at given),
              first_value-of wire none bare,
            )
            (unfold first_of in
              rw (or_bare-none (bytes_eq opword (codes "eq"))) (
                unfold set_if in
                done_cell _ _ (
                  same_opt t (record { val = zero_of ps t; set = false }) o (sym (zero absent))
                    (sym absent))))
    ]
    bind_cell-spelled wire opword other_cell bare given reads =
        rw (first_value-of (op_key wire opword) none given, first_value-of wire none bare)
          (unfold first_of in
            rw (or_bare-none (bytes_eq opword (codes "eq"))) (unfold set_if in refl))

    abbrev skipped : SubField → Bool
    skipped sf = is_empty (json_name sf.info) || bytes_eq (json_name sf.info) (codes "-")

    -- A field without an operator word is as it was; the parameter of another spells its cell.
    abbrev pub SpelledSub : Bytes → SubField → Type 0
    SpelledSub wire sf =
        ((skipped sf ≡ true) × (blank sf.cell ≡ sf.cell))
        ⊎ ((skipped sf ≡ false)
            × (sf.info.exported ≡ true)
            × (values (op_key wire (json_name sf.info)) ≡ spelled sf.cell)
            × ReadsCell sf.cell)

    abbrev pub SpelledSubs : Bytes → List SubField → Type 0
    SpelledSubs wire [] = Unit
    SpelledSubs wire (sf ∷ sfs) = SpelledSub wire sf × SpelledSubs wire sfs

    abbrev sub_run : SubField → Run SubField
    sub_run sf = (sf, none)

    same_sub :
        (sf : SubField) (c : Cell) → c ≡ sf.cell → sub_run (record sf { cell = c }) ≡ sub_run sf
    same_sub sf c h = ap (λ d. let out : SubField = record sf { cell = d } in sub_run out) h

    bind_exported :
        (wire opword : Bytes) (c d : Cell) (exported : Bool)
        → exported ≡ true
        → bind_cell ps values wire opword true c ≡ (d, none)
        → bind_cell ps values wire opword exported c ≡ (d, none)
    bind_exported wire opword c d true h k = k
    bind_exported wire opword c d false h k = absurd (cc)

    bind_sub-spelled :
        (wire : Bytes) (sf : SubField)
        → values wire ≡ none
        → SpelledSub wire sf
        → bind_sub ps values wire (blank_sub sf) ≡ (sf, none)
    unfolding bind_sub
    bind_sub-spelled wire sf bare (inl (skip, same)) = rw skip (same_sub sf (blank sf.cell) same)
    bind_sub-spelled wire sf bare (inr (word, exported, given, reads)) =
        rw
          (
            word,
            bind_exported wire (json_name sf.info) (blank sf.cell) sf.cell sf.info.exported exported
                (bind_cell-spelled wire (json_name sf.info) sf.cell bare given reads),
          )
          (unfold with_cell in refl)

    each_until-spelled :
        (wire : Bytes) (sfs : List SubField)
        → values wire ≡ none
        → SpelledSubs wire sfs
        → each_until (bind_sub ps values wire) (map blank_sub sfs) ≡ (sfs, none)
    unfolding each_until
    each_until-spelled wire [] bare h = refl
    each_until-spelled wire (sf ∷ sfs) bare (h, hs) =
        rw (bind_sub-spelled wire sf bare h, each_until-spelled wire sfs bare hs)
          (unfold keep_going in refl)

    -- Let a query string have no parameter with the bare wire name, and for each field of a holder that
    -- has an operator word give under the wire name and this word the field's values, spelled so that
    -- they are parsed to themselves, a list's without commas or outer spaces, and nothing for an unset
    -- Opt or an empty list. Then binding the blank holder gives back exactly the holder, with no error.
    pub bind_holder-spelled :
        (wire : Bytes) (sfs : List SubField)
        → values wire ≡ none
        → SpelledSubs wire sfs
        → bind_holder ps values wire (holder_struct (map blank_sub sfs)) ≡ (holder_struct sfs, none)
    unfolding bind_holder
    bind_holder-spelled wire sfs bare h =
        rw (each_until-spelled wire sfs bare h) (unfold holder_run in refl)
