-- ===== src/Bind/Fields/Bare.antt =====
-- A holder that is given its bare name only.
use filtrx.Base.{
  ◌≡◌, refl, ap, sym, ◌∙◌, Bool, true, false, ◌||◌, none, some, List, [], ◌∷◌, Bytes, codes,
  is_empty, if◌then◌else◌, Bool-cases, inl, inr,
}
use filtrx.Base.Compare.{bytes_eq, bytes_eq_sound, bytes_eq_refl}
use filtrx.Bind.{UrlValues, first_of, first_value}
use filtrx.Bind.Fields.Absent.{filled, opt_run-filled, bind_slice-absent, first_value-absent}
use filtrx.Bind.Fields.{
  Parsers, Run, Cell, opt_cell, slice_cell, other_cell, SubField, each_until, keep_going, with_cell,
  json_name, or_bare, set_if, op_key, bind_cell, bind_sub, slice_run, set_scalar,
}

-- No parameter has the wire name with an operator word.
abbrev pub OnlyBare : UrlValues → Bytes → List SubField → Type 0
OnlyBare values wire [] = Unit
OnlyBare values wire (sf ∷ sfs) =
    (values (op_key wire (json_name sf.info)) ≡ none) × OnlyBare values wire sfs

abbrev is_list : Cell → Bool
is_list (slice_cell t vs) = true
is_list c = false

-- The field is no list, and its operator is equality.
abbrev pub takes_bare : SubField → Bool
takes_bare sf = if is_list sf.cell then false else bytes_eq (json_name sf.info) (codes "eq")

-- Every other field is as before.
abbrev pub Kept : List SubField → List SubField → Type 0
Kept [] [] = Unit
Kept (sf ∷ sfs) (out ∷ outs) = (takes_bare sf ≡ false → out ≡ sf) × Kept sfs outs
Kept sfs outs = ⊥

Kept-refl : (sfs : List SubField) → Kept sfs sfs
Kept-refl [] = tt
Kept-refl (sf ∷ sfs) = ((λ h. refl), Kept-refl sfs)

keep_going-Kept :
    (sf : SubField) (sfs : List SubField) (r : Run SubField) (rest : Run (List SubField))
    → (takes_bare sf ≡ false → r.0 ≡ sf)
    → Kept sfs rest.0
    → Kept (sf ∷ sfs) (keep_going r sfs rest).0
unfolding keep_going
keep_going-Kept sf sfs (out, none) rest h k = (h, k)
keep_going-Kept sf sfs (out, some e) rest h k = (h, Kept-refl sfs)

if-kept :
    (b : Bool) (sf : SubField) (r s : Run SubField)
    → r.0 ≡ sf
    → s.0 ≡ sf
    → (if b then r else s).0 ≡ sf
if-kept true sf r s h k = h
if-kept false sf r s h k = k

if-same : (b : Bool) (r s : Run SubField) → s ≡ r → (if b then r else s) ≡ r
if-same true r s h = refl
if-same false r s h = h

module _ (ps : Parsers) (values : UrlValues) where
  bind_cell-kept :
      (wire opword : Bytes) (exported : Bool) (c : Cell)
      → values (op_key wire opword) ≡ none
      → (if is_list c then false else bytes_eq opword (codes "eq")) ≡ false
      → (bind_cell ps values wire opword exported c).0 ≡ c
  unfolding bind_cell slice_run or_bare set_if
  bind_cell-kept wire opword exported (slice_cell t vs) h k =
      rw (bind_slice-absent ps values (op_key wire opword) exported t vs h) refl
  bind_cell-kept wire opword exported (opt_cell t o) h k =
      rw (first_value-absent ps values (op_key wire opword) h, k) refl
  bind_cell-kept wire opword exported other_cell h k =
      rw (first_value-absent ps values (op_key wire opword) h, k) refl

  bind_sub-kept :
      (wire : Bytes) (sf : SubField)
      → values (op_key wire (json_name sf.info)) ≡ none
      → takes_bare sf ≡ false
      → (bind_sub ps values wire sf).0 ≡ sf
  unfolding bind_sub with_cell
  bind_sub-kept wire sf h k =
      let opword = json_name sf.info in
      if-kept (is_empty opword || bytes_eq opword (codes "-")) sf (sf, none)
        (with_cell sf (bind_cell ps values wire opword sf.info.exported sf.cell)) refl
        (ap (λ c. let out : SubField = record sf { cell = c } in out)
          (bind_cell-kept wire opword sf.info.exported sf.cell h k))

  each_until-Kept :
      (wire : Bytes) (sfs : List SubField)
      → OnlyBare values wire sfs
      → Kept sfs (each_until (bind_sub ps values wire) sfs).0
  unfolding each_until
  each_until-Kept wire [] h = tt
  each_until-Kept wire (sf ∷ sfs) (h, hs) =
      keep_going-Kept sf sfs (bind_sub ps values wire sf) _ (bind_sub-kept wire sf h)
        (each_until-Kept wire sfs hs)

module _ (ps : Parsers) (v w : UrlValues) (wire raw : Bytes) (more : List Bytes)
    (many : v wire ≡ some (raw ∷ more)) (one : w wire ≡ some (raw ∷ [])) where
  bare-same : first_value v wire ≡ first_value w wire
  unfolding first_value first_of
  bare-same = ap first_of many ∙ sym (ap first_of one)

  bind_cell-same :
      (opword : Bytes) (exported : Bool) (c : Cell)
      → v (op_key wire opword) ≡ none
      → w (op_key wire opword) ≡ none
      → bind_cell ps v wire opword exported c ≡ bind_cell ps w wire opword exported c
  unfolding bind_cell
  bind_cell-same opword exported (slice_cell t vs) h k = ap (slice_run t) (
      bind_slice-absent ps v (op_key wire opword) exported t vs h
      ∙ sym (bind_slice-absent ps w (op_key wire opword) exported t vs k))
  bind_cell-same opword exported (opt_cell t o) h k =
      rw
        (
          first_value-absent ps v (op_key wire opword) h,
          first_value-absent ps w (op_key wire opword) k,
          bare-same,
        )
        refl
  bind_cell-same opword exported other_cell h k =
      rw
        (
          first_value-absent ps v (op_key wire opword) h,
          first_value-absent ps w (op_key wire opword) k,
          bare-same,
        )
        refl

  bind_sub-same :
      (sf : SubField)
      → v (op_key wire (json_name sf.info)) ≡ none
      → w (op_key wire (json_name sf.info)) ≡ none
      → bind_sub ps v wire sf ≡ bind_sub ps w wire sf
  unfolding bind_sub
  bind_sub-same sf h k = rw (bind_cell-same (json_name sf.info) sf.info.exported sf.cell h k) refl

  each_until-same :
      (sfs : List SubField)
      → OnlyBare v wire sfs
      → OnlyBare w wire sfs
      → each_until (bind_sub ps v wire) sfs ≡ each_until (bind_sub ps w wire) sfs
  unfolding each_until
  each_until-same [] h k = refl
  each_until-same (sf ∷ sfs) (h, hs) (k, ks) =
      rw (bind_sub-same sf h k, each_until-same sfs hs ks) refl

  bare_found : first_value v wire ≡ some raw
  unfolding first_value first_of
  bare_found = ap first_of many

  bind_cell-spelled :
      (exported : Bool) (c : Cell)
      → is_list c ≡ false
      → v (op_key wire (codes "eq")) ≡ none
      → bind_cell ps v wire (codes "eq") exported c
        ≡ filled ps (op_key wire (codes "eq")) raw exported c
  unfolding bind_cell or_bare set_if set_scalar
  bind_cell-spelled exported (slice_cell t vs) h k = absurd (cc)
  bind_cell-spelled false (opt_cell t o) h k =
      rw
        (
          first_value-absent ps v (op_key wire (codes "eq")) k,
          bytes_eq_refl (codes "eq"),
          bare_found,
        )
        refl
  bind_cell-spelled true (opt_cell t o) h k =
      rw
        (
          first_value-absent ps v (op_key wire (codes "eq")) k,
          bytes_eq_refl (codes "eq"),
          bare_found,
        )
        (opt_run-filled ps (op_key wire (codes "eq")) raw t o)
  bind_cell-spelled false other_cell h k =
      rw
        (
          first_value-absent ps v (op_key wire (codes "eq")) k,
          bytes_eq_refl (codes "eq"),
          bare_found,
        )
        refl
  bind_cell-spelled true other_cell h k =
      rw
        (
          first_value-absent ps v (op_key wire (codes "eq")) k,
          bytes_eq_refl (codes "eq"),
          bare_found,
        )
        refl

  bind_cell-idle :
      (opword : Bytes) (exported : Bool) (c : Cell)
      → v (op_key wire opword) ≡ none
      → (if is_list c then false else bytes_eq opword (codes "eq")) ≡ false
      → bind_cell ps v wire opword exported c ≡ (c, none)
  unfolding bind_cell slice_run or_bare set_if
  bind_cell-idle opword exported (slice_cell t vs) h k =
      rw (bind_slice-absent ps v (op_key wire opword) exported t vs h) refl
  bind_cell-idle opword exported (opt_cell t o) h k =
      rw (first_value-absent ps v (op_key wire opword) h, k) refl
  bind_cell-idle opword exported other_cell h k =
      rw (first_value-absent ps v (op_key wire opword) h, k) refl

  bind_sub-idle :
      (sf : SubField)
      → v (op_key wire (json_name sf.info)) ≡ none
      → takes_bare sf ≡ false
      → bind_sub ps v wire sf ≡ (sf, none)
  unfolding bind_sub with_cell
  bind_sub-idle sf h k =
      let opword = json_name sf.info in
      if-same (is_empty opword || bytes_eq opword (codes "-")) (sf, none) _
        (ap (with_cell sf) (bind_cell-idle opword sf.info.exported sf.cell h k))

  takes_bare-eq :
      (is_a_list named_eq : Bool)
      → (if is_a_list then false else named_eq) ≡ true
      → (is_a_list ≡ false) × (named_eq ≡ true)
  takes_bare-eq true named_eq h = absurd (cc)
  takes_bare-eq false named_eq h = (refl, h)

  bind_sub-spelled :
      (sf : SubField)
      → v (op_key wire (json_name sf.info)) ≡ none
      → takes_bare sf ≡ true
      → bind_sub ps v wire sf
        ≡ with_cell sf (filled ps (op_key wire (codes "eq")) raw sf.info.exported sf.cell)
  unfolding bind_sub is_empty codes bytes_eq
  bind_sub-spelled sf h k =
      let (one_value, named) = takes_bare-eq (is_list sf.cell) _ k in
      let eq_word = bytes_eq_sound (json_name sf.info) (codes "eq") named in
      let absent = sym (ap (λ (o : Bytes). v (op_key wire o)) eq_word) ∙ h in
      rw eq_word (ap (with_cell sf) (bind_cell-spelled sf.info.exported sf.cell one_value absent))

  -- The fields in turn, up to the first fault: the one of equality takes the value.
  abbrev pub bare_fields : List SubField → Run (List SubField)
  bare_fields [] = ([], none)
  bare_fields (sf ∷ sfs) =
      keep_going
        (if takes_bare sf
          then with_cell sf (filled ps (op_key wire (codes "eq")) raw sf.info.exported sf.cell)
          else (sf, none))
        sfs (bare_fields sfs)

  bind_sub-one :
      (sf : SubField)
      → v (op_key wire (json_name sf.info)) ≡ none
      → bind_sub ps v wire sf ≡ (
          if takes_bare sf
          then with_cell sf (filled ps (op_key wire (codes "eq")) raw sf.info.exported sf.cell)
          else (sf, none))
  bind_sub-one sf h = elim (Bool-cases (takes_bare sf)) [
    | inl bare ↦ rw bare (bind_sub-spelled sf h bare)
    | inr other ↦ rw other (bind_sub-idle sf h other)
  ]

  each_until-bare_fields :
      (sfs : List SubField)
      → OnlyBare v wire sfs
      → each_until (bind_sub ps v wire) sfs ≡ bare_fields sfs
  unfolding each_until
  each_until-bare_fields [] h = refl
  each_until-bare_fields (sf ∷ sfs) (h, hs) =
      rw (bind_sub-one sf h, each_until-bare_fields sfs hs) refl

  -- Where a query string gives a holder its bare wire name and no name with an operator word, the
  -- fields are bound in turn up to the first fault: the field of equality takes the first of the
  -- values, parsed, and is set; where the value is not parsed, or the field is no exported Opt, the
  -- fault is that. Every other field stays as it was, the IN list included, and repeated values do not
  -- count: the outcome is that of a query string with the first value alone.
  pub bind_sub-bare :
      (sfs : List SubField)
      → OnlyBare v wire sfs
      → OnlyBare w wire sfs
      → (each_until (bind_sub ps v wire) sfs ≡ bare_fields sfs)
        × Kept sfs (each_until (bind_sub ps v wire) sfs).0
        × (each_until (bind_sub ps v wire) sfs ≡ each_until (bind_sub ps w wire) sfs)
  bind_sub-bare sfs h k =
      (each_until-bare_fields sfs h, each_until-Kept ps v wire sfs h, each_until-same sfs h k)
