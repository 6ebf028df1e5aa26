-- ===== src/Tests/Filling.antt =====
-- Bind on a concrete filter: a holder of text operators and an Opt.
use filtrx.Base.{inr, ◌≡◌, refl, Bool, true, false, none, List, [], ◌∷◌, Bytes, codes}
use filtrx.Base.Compare.{lookup}
use filtrx.Value.{Value, text}
use filtrx.Holders.{Opt}
use filtrx.Naming.{wire_name}
use filtrx.Bind.{UrlValues, list_values, first_of, first_value, list_entries, list_parts}
use filtrx.Bind.Fields.{
  ScalarType, string_type, Parsers, SubField, Cell, opt_cell, slice_cell, plain, holder_struct,
  bind_sub, each_until, Dest, pointer_to, bind_dest, json_name, op_key, done, bound_to, bind_fields,
  returned, keep_going, bind_field, with_target, bind_role, bind_holder, holder_run, with_cell,
  bind_cell, set_if, or_bare, bind_list, bind_scalar, bind_slice, cons_parsed, opt_run, or_alias,
  parse_all, parse_scalar, plain_run, refuse_if, set_parsed, set_scalar, set_slice, set_string,
  slice_run, slice_values, zero_of,
}
use filtrx.Bind.Fields.Keys.{bind_dest-Agree}
use filtrx.Bind.Fields.Panics.{CalmReturn, bind_dest-Calm}
use filtrx.Bind.Fields.Filled.{bind_holder-spelled}
use filtrx.Bind.Fields.Bare.{Kept, bind_sub-bare}
use filtrx.Tests.Compiling.{a_field, compiling}
use filtrx.Tests.Binding.{short_strings}

abbrev parsers : Parsers
parsers = record {
  strings = short_strings;
  parse_int = λ s w. none;
  parse_uint = λ s w. none;
  parse_float = λ s w. none;
  unmarshal_text = λ i s v. (v, false);
  zero_value = λ i. text [];
}

abbrev query : List (Bytes × List Bytes) → UrlValues
query entries key = lookup key entries

abbrev opt_of : Bytes → Bool → Opt Value
opt_of s b = record { val = text s; set = b }

abbrev sub : Bytes → Cell → SubField
sub word c = record { info = a_field (codes "F") ((codes "json", word) ∷ []); cell = c }

-- Match[string]
abbrev match_of : Opt Value → Opt Value → List Value → List SubField
match_of e n vs =
    sub (codes "eq,omitempty") (opt_cell string_type e)
    ∷ sub (codes "ne,omitempty") (opt_cell string_type n)
    ∷ sub (codes "in,omitempty") (slice_cell string_type vs)
    ∷ []

abbrev filter_of : List SubField → Opt Value → Dest
filter_of role name = pointer_to (
    record {
      info = record (a_field (codes "Role") []) { is_predicate = true };
      target = holder_struct role;
    }
    ∷ record {
      info = record (a_field (codes "UserName") []) { is_setter = true };
      target = plain (opt_cell string_type name);
    }
    ∷ [])

abbrev unset : Opt Value
unset = opt_of [] false

abbrev empty_filter : Dest
empty_filter = filter_of (match_of unset unset []) unset

-- role_in=a,b&user_name=x
abbrev listed : UrlValues
listed = query (
    (codes "role_in", codes "a,b" ∷ [])
    ∷ (codes "user_name", codes "x" ∷ [])
    ∷ (codes "first", codes "10" ∷ [])
    ∷ [])

abbrev listed_only : UrlValues
listed_only = query ((codes "role_in", codes "a,b" ∷ []) ∷ (codes "user_name", codes "x" ∷ []) ∷ [])

-- role=a&role=b
abbrev repeated : UrlValues
repeated = query ((codes "role", codes "a" ∷ codes "b" ∷ []) ∷ [])

abbrev single : UrlValues
single = query ((codes "role", codes "a" ∷ []) ∷ [])

bind_dest-Agree_example :
    bind_dest parsers listed empty_filter ≡ bind_dest parsers listed_only empty_filter
unfolding compiling json_name op_key wire_name
bind_dest-Agree_example =
    bind_dest-Agree parsers listed listed_only empty_filter
      ((refl, (refl, (refl, (refl, tt)))), ((refl, tt), tt))

bind_dest-Calm_example : CalmReturn (bind_dest parsers listed empty_filter).1
unfolding compiling
bind_dest-Calm_example =
    bind_dest-Calm parsers listed empty_filter ((refl, (refl, (refl, tt))), (tt, tt))

bind_sub-bare_example :
    (each_until (bind_sub parsers repeated (codes "role")) (match_of unset unset [])
      ≡ (match_of (record { val = text (codes "a"); set = true }) unset [], none))
    × Kept
        (match_of unset unset [])
        (each_until (bind_sub parsers repeated (codes "role")) (match_of unset unset [])).0
    × (each_until (bind_sub parsers repeated (codes "role")) (match_of unset unset [])
        ≡ each_until (bind_sub parsers single (codes "role")) (match_of unset unset []))
unfolding compiling json_name op_key keep_going with_cell parse_scalar
bind_sub-bare_example =
    bind_sub-bare parsers repeated single (codes "role") (codes "a") (codes "b" ∷ []) refl refl
      (match_of unset unset []) (refl, (refl, (refl, tt))) (refl, (refl, (refl, tt)))

-- To name `filling` on an `unfolding` line opens the definitions of Bind.
unfoldable pub filling : Unit {0}
unfolding compiling bind_dest bound_to bind_fields returned each_until keep_going bind_field
    wire_name with_target bind_role bind_holder holder_run bind_sub json_name with_cell bind_cell
    set_if or_bare bind_list bind_scalar bind_slice cons_parsed op_key opt_run or_alias parse_all
    parse_scalar plain_run refuse_if set_parsed set_scalar set_slice set_string slice_run
    slice_values zero_of first_of first_value list_entries list_parts list_values
filling = tt

listed_bound : bind_dest parsers listed empty_filter ≡ (
  filter_of
      (match_of unset unset (text (codes "a") ∷ text (codes "b") ∷ []))
      (opt_of (codes "x") true),
  done,
)
unfolding filling
listed_bound = refl

-- A repeated bare name is equality with the first value.
repeated_bound :
    bind_dest parsers repeated empty_filter
    ≡ (filter_of (match_of (opt_of (codes "a") true) unset []) unset, done)
unfolding filling
repeated_bound = refl

abbrev show_text : ScalarType → Value → Bytes
show_text t (text s) = s
show_text t v = []

-- role_eq=a&role_in=a&role_in=b
abbrev spelled_role : UrlValues
spelled_role =
    query ((codes "role_eq", codes "a" ∷ []) ∷ (codes "role_in", codes "a" ∷ codes "b" ∷ []) ∷ [])

abbrev full_role : List SubField
full_role = match_of (opt_of (codes "a") true) unset (text (codes "a") ∷ text (codes "b") ∷ [])

bind_holder-spelled_example :
    bind_holder parsers spelled_role (codes "role") (holder_struct (match_of unset unset []))
    ≡ (holder_struct full_role, none)
unfolding filling
bind_holder-spelled_example =
    bind_holder-spelled parsers show_text spelled_role (codes "role") full_role refl (
      inr (refl, refl, refl, ((λ h b. refl), (λ h. absurd (cc)))),
      (
        inr (refl, refl, refl, ((λ h. absurd (cc)), (λ h. refl))),
        (
          inr (
            refl,
            refl,
            refl,
            (((λ b. refl), refl, refl, refl), (((λ b. refl), refl, refl, refl), tt)),
          ),
          tt,
        ),
      ),
    )
