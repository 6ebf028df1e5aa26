-- ===== src/Tests/Binding.antt =====
-- bind.go on concrete inputs, with a notation of one byte for numbers and Booleans.
use filtrx.Base.{
  zero, suc, ◌≡◌, refl, Bool, true, false, Option, none, some, [], ◌∷◌, codes, Bytes, arith,
}
use filtrx.Base.Int.{ℤ, pos, negsuc}
use filtrx.Paginate.{PagingParams, no_paging, paginate}
use filtrx.Paginate.Panics.{panics, paginate-panics}
use filtrx.Query.{SeekParams}
use filtrx.Bind.{Strings, bound, bind_page, list_values, list_parts, list_entries}
use filtrx.Bind.QueryString.{Printer, page_values, ReadsNumbers, ReadsBooleans, bind_page-values}
use filtrx.Running.{running}

abbrev read_number : Bytes → Option ℤ
read_number (zero ∷ n ∷ []) = some (pos n)
read_number (suc m ∷ n ∷ []) = some (negsuc n)
read_number _ = none

abbrev read_boolean : Bytes → Option Bool
read_boolean (zero ∷ []) = some false
read_boolean (suc n ∷ []) = some true
read_boolean _ = none

abbrev pub short_strings : Strings
short_strings = record { atoi = read_number; parse_bool = read_boolean; trim_space = λ s. s }

abbrev write_number : ℤ → Bytes
write_number (pos n) = 0 ∷ n ∷ []
write_number (negsuc n) = 1 ∷ n ∷ []

abbrev write_boolean : Bool → Bytes
write_boolean false = 0 ∷ []
write_boolean true = 1 ∷ []

abbrev short_printer : Printer
short_printer = record { number = write_number; boolean = write_boolean }

reads_short : ReadsNumbers short_strings short_printer
reads_short (pos n) h = refl
reads_short (negsuc n) h = refl

reads_short_booleans : ReadsBooleans short_strings short_printer
reads_short_booleans false = refl
reads_short_booleans true = refl

abbrev ten_after_four : PagingParams
ten_after_four = record no_paging {
  first = some (pos 10);
  after = some (pos 4);
  include_total = true;
}

bind_page-values_example :
    bind_page short_strings (page_values short_printer ten_after_four) ≡ bound ten_after_four
bind_page-values_example =
    bind_page-values short_strings short_printer ten_after_four reads_short reads_short_booleans
      (omega arith) tt (omega arith) tt

abbrev ten_after_cursor : SeekParams
ten_after_cursor = record { after = codes "abc"; before = []; size = pos 10; include_total = true }

roles :
    list_values short_strings (λ key. some (codes "a,,b" ∷ codes "c" ∷ [])) (codes "role")
    ≡ codes "a" ∷ codes "b" ∷ codes "c" ∷ []
unfolding running list_values list_parts list_entries
roles = refl

paginate-panics_example : panics (paginate (record no_paging { first = some (negsuc 0) })) ≡ true
paginate-panics_example = paginate-panics (record no_paging { first = some (negsuc 0) })
