-- ===== src/Bind/QueryString.antt =====
-- Paging and seek arguments written as a query string, and read back.
use filtrx.Base.{◌≡◌, refl, Bool, Option, none, some, List, [], ◌∷◌, Bytes, codes, if◌then◌else◌}
use filtrx.Base.Compare.{bytes_eq}
use filtrx.Base.Int.{ℤ, InRange}
use filtrx.Paginate.{PagingParams}
use filtrx.Paginate.Forward.{Fits}
use filtrx.Query.{SeekParams}
use filtrx.Bind.{
  Strings, bound, UrlValues, then_bind, first_of, first_value, truthy, checked, bind_number,
  bind_total, bind_page, text_or_empty, size_or_zero, bind_seek,
}

-- How numbers and Booleans are written.
pub record Printer : Type 0 where
  pub number : ℤ → Bytes
  pub boolean : Bool → Bytes

abbrev pub number_values : Printer → Option ℤ → Option (List Bytes)
number_values pr none = none
number_values pr (some n) = some (pr.number n ∷ [])

-- The query string of paging arguments.
unfoldable pub page_values : Printer → PagingParams → UrlValues
page_values pr p key =
    if bytes_eq key (codes "first")
    then number_values pr p.first
    else if bytes_eq key (codes "last")
    then number_values pr p.last
    else if bytes_eq key (codes "after")
    then number_values pr p.after
    else if bytes_eq key (codes "before")
    then number_values pr p.before
    else if bytes_eq key (codes "total")
    then some (pr.boolean p.include_total ∷ [])
    else none

unfoldable pub seek_values : Printer → SeekParams → UrlValues
seek_values pr p key =
    if bytes_eq key (codes "size")
    then some (pr.number p.size ∷ [])
    else if bytes_eq key (codes "after")
    then some (p.after ∷ [])
    else if bytes_eq key (codes "before")
    then some (p.before ∷ [])
    else if bytes_eq key (codes "include_total")
    then some (pr.boolean p.include_total ∷ [])
    else none

module _ (str : Strings) (pr : Printer) where
  -- Atoi reads back what was printed, for every number that an int holds.
  abbrev pub ReadsNumbers : Type 0
  ReadsNumbers = (n : ℤ) → InRange n → str.atoi (pr.number n) ≡ some n

  abbrev pub ReadsBooleans : Type 0
  ReadsBooleans = (b : Bool) → str.parse_bool (pr.boolean b) ≡ some b

  bind_number-values :
      (key : Bytes) (n : Option ℤ)
      → ReadsNumbers
      → Fits n
      → bind_number str key (first_of (number_values pr n)) ≡ bound n
  unfolding bind_number first_of checked
  bind_number-values key none reads h = refl
  bind_number-values key (some n) reads h = rw (reads n h) refl

  truthy-boolean : (b : Bool) → ReadsBooleans → truthy str (pr.boolean b) ≡ b
  unfolding truthy
  truthy-boolean b reads = rw (truthy, reads b) refl

  -- If strconv reads back what is printed, then paging arguments within Go's int, written as a query
  -- string, are bound to exactly the same arguments, each absent one left absent.
  pub bind_page-values :
      (p : PagingParams)
      → ReadsNumbers
      → ReadsBooleans
      → Fits p.first
      → Fits p.last
      → Fits p.after
      → Fits p.before
      → bind_page str (page_values pr p) ≡ bound p
  unfolding bind_page first_value page_values bytes_eq codes bind_total then_bind
  bind_page-values p reads reads_bool f l a b =
      rw
        (
          bind_number-values (codes "first") p.first reads f,
          bind_number-values (codes "last") p.last reads l,
          bind_number-values (codes "after") p.after reads a,
          bind_number-values (codes "before") p.before reads b,
        )
        (unfold first_of in rw (truthy-boolean p.include_total reads_bool) refl)

  -- If strconv reads back what is printed, then the arguments of Seek, of a size within Go's int,
  -- written as a query string with the total under its name include_total, are bound to exactly the
  -- same arguments.
  pub bind_seek-values :
      (p : SeekParams)
      → ReadsNumbers
      → ReadsBooleans
      → InRange p.size
      → bind_seek str (seek_values pr p) ≡ bound p
  unfolding bind_seek first_value seek_values bytes_eq codes bind_total then_bind text_or_empty
  bind_seek-values p reads reads_bool h =
      rw (bind_number-values (codes "size") (some p.size) reads h)
        (unfold first_of size_or_zero in rw (truthy-boolean p.include_total reads_bool) refl)
