-- ===== src/Bind.antt =====
-- bind.go: paging and seek arguments from a query string. strconv and TrimSpace are parameters.
pub mod QueryString
pub mod Fields
use filtrx.Base.{
  ℕ, Bool, true, false, Option, none, some, List, [], ◌∷◌, ◌++◌, Bytes, codes, split, is_empty,
  if◌then◌else◌,
}
use filtrx.Base.Int.{ℤ, pos}
use filtrx.Paginate.{PagingParams}
use filtrx.Query.{SeekParams}

-- url.Values: the values of a key, if the key is there.
abbrev pub UrlValues : Type 0
UrlValues = Bytes → Option (List Bytes)

-- strconv.Atoi and ParseBool, where an error is none, and strings.TrimSpace.
pub record Strings : Type 0 where
  pub atoi : Bytes → Option ℤ
  pub parse_bool : Bytes → Option Bool
  pub trim_space : Bytes → Bytes

-- A result, or the error that names the parameter.
pub data Bound {ℓ} (A : Type ℓ) : Type ℓ where
  bound : A → Bound A
  invalid : Bytes → Bound A

unfoldable pub then_bind {ℓ k} : {A : Type ℓ} {B : Type k} → Bound A → (A → Bound B) → Bound B
then_bind (bound a) f = f a
then_bind (invalid key) f = invalid key

unfoldable pub first_of : Option (List Bytes) → Option Bytes
first_of none = none
first_of (some []) = none
first_of (some (v ∷ vs)) = some v

-- `first`
unfoldable pub first_value : UrlValues → Bytes → Option Bytes
first_value values key = first_of (values key)

module _ (str : Strings) where
  -- `truthy`
  unfoldable pub truthy : Bytes → Bool
  truthy s = elim (str.parse_bool s) [ none ↦ false | some b ↦ b ]

  unfoldable pub checked : Bytes → Option ℤ → Bound (Option ℤ)
  checked key none = invalid key
  checked key (some n) = bound (some n)

  -- An integer parameter: absent, parsed, or an error.
  unfoldable pub bind_number : Bytes → Option Bytes → Bound (Option ℤ)
  bind_number key none = bound none
  bind_number key (some raw) = checked key (str.atoi raw)

  -- `total`, else `include_total`
  unfoldable pub bind_total : Option Bytes → Option Bytes → Bool
  bind_total (some raw) other = truthy raw
  bind_total none (some raw) = truthy raw
  bind_total none none = false

  -- `BindPage`: the keys in the order of its loop.
  unfoldable pub bind_page : UrlValues → Bound PagingParams
  bind_page values =
      then_bind (bind_number (codes "first") (first_value values (codes "first"))) (λ first.
        then_bind (bind_number (codes "last") (first_value values (codes "last"))) (λ last.
          then_bind (bind_number (codes "after") (first_value values (codes "after"))) (λ after.
            then_bind (bind_number (codes "before") (first_value values (codes "before")))
              (λ before. bound (record {
                before = before;
                after = after;
                first = first;
                last = last;
                include_total =
                    bind_total (first_value values (codes "total"))
                      (first_value values (codes "include_total"));
              })))))

  unfoldable pub text_or_empty : Option Bytes → Bytes
  text_or_empty none = []
  text_or_empty (some raw) = raw

  unfoldable pub size_or_zero : Option ℤ → ℤ
  size_or_zero none = pos 0
  size_or_zero (some n) = n

  -- `BindSeek`
  unfoldable pub bind_seek : UrlValues → Bound SeekParams
  bind_seek values =
      then_bind (bind_number (codes "size") (first_value values (codes "size"))) (λ size.
        bound (record {
          after = text_or_empty (first_value values (codes "after"));
          before = text_or_empty (first_value values (codes "before"));
          size = size_or_zero size;
          include_total =
              bind_total (first_value values (codes "total"))
                (first_value values (codes "include_total"));
        }))

  -- The inner loop of `listValues`.
  unfoldable pub list_parts : List Bytes → List Bytes
  list_parts [] = []
  list_parts (part ∷ parts) =
      let rest = list_parts parts in
      if is_empty (str.trim_space part) then rest else str.trim_space part ∷ rest

  unfoldable pub list_entries : List Bytes → List Bytes
  list_entries [] = []
  list_entries (v ∷ vs) = list_parts (split b',' v) ++ list_entries vs

  -- `listValues`
  unfoldable pub list_values : UrlValues → Bytes → List Bytes
  list_values values key = elim (values key) [ none ↦ [] | some vs ↦ list_entries vs ]
