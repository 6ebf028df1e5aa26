-- ===== src/Holders.antt =====
-- holders.go, with Opt of opt.go, FullText of fulltext.go and the toggle of exists.go: the conditions
-- that a filter field contributes.
pub mod Arguments
pub mod Optional
pub mod Meaning
pub mod Open
use filtrx.Base.{
  ℕ, Bool, true, false, not, List, [], ◌∷◌, ◌++◌, map, Bytes, codes, is_empty, if◌then◌else◌,
}
use filtrx.Value.{Value, Values, text, slice, null, nil as no_values, cons as with_value}
use filtrx.Cond.{
  Cond, Op, leaf, full_text, eq, ne, gt, lt, gte, lte, like, ilike, in_list, is_null, is_not_null,
}

pub record Opt {ℓ} (T : Type ℓ) : Type ℓ where
  pub val : T
  pub set : Bool

pub record Range {ℓ} (T : Type ℓ) : Type ℓ where
  pub eq_to : Opt T
  pub ne_to : Opt T
  pub gt_than : Opt T
  pub lt_than : Opt T
  pub gte_than : Opt T
  pub lte_than : Opt T
  pub in_set : List T
  pub is_null_opt : Opt Bool

pub record Match {ℓ} (T : Type ℓ) : Type ℓ where
  pub eq_to : Opt T
  pub ne_to : Opt T
  pub in_set : List T
  pub is_null_opt : Opt Bool

pub record Text : Type 0 where
  pub eq_to : Opt Bytes
  pub ne_to : Opt Bytes
  pub like_pattern : Opt Bytes
  pub ilike_pattern : Opt Bytes
  pub in_set : List Bytes
  pub is_null_opt : Opt Bool

pub record FullText : Type 0 where
  pub query : Opt Bytes
  pub config : Bytes

abbrev pub values : List Value → Values
values [] = no_values
values (v ∷ vs) = with_value v (values vs)

-- `box` is the conversion of a `T` to `any`.
module _ {ℓ} {T : Type ℓ} (box : T → Value) where
  unfoldable pub append_opt : List Cond → Bytes → Op → Opt T → List Cond
  append_opt c col o v = if v.set then c ++ leaf col o (box v.val) ∷ [] else c

  unfoldable pub append_in : List Cond → Bytes → List T → List Cond
  append_in c col [] = c
  append_in c col (v ∷ vs) = c ++ leaf col in_list (slice (values (map box (v ∷ vs)))) ∷ []

unfoldable pub append_null : List Cond → Bytes → Opt Bool → List Cond
append_null c col o =
    if o.set
    then (if o.val then c ++ leaf col is_null null ∷ [] else c ++ leaf col is_not_null null ∷ [])
    else c

module _ {ℓ} {T : Type ℓ} (box : T → Value) where
  unfoldable pub range_predicates : Range T → Bytes → List Cond
  range_predicates r col =
      let c = append_opt box [] col eq r.eq_to in
      let c = append_opt box c col ne r.ne_to in
      let c = append_opt box c col gt r.gt_than in
      let c = append_opt box c col gte r.gte_than in
      let c = append_opt box c col lt r.lt_than in
      let c = append_opt box c col lte r.lte_than in
      append_null (append_in box c col r.in_set) col r.is_null_opt

  unfoldable pub match_predicates : Match T → Bytes → List Cond
  match_predicates m col =
      let c = append_opt box [] col eq m.eq_to in
      let c = append_opt box c col ne m.ne_to in
      append_null (append_in box c col m.in_set) col m.is_null_opt

unfoldable pub text_predicates : Text → Bytes → List Cond
text_predicates t col =
    let c = append_opt text [] col eq t.eq_to in
    let c = append_opt text c col ne t.ne_to in
    let c = append_opt text c col like t.like_pattern in
    let c = append_opt text c col ilike t.ilike_pattern in
    append_null (append_in text c col t.in_set) col t.is_null_opt

unfoldable pub full_text_predicates : FullText → Bytes → List Cond
full_text_predicates f col =
    if f.query.set
    then full_text col (if is_empty f.config then codes "english" else f.config) f.query.val ∷ []
    else []

-- `existsActive`: whether the field contributes, and whether it is negated.
unfoldable pub exists_active : Opt Bool → Bool × Bool
exists_active toggle = if toggle.set then (true, not toggle.val) else (false, false)
