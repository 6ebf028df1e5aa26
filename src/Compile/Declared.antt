-- ===== src/Compile/Declared.antt =====
-- Which columns and verbatim SQL `Where` can bring into a statement.
use filtrx.Base.{ℕ, List, Bytes, codes, is_empty, if◌then◌else◌}
use filtrx.Value.{Value}
use filtrx.Cond.{Cond}
use filtrx.Holders.{
  Range, Match, Text, FullText, range_predicates, match_predicates, text_predicates,
  full_text_predicates,
}
use filtrx.Reflect.{StructType}
use filtrx.Plan.{PlanCache, Result, ok, error, Plan}
use filtrx.Plan.Cache.{plan_of, Known, IsValid}
use filtrx.Compile.{
  StructValue, holder, FilterArg, nil_pointer, not_a_struct, pointer, struct_arg, compile_filter,
}
use filtrx.Compile.Direct.{fields_of}
use filtrx.Compile.Where.{KnownArg, read_struct, read_filter, compile_filter-direct}
use filtrx.Compile.Columns.{
  UsesOption, Declares, Respects, RespectsField, Declares-fields_of, direct-uses,
}
use filtrx.Compile.Holding.{
  range_predicates-AllUse, match_predicates-AllUse, text_predicates-AllUse,
  full_text_predicates-AllUse,
}
use filtrx.Query.{Compiled, compiled, rejected}

module _ (Column Verbatim : Bytes → Type 0) where
  abbrev pub UsesCompiled : Compiled → Type 0
  UsesCompiled rejected = Unit
  UsesCompiled (compiled c source) = UsesOption Column Verbatim c

  -- The argument's type declares such columns only, and its holders keep to the column they get.
  abbrev pub SafeArg : FilterArg → Type 0
  SafeArg nil_pointer = Unit
  SafeArg not_a_struct = Unit
  SafeArg (pointer a) = SafeArg a
  SafeArg (struct_arg t v) = Declares Column Verbatim t × Respects Column Verbatim v

  -- The conditions of a holder are on the column that it is given, with such verbatim texts only.
  abbrev pub Keeps : (Bytes → List Cond) → Type 0
  Keeps predicates = RespectsField Column Verbatim (holder predicates)

  module _ (types : ℕ → StructType) (declared : (n : ℕ) → Declares Column Verbatim (types n)) where
    read_struct-UsesCompiled :
        (r : Result Plan) (v : StructValue) (t : StructType)
        → Declares Column Verbatim t
        → Respects Column Verbatim v
        → UsesCompiled (read_struct types r v t)
    read_struct-UsesCompiled (error e) v t d h = tt
    read_struct-UsesCompiled (ok p) v t d h =
        direct-uses Column Verbatim types declared v (fields_of t)
          (Declares-fields_of Column Verbatim t d) h

    read_filter-UsesCompiled : (a : FilterArg) → SafeArg a → UsesCompiled (read_filter types a)
    read_filter-UsesCompiled nil_pointer h = tt
    read_filter-UsesCompiled not_a_struct h = tt
    read_filter-UsesCompiled (pointer a) h = read_filter-UsesCompiled a h
    read_filter-UsesCompiled (struct_arg t v) (d, h) = read_struct-UsesCompiled (plan_of t) v t d h

    -- Let every field of the program's filter types that becomes a step have a column with some
    -- property, and let the tags of Exists fields be texts with another; let the holders in the
    -- argument put conditions on the column that they are given, with such verbatim texts only. Then
    -- from any valid cache every condition that `compileFilter` gives, in groups and in Exists filters
    -- too, is on a column with the one property; the source and correlation of each EXISTS and the
    -- configuration of each full-text match, which the SQL takes over as they are, have the other, and
    -- there is no raw SQL. The holders of the package are such holders: Range, Match and Text always,
    -- FullText if its configuration, or "english" for an empty one, has the property, whatever its
    -- search string is.
    pub compile_filter-Uses :
        ((n : ℕ) → Known types (types n))
        → (a : FilterArg) (c : PlanCache) → KnownArg types a
        → SafeArg a
        → IsValid types c
        → UsesCompiled (compile_filter types a c).0
          × ((T : Type 0) (box : T → Value) (r : Range T) → Keeps (range_predicates box r))
          × ((T : Type 0) (box : T → Value) (m : Match T) → Keeps (match_predicates box m))
          × ((t : Text) → Keeps (text_predicates t))
          × ((f : FullText)
              → Verbatim (if is_empty f.config then codes "english" else f.config)
              → Keeps (full_text_predicates f))
    compile_filter-Uses all a c k h v = (
      rw (compile_filter-direct types all a c k v).0 (read_filter-UsesCompiled a h),
      (λ T box r col d. range_predicates-AllUse Column Verbatim col d box r),
      (λ T box m col d. match_predicates-AllUse Column Verbatim col d box m),
      (λ t col d. text_predicates-AllUse Column Verbatim col d t),
      (λ f config col d. full_text_predicates-AllUse Column Verbatim col d f config),
    )
