-- ===== src/Connection/Errors.antt =====
-- When `List` returns a compile error: on the deferred one, and on an offset page on no other.
use filtrx.Base.{◌≡◌, refl, ◌∙◌, ap, false, none, some, Option, List, []}
use filtrx.Query.{Query, CompileError, SeekState}
use filtrx.Listing.{Db, Listed, compile_error, cannot_rank, list_offset}
use filtrx.Listing.Errors.{NoCompileError, list_offset-NoCompileError}
use filtrx.Seeking.{Codec, Mapper}
use filtrx.Connection.{list_keyset, list}

module _ {ℓ} {T : Type ℓ} (db : Db T) (codec : Codec) (mapper : Mapper T) (q : Query)
    (dest : List T) where
  -- `List` by the deferred error and the seek state.
  abbrev listed_by : Option CompileError → Option SeekState → Listed T
  listed_by (some c) s = record { result = compile_error c; dest = dest; issued = [] }
  listed_by none (some k) = list_keyset db codec mapper q k dest
  listed_by none none = list_offset db q dest

  list-listed_by :
      (e : Option CompileError) (s : Option SeekState)
      → let out : Listed T = elim e [
        | some c ↦ record { result = compile_error c; dest = dest; issued = [] }
        | none ↦ elim s [
          | some k ↦ list_keyset db codec mapper q k dest
          | none ↦ list_offset db q dest
        ]
      ] in
        out ≡ listed_by e s
  list-listed_by (some c) s = refl
  list-listed_by none (some k) = refl
  list-listed_by none none = refl

  pub list-offset :
      q.err ≡ none → q.seek ≡ none → list db codec mapper q dest ≡ list_offset db q dest
  unfolding list
  list-offset fine unsought =
      list-listed_by q.err q.seek ∙ ap (λ e. listed_by e q.seek) fine ∙ ap (listed_by none) unsought

  pub list-compile_error :
      (c : CompileError) → q.err ≡ some c → (list db codec mapper q dest).result ≡ compile_error c
  unfolding list
  list-compile_error c bad =
      ap (λ l. l.result) (list-listed_by q.err q.seek ∙ ap (λ e. listed_by e q.seek) bad)

  pub list-NoCompileError :
      q.err ≡ none
      → q.seek ≡ none
      → cannot_rank q ≡ false
      → NoCompileError (list db codec mapper q dest).result
  list-NoCompileError fine unsought rankable =
      rw (list-offset fine unsought) (list_offset-NoCompileError db q dest fine rankable)
