-- ===== src/Connection/Safe.antt =====
-- The slices of a keyset page are in range; ListConnection indexes the cursors by the rows, and the
-- two always have one length.
use filtrx.Base.{
  ℕ, ◌+◌, ◌≡◌, refl, ◌∙◌, Bool, false, Option, none, some, List, [], ◌∷◌, Bytes, length, arith,
  Bool-cases, inl, inr,
}
use filtrx.Base.Int.{ℤ, pos, leb_ℤ}
use filtrx.Value.{Value}
use filtrx.Query.{Query, SeekState, CompileError, has_relevance_order}
use filtrx.Query.Statement.{Statement}
use filtrx.Listing.{Db, Result, ok, compile_error, query_error, panicked}
use filtrx.Seeking.{
  Codec, Mapper, KeysetResult, Keyed, keyed, failed_keys, keyset_counted, finish_cursors,
  finish_keyset, fetch_keyset, fetch_fields, Filter, usable, unusable, seek_filter, key_fields,
  seek_error, unless_error, run_keyset,
}
use filtrx.Seeking.Slices.{checked_size, finish_keyset-in_range}
use filtrx.Seeking.Lengths.{Counted, scan_reply-Counted, positive_size, length-run_keyset}
use filtrx.Connection.{
  Edge, add_edge, edges_of, connected, connection_of, with_seek, list_connection,
}

from_none : (n : ℕ) → 0 + n ≡ n
from_none n = omega arith

abbrev pub Calm {ℓ} : {A : Type ℓ} → Result A → Type 0
Calm (panicked p) = ⊥
Calm r = Unit

with_seek-Calm {ℓ} :
    {A : Type ℓ} (err : Option CompileError) (seek : Option SeekState) (rest : SeekState → Result A)
    → ((s : SeekState) → Calm (rest s))
    → Calm (with_seek err seek rest)
unfolding with_seek
with_seek-Calm (some e) seek rest h = tt
with_seek-Calm none none rest h = tt
with_seek-Calm none (some s) rest h = h s

module _ {ℓ} {T : Type ℓ} where
  module _ (db : Db T) (codec : Codec) (q : Query) (s : SeekState) where
    keyset_counted-Calm : (o : Option ℤ) (r : KeysetResult) → Calm (keyset_counted o r)
    unfolding keyset_counted
    keyset_counted-Calm none r = tt
    keyset_counted-Calm (some n) r = tt

    finish_cursors-Calm :
        (o : Option (List Bytes)) (more : Bool) (d : List T) (issued : List Statement)
        → Calm (finish_cursors db codec q s o more d issued).result
    unfolding finish_cursors
    finish_cursors-Calm none more d issued = tt
    finish_cursors-Calm (some cs) more d issued = elim (Bool-cases s.total) [
      | inl asked ↦ rw asked (keyset_counted-Calm _ _)
      | inr unasked ↦ rw unasked tt
    ]

    -- The slices of the rows and of the keys are in range, since each row has its key.
    finish_keyset-Calm :
        (dest : List T) (k : Keyed T) (issued : List Statement)
        → leb_ℤ s.size (pos 0) ≡ false
        → Counted dest k
        → Calm (finish_keyset db codec q s k (length dest) issued).result
    unfolding Counted
    finish_keyset-Calm dest (failed_keys d) issued size h = unfold finish_keyset in tt
    finish_keyset-Calm dest (keyed d keys) issued size h =
        rw
          (finish_keyset-in_range db codec q s d keys (length dest) issued
            (checked_size s.size size) h)
          (finish_cursors-Calm _ _ _ _)

    fetch_keyset-Calm :
        (fs : List (T → Value)) (f : Filter) (dest : List T)
        → leb_ℤ s.size (pos 0) ≡ false
        → Calm (fetch_keyset db codec q s fs f dest).result
    unfolding fetch_keyset
    fetch_keyset-Calm fs (unusable e) dest size = tt
    fetch_keyset-Calm fs (usable c) dest size =
        finish_keyset-Calm dest _ _ size (scan_reply-Counted db codec q s fs _ dest)

    fetch_fields-Calm :
        (fs : Option (List (T → Value))) (dest : List T)
        → leb_ℤ s.size (pos 0) ≡ false
        → Calm (fetch_fields db codec q s fs dest).result
    unfolding fetch_fields
    fetch_fields-Calm none dest size = tt
    fetch_fields-Calm (some fs) dest size = fetch_keyset-Calm fs (seek_filter codec q s) dest size

    unless_error-Calm :
        (e : Option CompileError) (fs : Option (List (T → Value))) (dest : List T)
        → (e ≡ none → leb_ℤ s.size (pos 0) ≡ false)
        → Calm (unless_error e dest (fetch_fields db codec q s fs dest)).result
    unfolding unless_error
    unless_error-Calm (some e) fs dest size = tt
    unless_error-Calm none fs dest size = fetch_fields-Calm fs dest (size refl)

    -- A size that is not positive is refused in front.
    size_checked : seek_error q s ≡ none → leb_ℤ s.size (pos 0) ≡ false
    unfolding seek_error
    size_checked checks =
        positive_size q.order (leb_ℤ s.size (pos 0)) (has_relevance_order q) checks

  -- The loop over the rows finds a cursor for each.
  edges_of-some :
      (rows : List T) (cs : List Bytes)
      → length rows ≡ length cs
      → (es : List (Edge T)) × (edges_of rows cs ≡ some es)
  unfolding edges_of add_edge
  edges_of-some [] cs h = ([], refl)
  edges_of-some (r ∷ rs) [] h = absurd (omega arith)
  edges_of-some (r ∷ rs) (c ∷ cs) h =
      let (es, found) = edges_of-some rs cs (omega arith) in
      (record { node = r; cursor = c } ∷ es, rw found refl)

  connected-Calm :
      (s : SeekState) (r : KeysetResult) (o : Option (List (Edge T))) (es : List (Edge T))
      → o ≡ some es
      → Calm (connected s r o)
  unfolding connected
  connected-Calm s r none es h = absurd (cc)
  connected-Calm s r (some x) es h = tt

  connection_of-Calm :
      (s : SeekState) (out : Result KeysetResult) (rows : List T)
      → Calm out
      → ((r : KeysetResult) → out ≡ ok r → length rows ≡ length r.cursors)
      → Calm (connection_of s out rows)
  unfolding connection_of
  connection_of-Calm s (ok r) rows h k =
      let (es, found) = edges_of-some rows r.cursors (k r refl) in connected-Calm s r _ es found
  connection_of-Calm s (compile_error e) rows h k = tt
  connection_of-Calm s query_error rows h k = tt
  connection_of-Calm s (panicked p) rows h k = h

  -- Whatever the query and its size are, the database answers and the codec encodes: in a run of
  -- ListConnection the slices that cut a page to its size and turn it around do not go out of range,
  -- and neither does the index of the cursors in the loop over the rows.
  pub list_connection-Calm :
      (db : Db T) (codec : Codec) (mapper : Mapper T) (q : Query)
      → Calm (list_connection db codec mapper q)
  unfolding list_connection run_keyset
  list_connection-Calm db codec mapper q = with_seek-Calm q.err q.seek _ (λ s.
      connection_of-Calm s _ _
        (unless_error-Calm db codec q s (seek_error q s) (key_fields mapper q.order) []
          (size_checked db codec q s))
        (λ r h.
          let (small, rows) = length-run_keyset db codec mapper q s [] r h in
          rows ∙ from_none (length r.cursors)))
