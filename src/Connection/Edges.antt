-- ===== src/Connection/Edges.antt =====
-- The edges of a connection: each row with the cursor of its own key.
use filtrx.Base.{
  ◌≡◌, refl, ◌∙◌, ap, Option, none, some, List, [], ◌∷◌, map, Bytes, is_empty, not, if◌then◌else◌,
}
use filtrx.Base.Int.{negsuc}
use filtrx.Value.{Value}
use filtrx.Query.{Query, SeekState, CompileError}
use filtrx.Query.Statement.{Statement}
use filtrx.Listing.{Db, Result, ok}
use filtrx.Seeking.{Codec, Mapper, KeysetResult, key, encode_all, run_keyset}
use filtrx.Seeking.Rows.{add_cursor-some}
use filtrx.Connection.{
  first_cursor, last_cursor, Edge, Connection, add_edge, edges_of, relay_info, connected,
  connection_of, with_seek, list_connection,
}

-- Every edge's cursor is the encoding of the key of its node.
abbrev pub Labelled {ℓ} : {T : Type ℓ} → Codec → List (T → Value) → List (Edge T) → Type 0
Labelled codec fs [] = Unit
Labelled codec fs (e ∷ es) = (codec.encode (key fs e.node) ≡ some e.cursor) × Labelled codec fs es

module _ {ℓ} {T : Type ℓ} (codec : Codec) (fs : List (T → Value)) where
  abbrev Edged : List T → List Bytes → Type ℓ
  Edged rows cs =
      (es : List (Edge T)) × (edges_of rows cs ≡ some es)
      × (map (λ e. e.node) es ≡ rows)
      × Labelled codec fs es

  edges_of-cons :
      (r : T) (rs : List T) (c : Bytes) (ds cs : List Bytes) (es : List (Edge T))
      → cs ≡ c ∷ ds
      → edges_of rs ds ≡ some es
      → edges_of (r ∷ rs) cs ≡ some (record { node = r; cursor = c } ∷ es)
  unfolding edges_of
  edges_of-cons r rs c ds cs es split found = rw (split, edges_of, found) (unfold add_edge in refl)

  edges_of-encoded :
      (rows : List T) (cs : List Bytes)
      → encode_all codec (map (key fs) rows) ≡ some cs
      → Edged rows cs
  unfolding edges_of encode_all
  edges_of-encoded [] cs h = ([], refl, refl, tt)
  edges_of-encoded (r ∷ rs) cs h =
      let (c, ds, encoded, rest, split) =
        add_cursor-some (codec.encode (key fs r)) (encode_all codec (map (key fs) rs)) cs h in
      let (es, found, nodes, labels) = edges_of-encoded rs ds rest in
      (
        record { node = r; cursor = c } ∷ es,
        edges_of-cons r rs c ds cs es split found,
        ap (λ (x : List T). r ∷ x) nodes,
        (encoded, labels),
      )

with_seek-pass {ℓ} :
    {A : Type ℓ} {err : Option CompileError} {seek : Option SeekState} (s : SeekState)
    (rest : SeekState → Result A)
    → err ≡ none
    → seek ≡ some s
    → with_seek err seek rest ≡ rest s
with_seek-pass s rest e f = rw (e, f) (unfold with_seek in refl)

module _ {ℓ} {T : Type ℓ} where
  -- For a Seek query without an error whose keyset run gives rows with the cursors of their keys,
  -- `ListConnection` never fails or indexes out of range: its edges are the rows in order, each with
  -- the cursor of its own key; a page in the paging direction is there exactly if the run was
  -- truncated, one in the other direction exactly if a cursor was given, the start and end cursor are
  -- those of the first and the last row, and the total is -1 unless it was asked for.
  pub list_connection-edges :
      (db : Db T) (codec : Codec) (mapper : Mapper T) (q : Query) (s : SeekState)
      (fs : List (T → Value)) (r : KeysetResult) (rows : List T) (issued : List Statement)
      → q.err ≡ none
      → q.seek ≡ some s
      → run_keyset db codec mapper q s [] ≡ record { result = ok r; dest = rows; issued = issued }
      → encode_all codec (map (key fs) rows) ≡ some r.cursors
      → (conn : Connection T) × (list_connection db codec mapper q ≡ ok conn)
        × (map (λ e. e.node) conn.edges ≡ rows)
        × Labelled codec fs conn.edges
        × (conn.page_info.has_next_page
            ≡ (if s.before then not (is_empty s.cursor) else r.truncated))
        × (conn.page_info.has_previous_page
            ≡ (if s.before then r.truncated else not (is_empty s.cursor)))
        × (conn.page_info.start_cursor ≡ first_cursor r.cursors)
        × (conn.page_info.end_cursor ≡ last_cursor [] r.cursors)
        × (conn.total_count ≡ (if r.total_set then r.total else negsuc 0))
  unfolding list_connection connection_of
  list_connection-edges db codec mapper q s fs r rows issued no_err seeks ran encoded =
      let (es, found, nodes, labels) = edges_of-encoded codec fs rows r.cursors encoded in
      (
        record {
          edges = es;
          page_info = relay_info s r;
          total_count = (if r.total_set then r.total else negsuc 0);
        },
        with_seek-pass s _ no_err seeks ∙ rw (ran, connection_of, found) (unfold connected in refl),
        nodes,
        labels,
        unfold relay_info in refl,
        unfold relay_info in refl,
        unfold relay_info in refl,
        unfold relay_info in refl,
        refl,
      )
