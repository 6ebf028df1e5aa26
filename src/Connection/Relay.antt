-- ===== src/Connection/Relay.antt =====
-- Paging forward over ListConnection: the page behind a boundary.
use filtrx.Base.{
  suc, ◌+◌, ◌<◌, ◌≡◌, refl, ◌∙◌, ap, Option, none, some, List, [], ◌++◌, map, length, take, Bytes,
  ltb,
}
use filtrx.Base.Int.{pos, half_range}
use filtrx.Value.{Value}
use filtrx.Query.{seek}
use filtrx.Keyset.Kept.{kept, columns}
use filtrx.Listing.{PageInfo, empty_info, Result, ok, compile_error, query_error, panicked, Listed}
use filtrx.Seeking.{key, key_fields, seek_error}
use filtrx.Connection.{Connection, list_connection, last_cursor}
use filtrx.Connection.Edges.{list_connection-edges}
use filtrx.Connection.Walk.{
  Paging, forward, query_at, cursor_at, boundary, Served, Counted, Encoded, AllGood, seek-forward,
  run_keyset-rows,
}

-- What a client keeps of a connection: the nodes behind those it has, and the flag and cursor that it
-- goes on with.
abbrev pub as_page {ℓ} : {T : Type ℓ} → List T → Result (Connection T) → Listed T
as_page dest (ok c) = record {
  result = ok (record empty_info {
    truncated = c.page_info.has_next_page;
    end_cursor = c.page_info.end_cursor;
  });
  dest = dest ++ map (λ e. e.node) c.edges;
  issued = [];
}
as_page dest (compile_error e) = record { result = compile_error e; dest = dest; issued = [] }
as_page dest query_error = record { result = query_error; dest = dest; issued = [] }
as_page dest (panicked p) = record { result = panicked p; dest = dest; issued = [] }

module _ {ℓ} {T : Type ℓ} (w : Paging T) where
  -- The connection of `suc m` rows behind a cursor.
  abbrev pub connection_at : Bytes → Result (Connection T)
  connection_at cursor = list_connection w.db w.codec w.mapper (
      seek (record { after = cursor; before = []; size = pos (suc w.m); include_total = w.total })
        w.q)

  abbrev pub connection_page : Bytes → List T → Listed T
  connection_page cursor dest = as_page dest (connection_at cursor)

  -- A page that holds the next rows of `ys`, and says whether there are more and where they start.
  abbrev pub Gives : Listed T → List T → List T → Type ℓ
  Gives p dest ys =
      (info : PageInfo) × (p.result ≡ ok info)
      × (info.truncated ≡ ltb (suc w.m) (length ys))
      × (info.end_cursor ≡ last_cursor [] (map w.cursor_of (take (suc w.m) ys)))
      × (p.dest ≡ dest ++ take (suc w.m) ys)

  pub connection_page-rows :
      (fs : List (T → Value)) (b : Option T) (dest ys : List T)
      → w.q.err ≡ none
      → seek_error w.q (forward w []) ≡ none
      → suc w.m + 1 < half_range
      → key_fields w.mapper w.q.order ≡ some fs
      → ((r : T) → key fs r ≡ columns w.sem w.view w.q.order r)
      → ((r : T) → b ≡ some r → Encoded w r)
      → Served w b
      → Counted w b
      → kept w.sem w.view (boundary w b) w.table ≡ ys
      → AllGood w (take (suc w.m) ys)
      → Gives (connection_page (cursor_at w b) dest) dest ys
  connection_page-rows fs b dest ys fine checks small fields agree decodes served counted left
        good =
      let (issued, ran, encoded) =
        run_keyset-rows w fs b [] ys checks small fields agree decodes served counted left good in
      let (conn, same, nodes, labels, next, previous, start, last, total) =
        list_connection-edges w.db w.codec w.mapper (query_at w (cursor_at w b))
          (forward w (cursor_at w b)) fs _ (take (suc w.m) ys) issued fine refl ran encoded in
      let here =
        ap (λ q. list_connection w.db w.codec w.mapper q) (seek-forward w (cursor_at w b)) ∙ same in
      rw here (
        (
          record empty_info {
            truncated = conn.page_info.has_next_page;
            end_cursor = conn.page_info.end_cursor;
          },
          refl,
          next,
          last,
          ap (λ rows. dest ++ rows) nodes,
        ))
