-- ===== src/Lib.antt =====
-- filtrx: tagged filter structs compiled to SQL conditions, and Relay-style pagination over sqlx.
--
-- The program and its model, part by part (source paths from the repository's root):
--
-- - Value: what Go passes as `any` to a statement, by its reflect kind; a slice holds its elements.
-- - Dialect (dialect.go): the three built-in dialects as an enumeration, since the interface has
--   unexported methods; quoteName and quote are `quote_name` and `quote`, byte by byte. The child
--   Dialect/Quoting has the SQL rule by which a quoted identifier is read.
-- - Cond (cond.go, exists.go, fulltext.go): the condition tree with every node kind, and the builder
--   whose fields are the text, the arguments, the dialect and the argument position; `write` is the
--   method of that name on each node, `build_at` is buildAt. Cond/Tokens and Cond/Spec give the
--   abstract view, a list of fixed texts and holes; Cond/Render and Cond/Shape have the proofs.
-- - Paginate (paginate.go): Paginate as a function into its outcomes (a panic, a nil paginator with
--   its flag, or the variables of the returned closure, which is `resolve`). Go's int is an integer
--   with the 64-bit wrap-around of every sum written out (Base/Int). Paginate/Window states the Relay
--   window of a list of rows.
-- - Source (source.go): the parsers of the marker tags and the FROM clause.
-- - Query (query.go, and Seek and Unfiltered of the other files): the fluent query as a record, each
--   method a function on it; Query/Statement has the text and arguments of SELECT and COUNT.
-- - Listing (query.go): List on offset pages and Count. The database is a record of two functions of
--   a statement: the rows it scans to, each with the window total, and the number of a COUNT. The
--   result of a run is what List returns, the destination slice and the statements in order.
-- - Sort (query.go): Sort, with TrimSpace as a parameter and the map of allowed keys as its entries.
-- - Keyset (keyset.go): the seek predicate and the reversed ordering. Keyset/Semantics has the position
--   of a row's key against a boundary.
-- - Meaning: what a condition says of a row, by SQL's three-valued logic; how the database compares two
--   values that are not NULL, which rows an EXISTS correlates with a row, and what it says of raw text,
--   patterns, arrays and full-text search, are parameters. Query/Scope reads the soft-delete scope by
--   it, Holders/Meaning the holders, and Compile/Meaning a whole filter value.
-- - Seeking (keyset.go): runKeyset against a database; the cursor encoding is an interface (Codec),
--   sqlx's mapper from a column name to a field of the row type is a parameter (Mapper). Seeking/Rows
--   has the lemmas on the scan, Seeking/Page the theorem.
-- - Cursor (keyset.go): toCursorElem, fromCursorElem, encodeCursor and decodeCursor on keys that are
--   told apart as the type switch does; JSON, base64 and the formats of numbers and times are the
--   parameter Wire. Cursor/Codec fills the interface of Seeking with them, on the values of a row.
-- - Connection (connection.go, and List and listKeyset of query.go and keyset.go): what a keyset run
--   becomes, a PageInfo or a Relay connection. Connection/Walk states a client that pages forward
--   over List, on a fuel of one page for each row and one more, and what the database answers, and
--   Connection/Relay the same over ListConnection; Keyset/Kept has the rows that a WHERE keeps.
-- - Bind (bind.go): BindPage, BindSeek and listValues; strconv and TrimSpace are parameters, and a
--   query string is a function from a key to its values. Bind/Fields (bind.go, and setString of
--   opt.go) is Bind: the destination is the list of its fields, each described as in Reflect and with its
--   value; a run gives the destination as it is left and the error or panic that stopped it.
-- - Holders (holders.go, opt.go, fulltext.go, exists.go): the Predicates of the filter holders; the
--   conversion of a T to `any` is a parameter. Holders/Optional has the methods of Opt, with JSON and
--   the type assertion as parameters.
-- - Naming (plan.go, bind.go): a struct tag as a function from a key to its value, columnName,
--   wireName, snake, opWords and groupOr.
-- - Reflect (plan.go): what reflection says of a struct type is a description of its fields
--   (StructType); a type that stands inside another, in an Exists field, is part of it, and the
--   element type of a slice is named by its identity, since it may be the type around it. The role
--   of a field is classifyField.
-- - Plan (plan.go): buildPlan (`plan_fields`, a round of its loop is `field_action`) and planFor with
--   the cache as a list of entries. Plan/Cache has the reference without a cache. Plan/Goroutines is
--   planFor cut at each Load and Store of planCache, run by several goroutines in any order; it makes
--   at most two steps for each type and for each type of an Exists field in it (`steps_for`).
-- - Compile (plan.go): build and compileFilter on a description of the value of a struct, with the
--   cache threaded through. Compile/Direct reads a filter by its fields; Steps, Refers, Refine and
--   Where relate the two, Columns and Declared say which columns and verbatim texts can
--   occur.
-- - Mutate (mutate.go): Delete and Update as decisions between a statement and an error, and `exec`
--   on a database that is a function of the statement. A Go map is the list of its entries in some
--   order of iteration.
-- - Example (examples/): the article service. Example/Models has the rows, the filter structs with their
--   tags and what reflection reads of them (models.go), Example/Wire the filter variable before and
--   after Bind, Example/Store the methods and, apart, the query of each (store.go), Example/Server the
--   handlers from a request to a status and body (server.go), Example/Startup mustConnect and main
--   (main.go). The world of the store is a record: a database for each row type, the parsers of Bind, the
--   clock, pq.Array and the plans cached so far. Example/Shown says which articles a filter asks for,
--   and Example/Server/Feed what a client of the feed keeps.
--
-- Text is a list of bytes, literals are ASCII. Counters of arguments are natural numbers: they do not
-- reach the range of an int in memory. `itoa` recurs on a fuel one above its number, which is more
-- than the digits of the number. A panic is an outcome.
--
-- Not modelled: the texts of error messages, how far the array behind a slice goes on (a slice
-- beyond the rows that are there panics), the package comment (doc.go), and of the example service
-- which route http.ServeMux chooses, the JSON of requests and responses, the headers, the log and the
-- schema.
pub mod Base
pub mod Value
pub mod Dialect
pub mod Cond
pub mod Paginate
pub mod Source
pub mod Query
pub mod Keyset
pub mod Mutate
pub mod Listing
pub mod Meaning
pub mod Seeking
pub mod Connection
pub mod Bind
pub mod Cursor
pub mod Sort
pub mod Holders
pub mod Naming
pub mod Reflect
pub mod Plan
pub mod Compile
pub mod Running
pub mod Example
pub mod Tests
