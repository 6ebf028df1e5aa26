-- ===== src/Tests/Walking.antt =====
-- A client that pages through all the users of Tests/Cursors, two at a time.
use Prim.Native.Nat.{Ordering, compare}
use filtrx.Base.{ℕ, ◌≡◌, refl, true, some, [], ◌∷◌, codes, arith}
use filtrx.Base.Int.{pos}
use filtrx.Value.{Value, int}
use filtrx.Query.{scope_cond, from_table, order_by, has_relevance_order, any_rank, effective_cond}
use filtrx.Query.Statement.{build_keyset_select, keyset_limit, count_statement}
use filtrx.Keyset.{
  keyset_cond, branches, after_compare, after_value, after_null, null_eq, is_nil, or_nothing,
}
use filtrx.Meaning.{no_false, eval_leaf, eval}
use filtrx.Keyset.Semantics.{key_position, position}
use filtrx.Seeking.{key, key_fields, add_field, unqualify, last_part, seek_error}
use filtrx.Connection.Walk.{Paging, pages, page_at}
use filtrx.Connection.Relay.{connection_page}
use filtrx.Connection.Complete.{pages_complete}
use filtrx.Running.{running}
use filtrx.Tests.Cursors.{users, users_db, id_codec, id_mapper, id_of}

abbrev compare_ids : Value → Value → Ordering
compare_ids (int (pos a)) (int (pos b)) = compare a b
compare_ids v w = Ordering.eq

abbrev walk : Paging ℕ
walk = record {
  table = users;
  view = λ r col. id_of r;
  cursor_of = λ r. r ∷ [];
  sem = record { compare_values = compare_ids; related = λ s o r. []; other = λ c r. no_false };
  db = users_db;
  codec = id_codec;
  mapper = id_mapper;
  q = order_by (codes "u.id") (from_table (codes "users"));
  m = 1;
  count = 6;
  total = true;
}

-- To name `walking` on an `unfolding` line opens what a page asks of the database.
unfoldable walking : Unit {0}
unfolding running seek_error key_fields add_field unqualify last_part key keyset_cond branches
    after_compare after_value after_null null_eq is_nil or_nothing build_keyset_select keyset_limit
    has_relevance_order any_rank effective_cond scope_cond eval_leaf eval key_position position
    count_statement
walking = tt

pages_complete_example :
    (pages (page_at walk) 7 [] [] ≡ some (0 ∷ 1 ∷ 2 ∷ 3 ∷ 4 ∷ 5 ∷ []))
    × (pages (connection_page walk) 7 [] [] ≡ some (0 ∷ 1 ∷ 2 ∷ 3 ∷ 4 ∷ 5 ∷ []))
unfolding walking
pages_complete_example =
    pages_complete walk (id_of ∷ []) refl refl (omega arith) refl (λ r. refl) (λ r. refl)
      (
        (λ e. refl, tt),
        (
          (λ e. refl, tt),
          ((λ e. refl, tt), ((λ e. refl, tt), ((λ e. refl, tt), ((λ e. refl, tt), tt)))),
        ),
      )
      (
        refl,
        ((refl, refl), ((refl, refl), ((refl, refl), ((refl, refl), ((refl, refl), tt))))),
        (
          refl,
          ((refl, refl), ((refl, refl), ((refl, refl), ((refl, refl), tt)))),
          (
            refl,
            ((refl, refl), ((refl, refl), ((refl, refl), tt))),
            (refl, ((refl, refl), ((refl, refl), tt)), (refl, ((refl, refl), tt), (refl, tt, tt))),
          ),
        ),
      )
      (
        ((refl, refl, refl), refl, refl),
        (
          ((refl, refl, refl), refl, refl),
          (
            ((refl, refl, refl), refl, refl),
            (
              ((refl, refl, refl), refl, refl),
              (((refl, refl, refl), refl, refl), (((refl, refl, refl), refl, refl), tt)),
            ),
          ),
        ),
      )
      6 refl refl (omega arith)
