-- ===== src/Example/Store/Writes.antt =====
-- examples/store.go: the methods that write.
use filtrx.Base.{none, some, [], ◌∷◌, codes}
use filtrx.Base.Int.{ℤ}
use filtrx.Value.{int, text, time}
use filtrx.Query.{soft_delete}
use filtrx.Query.Statement.{Statement}
use filtrx.Mutate.{Assignments, Prepared, delete, update, run}
use filtrx.Example.Models.{Article}
use filtrx.Example.Store.{World, Answer, served, failed, db_failed, of_outcome, by_id, deleted_at}

module _ (w : World) where
  unfoldable pub insert_statement : Article → Statement
  insert_statement a = record {
    sql =
        codes
          "INSERT INTO articles (author_id, title, body, status, tags, views)\n\t\t VALUES ($1, $2, $3, $4, $5, $6) RETURNING id, created_at";
    args =
        int a.author_id
        ∷ text a.title
        ∷ text a.body
        ∷ text a.status
        ∷ w.array a.tags
        ∷ int a.views
        ∷ [];
  }

  -- `CreateArticle`: the article with what the database gives it.
  unfoldable pub create_row : Article → Answer Article
  create_row a = elim (w.insert (insert_statement a)) [
    | none ↦ failed db_failed
    | some (id, created) ↦ served (record a { id = id; created_at = created })
  ]

  -- The statement of `UpdateArticle`.
  unfoldable pub update_prepared : ℤ → Assignments → Prepared
  update_prepared id set = update (soft_delete deleted_at (by_id id)) set

  unfoldable pub update_row : ℤ → Assignments → Answer ℤ
  update_row id set = of_outcome (run w.execute (update_prepared id set))

  unfoldable pub soft_delete_article : ℤ → Answer ℤ
  soft_delete_article id = update_row id ((deleted_at, time w.now) ∷ [])

  -- The statement of `PurgeArticle`.
  unfoldable pub purge_prepared : ℤ → Prepared
  purge_prepared id = delete (by_id id)

  unfoldable pub purge_article : ℤ → Answer ℤ
  purge_article id = of_outcome (run w.execute (purge_prepared id))
