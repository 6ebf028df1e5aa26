-- ===== src/Example/Server/Deleting.antt =====
-- examples/server.go: the statement that DELETE /articles/{id} runs.
use filtrx.Base.{◌≡◌, refl, ◌∙◌, ap, Bool, true, false, none, some, [], ◌∷◌, codes, if◌then◌else◌}
use filtrx.Base.Compare.{bytes_eq}
use filtrx.Base.Int.{ℤ}
use filtrx.Value.{Value, int, time}
use filtrx.Cond.Constructors.{eq_of}
use filtrx.Query.Statement.{Statement}
use filtrx.Mutate.{ready, exec, run}
use filtrx.Running.{running}
use filtrx.Example.Store.{World, get_value, of_outcome, by_id, deleted_at}
use filtrx.Example.Store.Writes.{
  purge_prepared, update_prepared, purge_article, update_row, soft_delete_article,
}
use filtrx.Example.Server.{Request, Response, response, bad_id, deleted, reply, delete_article}

-- DELETE FROM "articles" WHERE "id" = $1
abbrev pub purge_statement : ℤ → Statement
purge_statement id = record {
  sql = codes "DELETE FROM \"articles\" WHERE \"id\" = $1";
  args = int id ∷ [];
}

abbrev pub soft_delete_statement : Value → ℤ → Statement
soft_delete_statement now id = record {
  sql =
      codes
        "UPDATE \"articles\" SET \"deleted_at\" = $1 WHERE (\"id\" = $2 AND \"deleted_at\" IS NULL)";
  args = now ∷ int id ∷ [];
}

module _ (w : World) where
  purge_prepared-statement : (id : ℤ) → purge_prepared w id ≡ ready (purge_statement id)
  unfolding running purge_prepared by_id eq_of
  purge_prepared-statement id = refl

  soft_delete_prepared-statement :
      (id : ℤ)
      → update_prepared w id ((deleted_at, time w.now) ∷ [])
        ≡ ready (soft_delete_statement (time w.now) id)
  unfolding running update_prepared by_id eq_of
  soft_delete_prepared-statement id = refl

  chosen_statement :
      (purge : Bool) (id : ℤ)
      → (if purge then purge_article w id else soft_delete_article w id)
        ≡ of_outcome (
            exec w.execute
              (if purge then purge_statement id else soft_delete_statement (time w.now) id))
  unfolding purge_article soft_delete_article update_row run
  chosen_statement true id = ap (λ p. of_outcome (run w.execute p)) (purge_prepared-statement id)
  chosen_statement false id =
      ap (λ p. of_outcome (run w.execute p)) (soft_delete_prepared-statement id)

  -- DELETE /articles/{id} with an id that is a number runs one statement, on the row of that id alone:
  -- with purge=true a DELETE of it, and otherwise an UPDATE that sets its deletion time to now unless it
  -- is deleted already; the number of affected rows or the database's error is answered.
  pub delete_article-statement :
      (r : Request) (id : ℤ)
      → w.parsers.strings.atoi r.id ≡ some id
      → let purge = bytes_eq (get_value r.query (codes "purge")) (codes "true") in
        delete_article w r
        ≡ reply 200 deleted (
            of_outcome (
              exec w.execute
                (if purge then purge_statement id else soft_delete_statement (time w.now) id)))
  unfolding delete_article
  delete_article-statement r id e =
      let purge = bytes_eq (get_value r.query (codes "purge")) (codes "true") in
      ap
        (λ o.
          let out : Response = elim o [
            | none ↦ response 400 bad_id
            | some n ↦
                reply 200 deleted (if purge then purge_article w n else soft_delete_article w n)
          ] in
          out)
        e
      ∙ ap (reply 200 deleted) (chosen_statement purge id)
