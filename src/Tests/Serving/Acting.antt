-- ===== src/Tests/Serving/Acting.antt =====
-- A deletion over HTTP, and the start of the service.
use filtrx.Base.{ℕ, ◌≡◌, refl, Option, none, some, [], ◌∷◌, codes, ltb, if◌then◌else◌}
use filtrx.Base.Compare.{bytes_eq}
use filtrx.Base.Int.{pos}
use filtrx.Value.{time}
use filtrx.Mutate.{exec}
use filtrx.Example.Store.{get_value, of_outcome}
use filtrx.Example.Server.{Request, deleted, reply, delete_article}
use filtrx.Example.Server.Deleting.{
  purge_statement, soft_delete_statement, delete_article-statement,
}
use filtrx.Example.Startup.{must_connect}
use filtrx.Example.Startup.Tries.{FirstTry, must_connect-FirstTry}
use filtrx.Tests.Serving.{world, ask}

-- DELETE /articles/7
abbrev delete_seventh : Request
delete_seventh = ask [] (0 ∷ 7 ∷ [])

delete_article-statement_example :
    delete_article world delete_seventh
    ≡ reply 200 deleted (
        of_outcome (
          exec world.execute (
            if bytes_eq (get_value delete_seventh.query (codes "purge")) (codes "true")
            then purge_statement (pos 7)
            else soft_delete_statement (time world.now) (pos 7))))
delete_article-statement_example = delete_article-statement world delete_seventh (pos 7) refl

-- A database that is ready at the fourth try.
abbrev late : ℕ → Option ℕ
late i = if ltb i 3 then none else some 7

must_connect-FirstTry_example : FirstTry late (must_connect late)
must_connect-FirstTry_example = must_connect-FirstTry late
