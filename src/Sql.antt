-- ===== src/Sql.antt =====
-- database/sql as `internal/database` uses it: statements on the contents of a database file that
-- one connection runs in turn (`SetMaxOpenConns(1)`), each of which the driver may fail.
use relayly.Base.{Bool, false, List, [], ◌∷◌, Result, ok, err, if◌then◌else◌}

-- `faults` says for the statements to come, one by one, whether the driver fails them.
pub record Store (S : Type 0) : Type 0 where
  pub contents : S
  pub faults : List Bool

abbrev pub next : List Bool → Bool
next [] = false
next (f ∷ fs) = f

abbrev pub later : List Bool → List Bool
later [] = []
later (f ∷ fs) = fs

abbrev pub Sql : Type 0 → Type 0 → Type 0 → Type 0
Sql S E A = Store S → Result E A × Store S

module _ {S E A B : Type 0} where
  abbrev pub after : Result E A × Store S → (A → Sql S E B) → Result E B × Store S
  after (ok a, s) f = f a s
  after (err e, s) f = (err e, s)

  infixl 5 ◌>>=◌
  abbrev pub ◌>>=◌ : Sql S E A → (A → Sql S E B) → Sql S E B
  ◌>>=◌ m f s = after (m s) f

module _ {S E B : Type 0} where
  infixl 5 ◌>>◌
  abbrev pub ◌>>◌ : Sql S E (Unit {0}) → Sql S E B → Sql S E B
  ◌>>◌ m k s = after (m s) (λ _. k)

module _ {S E A : Type 0} where
  abbrev pub return : A → Sql S E A
  return a s = (ok a, s)

  abbrev pub fail : E → Sql S E A
  fail e s = (err e, s)

  -- A query of the contents: `e` is the driver's error.
  abbrev pub query : E → (S → A) → Sql S E A
  query e read s =
      if next s.faults
      then (err e, record s { faults = later s.faults })
      else (ok (read s.contents), record s { faults = later s.faults })

  -- A statement that fails has changed nothing.
  abbrev pub exec : E → A → (S → S) → Sql S E A
  exec e a change s =
      if next s.faults
      then (err e, record s { faults = later s.faults })
      else (ok a, record { contents = change s.contents; faults = later s.faults })

  -- `tx.Commit()`, and the deferred `tx.Rollback()` where the body or the commit has failed.
  abbrev pub commit : E → S → Result E A × Store S → Result E A × Store S
  commit e before (err e', s) = (err e', record s { contents = before })
  commit e before (ok a, s) =
      if next s.faults
      then (err e, record { contents = before; faults = later s.faults })
      else (ok a, record s { faults = later s.faults })

  -- `db.Begin()`, the body, and the end of the transaction.
  abbrev pub transaction : E → Sql S E A → Sql S E A
  transaction e body s =
      if next s.faults
      then (err e, record s { faults = later s.faults })
      else commit e s.contents (body (record s { faults = later s.faults }))
