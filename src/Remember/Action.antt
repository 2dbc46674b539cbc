-- ===== src/Remember/Action.antt =====
-- A step of the writer: tables and failures. What was written before a failure stays written, since
-- src/ohmyboring/remember/writer.py turns a failure into a value inside the connection's block.
use ohmyboring.Prelude.{Text, ◌≡◌, ap}
use ohmyboring.Result.{Either, ok, err}
use ohmyboring.Remember.Tables.{Db}

abbrev pub Action : Type 0 → Type 0
Action A = Db → Either A Text × Db

module _ {A : Type 0} where
  abbrev pub pure : A → Action A
  pure a db = (ok a, db)

  abbrev pub give_up : Text → Action A
  give_up reason db = (err reason, db)

abbrev continue : {A B : Type 0} → (A → Action B) → Either A Text × Db → Either B Text × Db
continue f (ok a, db) = f a db
continue f (err reason, db) = (err reason, db)

infixl 5 ◌>>=◌ ◌>>◌
abbrev pub ◌>>=◌ : {A B : Type 0} → Action A → (A → Action B) → Action B
◌>>=◌ m f db = continue f (m db)

abbrev pub ◌>>◌ : {A B : Type 0} → Action A → Action B → Action B
m >> k = m >>= λ _. k

-- An SQL statement that changes the tables.
abbrev pub execute : (Db → Db) → Action (Unit {0})
execute f db = (ok tt, f db)

pub bind-runs :
    {A B : Type 0} (m : Action A) (f : A → Action B) (db : Db) (a : A) (d : Db)
    → m db ≡ (ok a, d)
    → (m >>= f) db ≡ f a d
bind-runs m f db a d ran = ap (continue f) ran

pub bind-fails :
    {A B : Type 0} (m : Action A) (f : A → Action B) (db : Db) (reason : Text) (d : Db)
    → m db ≡ (err reason, d)
    → (m >>= f) db ≡ (err reason, d)
bind-fails m f db reason d failed = ap (continue f) failed
