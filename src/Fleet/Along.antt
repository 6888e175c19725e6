-- ===== src/Fleet/Along.antt =====
-- Relations between the database before and after an action of the store: what holds of each statement
-- holds of what is composed from them (the operators that pkg/fleet and internal/dashboard are
-- modelled with).
use cloudflared_fips.Prelude.{inl, inr, Bool-cases}
use cloudflared_fips.Fleet.Db.{Db, Driver, Stmt, Action, statement}

module _ (R : Db → Db → Type 0) where
  -- An action takes every database to a related one.
  abbrev pub Along : {A : Type 0} → Action A → Type 0
  Along m = (db : Db) → R db (m db).0

module _ (R : Db → Db → Type 0) (same : (db : Db) → R db db)
    (after : (a b c : Db) → R a b → R b c → R a c) where
  pub Along-statement :
      {A : Type 0} (d : Driver) (s : Stmt) (m : Action A) → Along R m → Along R (statement d s m)
  Along-statement d s m h db = elim (Bool-cases (d.fails s)) [
    | inl e ↦ rw (e, statement) (same db)
    | inr e ↦ rw (e, statement) (h db)
  ]
