-- ===== src/Store/Provider.antt =====
-- The database provider (store/db.ts). better-sqlite3 throws when a statement meets a constraint;
-- the Supabase client returns the error in a field that the store modules do not read, so there
-- the statement is dropped in silence.
use inspect_element.Prelude.Results.{Result, ok, err, constraint}

pub data Provider : Type 0 where
  sqlite supabase : Provider

-- A statement that is refused by a constraint, on the table as it was.
abbrev pub refused {ℓ} : {A : Type ℓ} → Provider → A → Result A
refused sqlite table = err constraint
refused supabase table = ok table
