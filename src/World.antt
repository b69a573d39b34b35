-- ===== src/World.antt =====
-- What a request can change: the database, the git repositories on the disk and the file of
-- authorized keys; and the steps on it, as a state monad.
--
-- `faults` says which of the writing statements to come the SQL engine refuses for a reason of its own
-- (a full disk, a locked file): `true` is a refusal, and an exhausted list has none. Such a statement
-- changes nothing and returns `error`. Statements that only read are taken to succeed.
--
-- `key_file_faults` says in the same way which of the openings of the file of authorized keys fail, for
-- want of a right to write it, say: the program may have dropped its privileges.
use scissy.Base.{ℕ, ◌≡◌, Bool, true, false, List, [], ◌∷◌, arith}
use scissy.Base.Bytes.{Bytes}
use scissy.Schema.{Database, Code, error, Stmt}

pub record World : Type 0 where
  pub db : Database
  -- the paths of the git repositories
  pub disk : List Bytes
  pub authorized_keys : Bytes
  pub faults : List Bool
  pub key_file_faults : List Bool
  pub now : ℕ

abbrev pub M {ℓ} : Type ℓ → Type ℓ
M A = World → A × World

infixl 5 ◌>>=◌ ◌>>◌
abbrev pub ◌>>=◌ {ℓ κ} : {A : Type ℓ} {B : Type κ} → M A → (A → M B) → M B
◌>>=◌ m f w = let (a, w') = m w in f a w'

abbrev pub ◌>>◌ {ℓ κ} : {A : Type ℓ} {B : Type κ} → M A → M B → M B
m >> k = m >>= λ _. k

abbrev pub pure {ℓ} : {A : Type ℓ} → A → M A
pure a w = (a, w)

-- A query: it reads the database and changes nothing.
abbrev pub query {ℓ} : {A : Type ℓ} → (Database → A) → M A
query f w = (f w.db, w)

-- The effect of a statement on a world whose faults are given.
unfoldable pub step_with : List Bool → Stmt → World → Code × World
step_with [] st w = let (c, d) = st w.db in (c, record w { db = d })
step_with (false ∷ fs) st w = let (c, d) = st w.db in (c, record w { db = d; faults = fs })
step_with (true ∷ fs) st w = (error, record w { faults = fs })

-- `Stmt::step` and `Stmt::exec` for a statement that writes.
unfoldable pub step : Stmt → M Code
unfolding step_with
step st w = step_with w.faults st w

-- A step keeps what the statement keeps.
pub step-keeps {ℓ} :
    (P : Database → Type ℓ) (st : Stmt) (w : World) → P w.db → P (st w.db).1 → P (step st w).1.db
unfolding step
step-keeps P st w = on w.faults
  where
    on : (fs : List Bool) → P w.db → P (st w.db).1 → P (step_with fs st w).1.db
    on [] h k = k
    on (false ∷ fs) h k = k
    on (true ∷ fs) h k = h

-- Without faults a step is its statement.
pub step-no_faults :
    (st : Stmt) (w : World)
    → w.faults ≡ []
    → ((step st w).0 ≡ (st w.db).0) × ((step st w).1.db ≡ (st w.db).1)
unfolding step
step-no_faults st w e = rw (e, step_with) (ground arith, ground arith)
