-- ===== src/Store/Session.antt =====
-- The store's connection: statements that may fail, and transactions (src/store.rs).
pub mod Through
pub mod Atomic
pub mod Ends
use hymenium.Prelude.{ℕ, suc, String, Bool, Option, none, some, List, is_some, if◌then◌else◌}
use hymenium.Workflow.Template.{WorkflowTemplate}
use hymenium.Workflow.Engine.{Timestamp, Clock}
use hymenium.Outcome.{WorkflowOutcome}
use hymenium.Store.{StoreError, sqlite, json, nested_transaction, StoreResult, stored, store_error}
use hymenium.Store.Rows.{TimeCodec}
use hymenium.Store.Tables.{Tables, Statement}

pub data JsonResult (A : Type 0) : Type 0 where
  json_value : A → JsonResult A
  json_error : String → JsonResult A

-- What the store relies on. `fault n` is the error of the database at the connection's n-th
-- statement, if there is one, and `now n` what the clock shows as its parameters are bound; `clock n`
-- gives the program's readings between that statement and the one before. `later` compares two texts
-- as `ORDER BY` does.
pub record Environment : Type 0 where
  pub fault : ℕ → Option String
  pub now : ℕ → Timestamp
  pub clock : ℕ → Clock
  pub later : String → String → Bool
  pub times : TimeCodec
  pub encode_template : WorkflowTemplate → JsonResult String
  pub decode_template : String → JsonResult WorkflowTemplate
  pub encode_outcome : WorkflowOutcome → JsonResult String
  pub decode_outcome : String → JsonResult WorkflowOutcome

-- The connection: the tables as it sees them, what a rollback brings back while a transaction is
-- open, and the number of statements so far.
pub record Session : Type 0 where
  pub tables : Tables
  pub saved : Option Tables
  pub count : ℕ

pub data Attempt (E A : Type 0) : Type 0 where
  succeeded : A → Attempt E A
  raised : E → Attempt E A

abbrev pub Action : Type 0 → Type 0 → Type 0
Action E A = Session → Attempt E A × Session

abbrev pub continue :
    {E A B : Type 0} → Attempt E A × Session → (A → Action E B) → Attempt E B × Session
continue (succeeded a, s) f = f a s
continue (raised e, s) f = (raised e, s)

infixl 10 ◌>>=◌ ◌>>◌
abbrev pub ◌>>=◌ : {E A B : Type 0} → Action E A → (A → Action E B) → Action E B
◌>>=◌ m f s = continue (m s) f

abbrev pub ◌>>◌ : {E A B : Type 0} → Action E A → Action E B → Action E B
m >> n = m >>= λ _. n

abbrev pub pure : {E A : Type 0} → A → Action E A
pure a s = (succeeded a, s)

abbrev pub raise : {E A : Type 0} → E → Action E A
raise e s = (raised e, s)

-- `?` on a value that was computed without the database.
abbrev pub lift : {A : Type 0} → StoreResult A → Action StoreError A
lift (stored a) = pure a
lift (store_error e) = raise e

abbrev pub from_json : {A : Type 0} → JsonResult A → StoreResult A
from_json (json_value a) = stored a
from_json (json_error m) = store_error (json m)

-- `?` into another type of errors.
abbrev pub convert : {E F A : Type 0} → (E → F) → Attempt E A × Session → Attempt F A × Session
convert from (succeeded a, s) = (succeeded a, s)
convert from (raised e, s) = (raised (from e), s)

abbrev pub into : {E F A : Type 0} → (E → F) → Action E A → Action F A
into from m s = convert from (m s)

abbrev next : Session → Session
next s = record s { count = suc s.count }

abbrev pub answered :
    {A : Type 0}
    → Option String
    → StoreResult (A × Tables)
    → Session
    → Attempt StoreError A × Session
answered (some m) r s = (raised (sqlite m), next s)
answered none (store_error e) s = (raised e, next s)
answered none (stored (a, t)) s = (succeeded a, record (next s) { tables = t })

-- One statement, which reads the clock for its parameters.
unfoldable pub execute :
    {A : Type 0} → Environment → (Timestamp → Statement A) → Action StoreError A
execute env f s = answered (env.fault s.count) (f (env.now s.count) s.tables) s

abbrev begun : Option String → Session → Attempt StoreError (Unit {0}) × Session
begun (some m) s = (raised (sqlite m), next s)
begun none s = (succeeded tt, record (next s) { saved = some s.tables })

abbrev committed :
    {E A : Type 0} → (StoreError → E) → A → Option String → Session → Attempt E A × Session
committed from a (some m) s = (raised (from (sqlite m)), next s)
committed from a none s = (succeeded a, record (next s) { saved = none })

abbrev restored : Option Tables → Session → Session
restored none s = next s
restored (some t) s = record (next s) { tables = t; saved = none }

-- A rollback that fails is only printed.
abbrev rolled_back : {E A : Type 0} → E → Option String → Session → Attempt E A × Session
rolled_back e (some m) s = (raised e, next s)
rolled_back e none s = (raised e, restored s.saved s)

abbrev finish :
    {E A : Type 0} → Environment → (StoreError → E) → Attempt E A × Session → Attempt E A × Session
finish env from (succeeded a, s) = committed from a (env.fault s.count) s
finish env from (raised e, s) = rolled_back e (env.fault s.count) s

abbrev begin : {E A : Type 0} → Environment → (StoreError → E) → Action E A → Action E A
begin env from body s =
    continue (convert from (begun (env.fault s.count) s)) λ _ s'. finish env from (body s')

-- `E::from` is `from`. The connection is in autocommit mode unless a transaction is open.
unfoldable pub with_transaction :
    {E A : Type 0} → Environment → (StoreError → E) → Action E A → Action E A
with_transaction env from body s =
    if is_some s.saved then (raised (from nested_transaction), s) else begin env from body s
