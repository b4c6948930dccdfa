-- ===== src/Applier/Flusher.antt =====
-- pkg/applier/flusher.go, pkg/applier/absent.go, pkg/applier/complete.go and `split` of
-- pkg/applier/flush_sql.go: how a flush turns a drained batch into statements on the shadow. What the
-- database answers is an argument, and an answer to a statement may depend on the statements that ran
-- before it. The conversions, which change a statement's text only, are left out.
use pg_sprite.Applier.Buffer.Invariant.{is_some}
use pg_sprite.Applier.Buffer.{is_image}
use pg_sprite.Applier.Drain.{Batch, complete_first}
use pg_sprite.Applier.Hold.{HeldImage, in_shadow_form}
use pg_sprite.Prelude.Assoc.{Assoc}
use pg_sprite.Applier.Entry.{
  Entry, Column, delete_marker, find_column, null, image, overlay, text, has_marker,
}
use pg_sprite.Prelude.{
  Bool, List, Option, String, [], ℕ, false, if◌then◌else◌, some, true, ◌++◌, ◌∷◌, none, not, ◌+◌,
  ◌==◌, ◌||◌,
}
use pg_sprite.Prelude.Int64.{Int64}
pub mod Moved
pub mod Writes
pub mod Transaction
pub mod Moves
pub mod Accounts
pub mod Absences
pub mod Touches
pub mod Commits
pub mod Fallback
pub mod Outcome

-- A statement on the shadow, without its text.
pub data Statement : Type 0 where
  delete_row : Int64 → Statement
  upsert_row update_row insert_row : Int64 → List Column → Statement
  delete_rows : List Int64 → Statement

-- What the server answers: the number of rows, a unique or exclusion violation, or another error.
pub data Executed : Type 0 where
  affected : ℕ → Executed
  collides fails : Executed

-- A row's columns as text, NULL as none, and the position of the read.
pub data RowRead : Type 0 where
  row : List (Option String) → ℕ → RowRead
  absent unreadable : RowRead

pub record Server : Type 0 where
  pub begin_fails : Bool
  pub conversions_fail : Bool
  -- By the key and the columns' names, at the start of the flush.
  pub shadow_row : Int64 → List String → RowRead
  pub source_row : Int64 → List String → RowRead
  pub shadow_keys : List Int64 → Option ((Int64 → Bool) × ℕ)
  -- The shadow row, read again for the fallback.
  pub reread_row : Int64 → List String → RowRead
  pub save_fails : Bool
  pub release_fails : Bool
  pub execute : List Statement → Statement → Executed
  pub unresolved : Bool
  pub commit_fails : Bool
  pub lock_lost : Bool

pub data FlushError : Type 0 where
  db_error collision batch_deferred table_lock_lost nil_old_key : FlushError
  absent_again no_row_to_update no_row_to_complete omits_column : FlushError

pub data Attempt {ℓ} (A : Type ℓ) : Type ℓ where
  success : A → Attempt A
  raised : FlushError → Attempt A

infixl 5 ◌>>=◌
abbrev pub ◌>>=◌ {ℓ κ} : {A : Type ℓ} {B : Type κ} → Attempt A → (A → Attempt B) → Attempt B
success a >>= f = f a
raised e >>= f = raised e

pub record Result : Type 0 where
  pub images : ℕ
  pub deletes : ℕ
  pub completed : ℕ
  pub held : List HeldImage
  pub skipped : List Int64
  pub fallback : Bool

abbrev pub empty_result : Result
empty_result = record {
  images = 0;
  deletes = 0;
  completed = 0;
  held = [];
  skipped = [];
  fallback = false;
}

-- The column under a name, if it has a value.
abbrev pub present_column : String → List Column → Option Column
present_column n cs = elim (find_column n cs) [
  | none ↦ none
  | some c ↦ if c.present then some c else none
]

abbrev pub sort_out : String → Option Column → List Column × List String → List Column × List String
sort_out n (some c) (present, markers) = (c ∷ present, markers)
sort_out n none (present, markers) = (present, n ∷ markers)

-- The writable columns are given by their names.
unfoldable pub split : List String → List Column → List Column × List String
split [] cs = ([], [])
split (n ∷ ns) cs = sort_out n (present_column n cs) (split ns cs)

unfoldable pub read_columns : List String → List (Option String) → List Column
read_columns [] vs = []
read_columns (n ∷ ns) [] = []
read_columns (n ∷ ns) (none ∷ vs) =
    record { name = n; value = null; present = true } ∷ read_columns ns vs
read_columns (n ∷ ns) (some t ∷ vs) =
    record { name = n; value = text t; present = true } ∷ read_columns ns vs

pub record Completion : Type 0 where
  pub columns : List Column
  pub read_lsn : ℕ

unfoldable pub complete_from : List String → RowRead → Attempt (Option Completion)
complete_from markers (row vs lsn) =
    success (some (record { columns = read_columns markers vs; read_lsn = lsn }))
complete_from markers absent = success none
complete_from markers unreadable = raised db_error

abbrev pub is_empty {ℓ} : {A : Type ℓ} → List A → Bool
is_empty [] = true
is_empty (x ∷ xs) = false

-- The property of what an attempt gives, if it gives something.
abbrev pub Holds {ℓ κ} : {A : Type ℓ} → (A → Type κ) → Attempt A → Type κ
Holds P (success a) = P a
Holds P (raised e) = Unit

pub bind-Holds {ℓ κ μ ν} :
    {A : Type ℓ} {B : Type κ} (P : A → Type μ) (Q : B → Type ν) (r : Attempt A) (f : A → Attempt B)
    → Holds P r
    → ((a : A) → P a → Holds Q (f a))
    → Holds Q (r >>= f)
bind-Holds P Q (success a) f h g = g a h
bind-Holds P Q (raised e) f h g = tt

pub map-Holds {ℓ κ μ} :
    {A : Type ℓ} (P : A → Type κ) (Q : A → Type μ) (r : Attempt A)
    → ((a : A) → P a → Q a)
    → Holds P r
    → Holds Q r
map-Holds P Q (success a) f h = f a h
map-Holds P Q (raised e) f h = tt
