-- ===== src/Database.antt =====
-- What the SQL of both services rests on: a table of rows in insertion order with its serial
-- counter, the errors of sqlx, and statements that can fail on the wire.
pub mod ById
pub mod ByKey
use rust_microservices_archi.Prelude.{
  ℕ, ◌+◌, String, Bool, Option, none, some, List, ◌∷◌, [], ◌++◌, map, Result, ok, err, find, keep,
  length, not, if◌then◌else◌,
}

-- The variants of `sqlx::Error` that the code tells apart; each other one carries its text.
pub data SqlxError : Type 0 where
  row_not_found : SqlxError
  database : (unique_violation : Bool) → (text : String) → SqlxError
  other : (text : String) → SqlxError

pub record Table (A : Type 0) : Type 0 where
  pub rows : List A
  pub next_id : ℕ

-- What the network does to a statement: nothing, or it fails before or after it took effect.
pub data Fault : Type 0 where
  fine : Fault
  refused : SqlxError → Fault
  reply_lost : SqlxError → Fault

module _ {A : Type 0} where
  -- `SELECT … WHERE p` with `fetch_one`.
  unfoldable pub select_one : (A → Bool) → Table A → Result SqlxError A
  select_one p t = elim (find p t.rows) [ none ↦ err row_not_found | some row ↦ ok row ]

  -- `INSERT … RETURNING`: the sequence advances also where a constraint then refuses the row.
  unfoldable pub insert_row :
      (refusal : Option SqlxError) → (ℕ → A) → Table A → Result SqlxError A × Table A
  insert_row none row t =
      let new = row t.next_id in
      (ok new, record { rows = t.rows ++ new ∷ []; next_id = t.next_id + 1 })
  insert_row (some e) row t = (err e, record t { next_id = t.next_id + 1 })

  -- `UPDATE … SET f WHERE p`, on the rows.
  abbrev pub update_rows : (A → Bool) → (A → A) → List A → List A
  update_rows p f = map (λ row. if p row then f row else row)

  -- `DELETE … WHERE p` and `rows_affected`.
  unfoldable pub delete_rows : (A → Bool) → Table A → Result SqlxError ℕ × Table A
  delete_rows p t =
      (ok (length (keep p t.rows)), record t { rows = keep (λ row. not (p row)) t.rows })

module _ {D A : Type 0} where
  unfoldable pub statement : Fault → (D → Result SqlxError A × D) → D → Result SqlxError A × D
  statement fine f d = f d
  statement (refused e) f d = (err e, d)
  statement (reply_lost e) f d = (err e, (f d).1)
