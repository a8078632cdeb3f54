-- ===== src/Batch/Keeps.antt =====
-- What the writing of the rows of a batch keeps of the world.
use lake_go.Prelude.{Option, none, some, List, [], ◌∷◌, Bytes}
use lake_go.Prelude.Result.{Result, ok, err}
use lake_go.Client.Errors.{Failure}
use lake_go.Sql.Encoder.{EncodeError, Formats}
use lake_go.Batch.{
  Cell, BatchError, System, line_data, flushed, append_line, append_opened, append_to_file, or_stop,
  append_rows,
}

-- What opening the file for writing and writing it keep.
pub record WritingKeeps {W B T : Type 0} (sys : System W B T) (file : Bytes) (P : W → Type 0)
    : Type 0 where
  pub open_keeps : (w : W) → P w → P (sys.open_append file w).1
  pub write_keeps :
      (line : List Bytes) (buffer : B) (w : W) → P w → P (sys.write_record file line buffer w).1
  pub flush_keeps : (buffer : B) (w : W) → P w → P (sys.flush file buffer w).1

module _ {W B T : Type 0} (sys : System W B T) (fmt : Formats T) (file : Bytes) (P : W → Type 0)
    (keeps : WritingKeeps sys file P) where
  append_to_file_keeps :
      (row : List (Cell T)) (w : W) → P w → P (append_to_file sys fmt file row w).1
  unfolding append_to_file append_opened append_line flushed
  append_to_file_keeps row w p = opened (sys.open_append file w) (keeps.open_keeps w p)
    where
      written : (r : Result Failure B × W) → P r.1 → P (flushed sys fmt file r).1
      written (err e, w) p = p
      written (ok buffer, w) p = keeps.flush_keeps buffer w p

      line :
          (r : Result EncodeError (List Bytes)) (w : W) → P w → P (append_line sys fmt file r w).1
      line (err e) w p = p
      line (ok s) w p = written _ (keeps.write_keeps s sys.new_writer w p)

      opened : (r : Option Failure × W) → P r.1 → P (append_opened sys fmt file row r).1
      opened (some e, w) p = p
      opened (none, w) p = line (line_data sys fmt row) w p

  or_stop_keeps :
      (next : W → Result BatchError (Unit {0}) × W) (r : Result BatchError (Unit {0}) × W)
      → ((w : W) → P w → P (next w).1)
      → P r.1
      → P (or_stop sys fmt next r).1
  unfolding or_stop
  or_stop_keeps next (err e, w) k p = p
  or_stop_keeps next (ok done, w) k p = k w p

  -- Whatever comes of it, writing the rows of a batch keeps what opening and writing the file keep.
  pub append_rows_keeps :
      (rows : List (List (Cell T))) (w : W) → P w → P (append_rows sys fmt file rows w).1
  unfolding append_rows
  append_rows_keeps [] w p = p
  append_rows_keeps (row ∷ rows) w p =
      or_stop_keeps (append_rows sys fmt file rows) (append_to_file sys fmt file row w)
        (append_rows_keeps rows) (append_to_file_keeps row w p)
