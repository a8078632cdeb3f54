-- ===== src/Batch.antt =====
-- batch.go, and `ExecBatch` of connection.go: rows are written to a temporary file, which is uploaded to a
-- stage and inserted from there. The operating system, the CSV writer and the regular expression are an
-- interface.
pub mod Keeps
pub mod Written
pub mod Cleanup
pub mod Endpoint
use lake_go.Prelude.{
  ℕ, Bool, true, false, Option, none, some, List, [], ◌∷◌, ◌++◌, if◌then◌else◌, Bytes, codes,
  length, ◌==◌,
}
use lake_go.Prelude.Decimal.{ℤ, decimal_ℤ}
use lake_go.Prelude.Result.{Result, ok, err, ◌>>=◌, map_err}
use lake_go.Client.Errors.{Failure, other, wrap}
use lake_go.Client.State.{Client}
use lake_go.Client.Context.{check_query_id}
use lake_go.Client.Retry.{Retrier}
use lake_go.Sql.Encoder.{GoValue, EncodeError, Formats, encode}
use lake_go.Query.Response.{QueryResponse}
use lake_go.Query.Calls.Send.{Setting, Call, insert_with_stage}
use lake_go.Stage.{StageLocation, StageConfig, Storage, stage_attachment, upload_to_stage}
use lake_go.Conn.{Conn}

-- The types that AppendToFile tells apart.
pub data Cell (T : Type 0) : Type 0 where
  text : Bytes → Cell T
  instant : T → Cell T
  day : T → Cell T
  value : GoValue T → Cell T

pub data BatchError : Type 0 where
  call_failed : Failure → BatchError
  bad_value : EncodeError → BatchError
  -- the run-time panic of a nil client
  nil_client : BatchError

-- httpBatch, without its context and its connection
pub record Batch : Type 0 where
  pub query : Bytes
  pub batch_file : Bytes

-- What batch.go calls. `B` is the buffer of a csv.Writer; writing a record can fail, and so can the
-- flush, whose error the writer keeps. Reading an open file gives its bytes, or an error.
pub record System (W B T : Type 0) : Type 0 where
  -- httpInsertRe matches
  pub is_insert : Bytes → Bool
  pub temp_dir : W → Bytes
  pub new_uuid : W → Bytes × W
  pub open_append : Bytes → W → Option Failure × W
  pub new_writer : B
  pub write_record : Bytes → List Bytes → B → W → Result Failure B × W
  pub flush : Bytes → B → W → Option Failure × W
  pub stat_size : Bytes → W → Result Failure ℕ × W
  pub open_read : Bytes → W → Result Failure (Result Failure Bytes) × W
  pub remove_all : Bytes → W → Option Failure × W
  pub unix_now : W → ℤ
  pub base_name : Bytes → Bytes
  pub log_failure : Failure → W → W
  -- Format(timeFormat) and Format(dateFormat)
  pub format_time : T → Bytes
  pub format_date : T → Bytes

module _ {W B T : Type 0} (sys : System W B T) (fmt : Formats T) where
  -- The text of a cell in AppendToFile.
  pub cell_text : Cell T → Result EncodeError Bytes
  cell_text (text s) = ok s
  cell_text (instant t) = ok (sys.format_time t)
  cell_text (day t) = ok (sys.format_date t)
  cell_text (value v) = encode fmt v

  unfoldable pub line_data : List (Cell T) → Result EncodeError (List Bytes)
  unfolding cell_text
  line_data [] = ok []
  line_data (v ∷ row) = do s ← cell_text v; rest ← line_data row; ok (s ∷ rest)

  prepared : Bytes → Bytes → Option Failure × W → Result Failure Batch × W
  prepared query file (some e, w) = (err e, w)
  prepared query file (none, w) =
      (ok (record { query = query; batch_file = file }), (sys.flush file sys.new_writer w).1)

  csv_file : Bytes → Bytes × W → Bytes × W
  csv_file dir (uuid, w) = (dir ++ (b'/' ∷ (uuid ++ codes ".csv")), w)

  prepare_in : Bytes → Bytes × W → Result Failure Batch × W
  prepare_in query (file, w) = prepared query file (sys.open_append file w)

  -- prepareBatch
  unfoldable pub prepare_batch : Bytes → W → Result Failure Batch × W
  unfolding prepared csv_file prepare_in
  prepare_batch query w =
      let batch = prepare_in query (csv_file (sys.temp_dir w) (sys.new_uuid w)) in
      if sys.is_insert query
      then batch
      else (err (other (codes "PrepareBatch only support INSERT/REPLACE")), w)

  flushed : Bytes → Result Failure B × W → Result BatchError (Unit {0}) × W
  flushed file (err e, w) = (err (call_failed e), w)
  flushed file (ok buffer, w) = (ok tt, (sys.flush file buffer w).1)

  append_line : Bytes → Result EncodeError (List Bytes) → W → Result BatchError (Unit {0}) × W
  append_line file (err e) w = (err (bad_value e), w)
  append_line file (ok line) w = flushed file (sys.write_record file line sys.new_writer w)

  append_opened : Bytes → List (Cell T) → Option Failure × W → Result BatchError (Unit {0}) × W
  append_opened file row (some e, w) = (err (call_failed e), w)
  append_opened file row (none, w) = append_line file (line_data row) w

  -- AppendToFile. The error that the flush leaves in the writer is not read.
  unfoldable pub append_to_file : Bytes → List (Cell T) → W → Result BatchError (Unit {0}) × W
  unfolding append_opened append_line flushed
  append_to_file file row w = append_opened file row (sys.open_append file w)

  or_stop :
      (W → Result BatchError (Unit {0}) × W)
      → Result BatchError (Unit {0}) × W
      → Result BatchError (Unit {0}) × W
  or_stop next (err e, w) = (err e, w)
  or_stop next (ok done, w) = next w

  -- The loop of ExecBatch
  unfoldable pub append_rows : Bytes → List (List (Cell T)) → W → Result BatchError (Unit {0}) × W
  unfolding or_stop
  append_rows file [] w = (ok tt, w)
  append_rows file (row ∷ rows) w = or_stop (append_rows file rows) (append_to_file file row w)

  module _ {Z E V : Type 0} (retrier : Retrier) (set : Setting W Z V E) (storage : Storage W)
      (cfg : StageConfig) where
    abbrev pub Done : Type 0 → Type 0
    Done A = Result BatchError A × (Client × W)

    -- The call with `checkQueryID(context.Background())`.
    pub upload_setting : Bytes → Setting W Z V E
    upload_setting uuid = record set {
      env = set.background;
      ctx = check_query_id uuid (record { user_agent = none; query_id = none });
    }

    abbrev batch_path : Bytes → W → Bytes
    batch_path file w =
        codes "batch/" ++ (decimal_ℤ (sys.unix_now w) ++ (b'-' ∷ sys.base_name file))

    abbrev batch_stage : Bytes → W → StageLocation
    batch_stage file w = record { name = codes "~"; path = batch_path file w }

    uploaded : StageLocation → Call W (Unit {0}) → Done StageLocation
    uploaded stage (err e, s) = (err (call_failed e), s)
    uploaded stage (ok done, s) = (ok stage, s)

    upload_opened :
        ℕ
        → Bool
        → Bytes
        → Bytes
        → ℕ
        → Client
        → Result Failure (Result Failure Bytes) × W
        → Done StageLocation
    upload_opened fuel has_rest uuid file size c (err e, w) =
        (err (call_failed (wrap (codes "open batch file failed") e)), (c, w))
    upload_opened fuel has_rest uuid file size c (ok input, w) =
        let stage = batch_stage file w in
        let done = uploaded stage (
          upload_to_stage retrier (upload_setting uuid) storage cfg fuel stage input size (c, w)) in
        if has_rest then done else (err nil_client, (c, w))

    upload_sized : ℕ → Bool → Bytes → Bytes → Client → Result Failure ℕ × W → Done StageLocation
    upload_sized fuel has_rest uuid file c (err e, w) =
        (err (call_failed (wrap (codes "get batch file size failed") e)), (c, w))
    upload_sized fuel has_rest uuid file c (ok size, w) =
        upload_opened fuel has_rest uuid file size c (sys.open_read file w)

    upload_named : ℕ → Bool → Bytes → Client → Bytes × W → Done StageLocation
    upload_named fuel has_rest file c (uuid, w) =
        upload_sized fuel has_rest uuid file c (sys.stat_size file w)

    -- httpBatch.UploadToStage; the fuel bounds the polls of the presigning query.
    unfoldable pub upload_batch : ℕ → Bool → Batch → Client × W → Done StageLocation
    unfolding upload_named upload_sized upload_opened uploaded upload_setting
    upload_batch fuel has_rest b (c, w) = upload_named fuel has_rest b.batch_file c (sys.new_uuid w)

    inserted : Call W (QueryResponse V) → Done (Unit {0})
    inserted (err e, s) = (err (call_failed (wrap (codes "insert with stage failed") e)), s)
    inserted (ok r, s) = (ok tt, s)

    upload_error : BatchError → BatchError
    upload_error (call_failed e) = call_failed (wrap (codes "upload to stage failed") e)
    upload_error (bad_value e) = bad_value e
    upload_error nil_client = nil_client

    insert_uploaded : ℕ → Batch → Done StageLocation → Done (Unit {0})
    insert_uploaded fuel b (err e, s) = (err (upload_error e), s)
    insert_uploaded fuel b (ok stage, s) =
        inserted
          (insert_with_stage retrier set fuel b.query (stage_attachment cfg stage none none) s)

    logged : Option Failure × W → W
    logged (none, w) = w
    logged (some e, w) = sys.log_failure e w

    -- The deferred removal of the file.
    pub remove_file : Bytes → {A : Type 0} → Done A → Done A
    remove_file file (r, (c, w)) = (r, (c, logged (sys.remove_all file w)))

    -- BatchInsert. The deferred removal runs in every case.
    unfoldable pub batch_insert : ℕ → Bool → Batch → Client × W → Done (Unit {0})
    unfolding insert_uploaded inserted upload_error remove_file logged
    batch_insert fuel has_rest b s =
        remove_file b.batch_file (insert_uploaded fuel b (upload_batch fuel has_rest b s))

    count_rows : ℕ → Done (Unit {0}) → Done ℕ
    count_rows n (err e, s) = (err e, s)
    count_rows n (ok done, s) = (ok n, s)

    exec_appended : ℕ → Bool → Batch → ℕ → Client → Result BatchError (Unit {0}) × W → Done ℕ
    exec_appended fuel has_rest b n c (err e, w) = (err e, (c, w))
    exec_appended fuel has_rest b n c (ok done, w) =
        count_rows n (batch_insert fuel has_rest b (c, w))

    exec_prepared : ℕ → Bool → List (List (Cell T)) → Client → Result Failure Batch × W → Done ℕ
    exec_prepared fuel has_rest rows c (err e, w) = (err (call_failed e), (c, w))
    exec_prepared fuel has_rest rows c (ok b, w) =
        exec_appended fuel has_rest b (length rows) c (append_rows b.batch_file rows w)

    -- LakeConn.ExecBatch, with the number of rows of its result; `has_rest` is whether the connection has
    -- its client.
    unfoldable pub exec_batch : ℕ → Bool → Bytes → List (List (Cell T)) → Client × W → Done ℕ
    unfolding exec_prepared exec_appended count_rows
    exec_batch fuel has_rest query rows (c, w) =
        exec_prepared fuel has_rest rows c (prepare_batch query w)
