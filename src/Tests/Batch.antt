-- ===== src/Tests/Batch.antt =====
-- Tests of stages and batches. The world is the list of the targets so far.
use lake_go.Prelude.{
  ℕ, ◌≡◌, refl, ◌⊎◌, inl, inr, Bool, true, false, Option, none, some, List, [], ◌∷◌, ◌++◌, Bytes,
  codes, bytes_eq, if◌then◌else◌,
}
use lake_go.Prelude.Decimal.{ℤ, decimal}
use lake_go.Prelude.Result.{ok, err}
use lake_go.Client.Url.Endpoint.{StaysOn}
use lake_go.Client.Request.{Env, received}
use lake_go.Sql.Encoder.{GoValue, tuple, string, Formats, encode, not_struct}
use lake_go.Query.Response.{QueryResponse}
use lake_go.Query.Calls.{Host, no_response}
use lake_go.Query.Calls.Send.{Setting}
use lake_go.Query.Calls.Send.Keeps.{EnvKeeps, SettingKeeps}
use lake_go.Presign.{StorageUrl, validate_presign_url}
use lake_go.Stage.{StageConfig, Storage}
use lake_go.Stage.Endpoint.{StorageKeeps}
use lake_go.Batch.{
  Cell, text, day, value, Batch, System, bad_value, line_data, prepare_batch, append_to_file,
  append_rows, exec_batch,
}
use lake_go.Batch.Keeps.{WritingKeeps}
use lake_go.Batch.Written.{IsWritable, row_lines, append_rows-Adds}
use lake_go.Batch.Cleanup.{exec_batch-Gone, exec_batch-leaked}
use lake_go.Batch.Endpoint.{SystemKeeps, exec_batch-Holds}
use lake_go.Tests.Client.{
  parse_url, endpoint, no_login, Log, retrier, retrier-IsRetrier, ctx, marshal,
}
use lake_go.Tests.Calls.{host, setting, page_of, json_answer, session_of}
use lake_go.Tests.Types.{parsers}

abbrev storage_url : Bytes → Option StorageUrl
storage_url s =
    if bytes_eq s (codes "https://s3/x")
    then some
        (record { scheme = codes "https"; hostname = codes "s3"; has_user = false; fragment = [] })
    else none

-- A target is on the endpoint, or it is a URL of the storage that may be used.
abbrev Good : Bytes → Type 0
Good target =
    StaysOn parse_url endpoint target
    ⊎ ((u : StorageUrl) × (storage_url target ≡ some u)
        × (validate_presign_url (some u) false ≡ true))

abbrev AllGood : Log → Type 0
AllGood [] = Unit
AllGood (target ∷ w) = Good target × AllGood w

-- The query that presigns answers with a method, no headers and a URL.
abbrev text_field : Bytes → QueryResponse Bytes
text_field body = record (page_of body) {
  schema = some (
      record { name = codes "method"; kind = codes "String" }
      ∷ record { name = codes "headers"; kind = codes "String" }
      ∷ record { name = codes "url"; kind = codes "String" }
      ∷ []);
  data_rows = (some (codes "PUT") ∷ some (codes "{}") ∷ some (codes "https://s3/x") ∷ []) ∷ [];
}

abbrev presigning : Setting Log Bytes Bytes Bytes
presigning = record setting { host = record host { unmarshal = λ body r. (text_field body, none) } }

presigning-EnvKeeps : EnvKeeps presigning.env endpoint AllGood
presigning-EnvKeeps = record { send_keeps = λ req w s h. (inl s, h); load_keeps = λ force w h. h }

presigning-SettingKeeps : SettingKeeps presigning endpoint AllGood
presigning-SettingKeeps = record {
  here = presigning-EnvKeeps;
  there = presigning-EnvKeeps;
  sleep_keeps = λ n w h. h;
  track_keeps = λ id stats w h. h;
  hint_keeps = λ w h. h;
}

abbrev storage : Storage Log
storage = record {
  parse_url = storage_url;
  unmarshal_headers = λ s. ok [];
  multipart = λ path content. (content, codes "multipart/form-data");
  upload = λ req w. (received (record { status = 200; headers = []; body = [] }), req.url ∷ w);
  put = λ req w. (some 200, req.url ∷ w);
}

storage-StorageKeeps : StorageKeeps storage false (StaysOn parse_url endpoint) AllGood
storage-StorageKeeps = record {
  upload_keeps = λ req w s h. (inl s, h);
  put_keeps = λ req u w p v h. (inr (u, p, v), h);
}

abbrev config : StageConfig
config = record {
  presigned_url_disabled = false;
  presign_allow_private = false;
  empty_field_as = codes "string";
}

-- Files have no part in the world here.
abbrev system : System Log (Unit {0}) ℕ
system = record {
  is_insert = λ query. true;
  temp_dir = λ w. codes "/tmp";
  new_uuid = λ w. (codes "1-2", w);
  open_append = λ file w. (none, w);
  new_writer = tt;
  write_record = λ file line buffer w. (ok tt, w);
  flush = λ file buffer w. (none, w);
  stat_size = λ file w. (ok 3, w);
  open_read = λ file w. (ok (ok (codes "a,1")), w);
  remove_all = λ file w. (none, w);
  unix_now = λ w. ℤ.pos 5;
  base_name = λ file. codes "1-2.csv";
  log_failure = λ e w. w;
  format_time = λ t. codes "2024-01-02 00:00:00.000000+00:00";
  format_date = λ t. codes "2024-01-02";
}

system-SystemKeeps : SystemKeeps system AllGood
system-SystemKeeps = record {
  writing = λ file. record {
    open_keeps = λ w h. h;
    write_keeps = λ line buffer w h. h;
    flush_keeps = λ buffer w h. h;
  };
  uuid_keeps = λ w h. h;
  stat_keeps = λ file w h. h;
  read_keeps = λ file w h. h;
  remove_keeps = λ file w h. h;
  log_keeps = λ e w h. h;
}

abbrev formats : Formats ℕ
formats = record { format_float = λ w b. codes "1.5"; format_time = λ t. codes "2024-01-02" }

abbrev rows : List (List (Cell ℕ))
rows =
    (text (codes "a") ∷ value (GoValue.int (ℤ.pos 1)) ∷ []) ∷ (text (codes "b") ∷ day 0 ∷ []) ∷ []

abbrev lines : List (List Bytes)
lines = (codes "a" ∷ codes "1" ∷ []) ∷ (codes "b" ∷ codes "2024-01-02" ∷ []) ∷ []

exec_batch-Holds_example :
    ((exec_batch system formats retrier presigning storage config 3 true
        (codes "INSERT INTO t VALUES")
        rows
        (no_login, [])).1.0.api_endpoint
      ≡ endpoint)
    × AllGood
        (exec_batch system formats retrier presigning storage config 3 true
          (codes "INSERT INTO t VALUES")
          rows
          (no_login, [])).1.1
exec_batch-Holds_example =
    exec_batch-Holds system formats AllGood system-SystemKeeps retrier retrier-IsRetrier presigning
      endpoint presigning-SettingKeeps storage config storage-StorageKeeps 3 true
      (codes "INSERT INTO t VALUES") rows (no_login, []) (refl, tt)

-- A world in which the file is all there is: its records, and whether it is there.
abbrev Disk : Type 0
Disk = List (List Bytes) × Bool

abbrev disk : System Disk (List (List Bytes)) ℕ
disk = record {
  is_insert = λ query. true;
  temp_dir = λ w. codes "/tmp";
  new_uuid = λ w. (codes "1-2", w);
  open_append = λ file w. (none, (w.0, true));
  new_writer = [];
  write_record = λ file line buffer w. (ok (buffer ++ line ∷ []), w);
  flush = λ file buffer w. (none, (w.0 ++ buffer, w.1));
  stat_size = λ file w. (ok 3, w);
  open_read = λ file w. (ok (ok (codes "a,1")), w);
  remove_all = λ file w. (none, ([], false));
  unix_now = λ w. ℤ.pos 5;
  base_name = λ file. codes "1-2.csv";
  log_failure = λ e w. w;
  format_time = λ t. codes "2024-01-02 00:00:00.000000+00:00";
  format_date = λ t. codes "2024-01-02";
}

abbrev file : Bytes
file = codes "/tmp/1-2.csv"

disk-IsWritable : IsWritable disk file (λ w. w.0)
disk-IsWritable = record {
  opens = λ w. refl;
  opened_same = λ w. refl;
  records = λ line w. record { buffer = line ∷ []; world = w; wrote = refl; flushed_all = refl };
}

rows_run : row_lines disk formats rows ≡ ok lines
unfolding row_lines line_data encode decimal
rows_run = refl

append_rows-Adds_example :
    ((append_rows disk formats file rows (([], false))).0 ≡ ok tt)
    × ((append_rows disk formats file rows (([], false))).1.0 ≡ lines)
append_rows-Adds_example =
    append_rows-Adds disk formats file (λ w. w.0) disk-IsWritable rows lines ([], false) rows_run

abbrev disk_env : Env Disk
disk_env = record {
  parse_url = parse_url;
  base64 = λ s. s;
  version = codes "v1";
  read_body = λ s. ([], []);
  ctx_err = λ w. none;
  send = λ req w. (received (json_answer (codes "2")), w);
  load_token = λ force w. (ok (codes "token"), w);
}

abbrev disk_host : Host Disk Bytes Bytes Bytes
disk_host = record {
  parsers = parsers;
  load_location = λ s. ok s;
  error_text = λ e. e;
  column_error_text = λ e. [];
  unmarshal = λ body r. (text_field body, none);
  unmarshal_session = λ raw s. session_of raw;
  marshal = λ request. request.sql;
  decode_arrow = λ body. ok no_response;
  track = λ id stats w. w;
  sleep = λ n w. w;
  rand_route_hint = λ w. (codes "hint", w);
}

abbrev disk_setting : Setting Disk Bytes Bytes Bytes
disk_setting = record {
  env = disk_env;
  background = disk_env;
  host = disk_host;
  ctx = ctx;
  marshal_login = marshal;
  read_login = λ r v. (v, none);
}

abbrev disk_storage : Storage Disk
disk_storage = record {
  parse_url = storage_url;
  unmarshal_headers = λ s. ok [];
  multipart = λ path content. (content, codes "multipart/form-data");
  upload = λ req w. (received (record { status = 200; headers = []; body = [] }), w);
  put = λ req w. (some 200, w);
}

abbrev insert : Bytes
insert = codes "INSERT INTO t VALUES"

abbrev batch : Batch
batch = record { query = insert; batch_file = file }

prepare_run : prepare_batch disk formats insert ([], false) ≡ (ok batch, ([], true))
unfolding prepare_batch
prepare_run = refl

append_run : append_rows disk formats file rows ([], true) ≡ (ok tt, (lines, true))
unfolding append_rows append_to_file line_data encode decimal
append_run = refl

exec_batch-Gone_example :
    (exec_batch disk formats retrier disk_setting disk_storage config 3 true insert rows
      (no_login, ([], false))).1.1.1
    ≡ false
exec_batch-Gone_example =
    exec_batch-Gone disk formats retrier disk_setting disk_storage config (λ w. w.1 ≡ false) batch
      (λ w. refl) (λ w. refl) 3 true insert rows no_login ([], false) ([], true) (lines, true)
      prepare_run append_run

-- A row with a tuple of a string, which has no text.
abbrev bad_rows : List (List (Cell ℕ))
bad_rows = (value (tuple (string (codes "a"))) ∷ []) ∷ []

bad_append_run :
    append_rows disk formats file bad_rows ([], true) ≡ (err (bad_value not_struct), ([], true))
unfolding append_rows append_to_file line_data encode decimal
bad_append_run = refl

present-WritingKeeps : WritingKeeps disk file (λ w. w.1 ≡ true)
present-WritingKeeps = record {
  open_keeps = λ w h. refl;
  write_keeps = λ line buffer w h. h;
  flush_keeps = λ buffer w h. h;
}

exec_batch-leaked_example :
    ((exec_batch disk formats retrier disk_setting disk_storage config 3 true insert bad_rows
        (no_login, ([], false))).0
      ≡ err (bad_value not_struct))
    × ((exec_batch disk formats retrier disk_setting disk_storage config 3 true insert bad_rows
          (no_login, ([], false))).1.1.1
        ≡ true)
exec_batch-leaked_example =
    exec_batch-leaked disk formats retrier disk_setting disk_storage config (λ w. w.1 ≡ true) 3 true
      insert bad_rows no_login ([], false) batch ([], true) ([], true) (bad_value not_struct)
      prepare_run refl present-WritingKeeps bad_append_run
