-- ===== src/Batch/Endpoint.antt =====
-- A batch sends requests to the configured endpoint and to the storage only.
use lake_go.Prelude.{◌≡◌, ℕ, Bool, Option, none, some, List, Bytes, length, if_both}
use lake_go.Prelude.Result.{Result, ok, err}
use lake_go.Client.Errors.{Failure}
use lake_go.Client.State.{Client}
use lake_go.Client.Url.Endpoint.{StaysOn}
use lake_go.Client.Retry.{Retrier, IsRetrier}
use lake_go.Sql.Encoder.{Formats}
use lake_go.Query.Response.{QueryResponse}
use lake_go.Query.Calls.Send.{Setting, Call}
use lake_go.Query.Calls.Send.Keeps.{SettingKeeps, Holds}
use lake_go.Query.Calls.Send.Whole.{insert_with_stage-Holds}
use lake_go.Stage.{StageLocation, StageConfig, Storage, stage_attachment}
use lake_go.Stage.Endpoint.{StorageKeeps, upload_to_stage-Holds}
use lake_go.Batch.{
  Cell, BatchError, Batch, System, prepared, csv_file, prepare_in, prepare_batch, Done,
  upload_setting, uploaded, upload_opened, upload_sized, upload_named, upload_batch, inserted,
  insert_uploaded, logged, remove_file, batch_insert, count_rows, exec_appended, exec_prepared,
  exec_batch,
}
use lake_go.Batch.Keeps.{WritingKeeps, append_rows_keeps}

-- The calls of the operating system keep the property.
pub record SystemKeeps {W B T : Type 0} (sys : System W B T) (P : W → Type 0) : Type 0 where
  pub writing : (file : Bytes) → WritingKeeps sys file P
  pub uuid_keeps : (w : W) → P w → P (sys.new_uuid w).1
  pub stat_keeps : (file : Bytes) (w : W) → P w → P (sys.stat_size file w).1
  pub read_keeps : (file : Bytes) (w : W) → P w → P (sys.open_read file w).1
  pub remove_keeps : (file : Bytes) (w : W) → P w → P (sys.remove_all file w).1
  pub log_keeps : (e : Failure) (w : W) → P w → P (sys.log_failure e w)

module _ {W B T : Type 0} (sys : System W B T) (fmt : Formats T) (P : W → Type 0)
    (calm : SystemKeeps sys P) where
  prepare_batch_keeps : (query : Bytes) (w : W) → P w → P (prepare_batch sys fmt query w).1
  unfolding prepare_batch prepare_in csv_file prepared
  prepare_batch_keeps query w p =
      if_both {A = Result Failure Batch × W} (λ r. P r.1) (sys.is_insert query)
        (named (sys.new_uuid w) (calm.uuid_keeps w p)) p
    where
      opened : (file : Bytes) (r : Option Failure × W) → P r.1 → P (prepared sys fmt query file r).1
      opened file (some e, w') q = q
      opened file (none, w') q = (calm.writing file).flush_keeps sys.new_writer w' q

      named :
          (r : Bytes × W)
          → P r.1
          → P (prepare_in sys fmt query (csv_file sys fmt (sys.temp_dir w) r)).1
      named (uuid, w') q = opened _ (sys.open_append _ w') ((calm.writing _).open_keeps w' q)

  module _ {Z V E : Type 0} (retrier : Retrier) (law : IsRetrier retrier) (set : Setting W Z V E)
      (endpoint : Bytes) (keeps : SettingKeeps set endpoint P) (storage : Storage W)
      (cfg : StageConfig)
      (stores : StorageKeeps storage cfg.presign_allow_private
        (StaysOn set.background.parse_url endpoint)
        P) where
    abbrev Kept : {A : Type 0} → Done sys fmt retrier set storage cfg A → Type 0
    Kept r = Holds retrier law set endpoint P keeps r.1

    upload_setting-SettingKeeps :
        (uuid : Bytes)
        → SettingKeeps (upload_setting sys fmt retrier set storage cfg uuid) endpoint P
    unfolding upload_setting
    upload_setting-SettingKeeps uuid = record {
      here = keeps.there;
      there = keeps.there;
      sleep_keeps = keeps.sleep_keeps;
      track_keeps = keeps.track_keeps;
      hint_keeps = keeps.hint_keeps;
    }

    upload_opened-Kept :
        (fuel : ℕ) (has_rest : Bool) (uuid file : Bytes) (size : ℕ) (c : Client)
        (r : Result Failure (Result Failure Bytes) × W)
        → c.api_endpoint ≡ endpoint
        → P r.1
        → Kept (upload_opened sys fmt retrier set storage cfg fuel has_rest uuid file size c r)
    unfolding upload_opened uploaded upload_setting
    upload_opened-Kept fuel has_rest uuid file size c (err f, w) e p = (e, p)
    upload_opened-Kept fuel has_rest uuid file size c (ok input, w) e p =
        if_both {A = Done sys fmt retrier set storage cfg StageLocation} Kept has_rest
          (done _ _ (
            upload_to_stage-Holds retrier law (upload_setting sys fmt retrier set storage cfg uuid)
              endpoint P (upload_setting-SettingKeeps uuid) storage cfg stores fuel _ input size
              (c, w) (e, p)))
          (e, p)
      where
        done :
            (stage : StageLocation) (r : Call W (Unit {0}))
            → Holds retrier law set endpoint P keeps r.1
            → Kept (uploaded sys fmt retrier set storage cfg stage r)
        done stage (err f, s) k = k
        done stage (ok u, s) k = k

    upload_batch-Kept :
        (fuel : ℕ) (has_rest : Bool) (b : Batch) (s : Client × W)
        → Holds retrier law set endpoint P keeps s
        → Kept (upload_batch sys fmt retrier set storage cfg fuel has_rest b s)
    unfolding upload_batch upload_named upload_sized
    upload_batch-Kept fuel has_rest b (c, w) (e, p) = named (sys.new_uuid w) (calm.uuid_keeps w p)
      where
        sized :
            (uuid : Bytes) (r : Result Failure ℕ × W)
            → P r.1
            → Kept
                (upload_sized sys fmt retrier set storage cfg fuel has_rest uuid b.batch_file c r)
        sized uuid (err f, w') q = (e, q)
        sized uuid (ok size, w') q =
            upload_opened-Kept fuel has_rest uuid b.batch_file size c _ e
              (calm.read_keeps b.batch_file w' q)

        named :
            (r : Bytes × W)
            → P r.1
            → Kept (upload_named sys fmt retrier set storage cfg fuel has_rest b.batch_file c r)
        named (uuid, w') q = sized uuid _ (calm.stat_keeps b.batch_file w' q)

    remove_file-Kept :
        {A : Type 0} (file : Bytes) (r : Done sys fmt retrier set storage cfg A)
        → Kept r
        → Kept (remove_file sys fmt retrier set storage cfg file r)
    unfolding remove_file logged
    remove_file-Kept file (r, (c, w)) (e, p) =
        (e, after (sys.remove_all file w) (calm.remove_keeps file w p))
      where
        after : (r : Option Failure × W) → P r.1 → P (logged sys fmt retrier set storage cfg r)
        after (none, w') q = q
        after (some f, w') q = calm.log_keeps f w' q

    batch_insert-Kept :
        (fuel : ℕ) (has_rest : Bool) (b : Batch) (s : Client × W)
        → Holds retrier law set endpoint P keeps s
        → Kept (batch_insert sys fmt retrier set storage cfg fuel has_rest b s)
    unfolding batch_insert insert_uploaded inserted
    batch_insert-Kept fuel has_rest b s h =
        remove_file-Kept b.batch_file
          (insert_uploaded sys fmt retrier set storage cfg fuel b
            (upload_batch sys fmt retrier set storage cfg fuel has_rest b s))
          (insert _ (upload_batch-Kept fuel has_rest b s h))
      where
        settled :
            (r : Call W (QueryResponse V))
            → Holds retrier law set endpoint P keeps r.1
            → Kept (inserted sys fmt retrier set storage cfg r)
        settled (err f, s) k = k
        settled (ok r, s) k = k

        insert :
            (r : Done sys fmt retrier set storage cfg StageLocation)
            → Kept r
            → Kept (insert_uploaded sys fmt retrier set storage cfg fuel b r)
        insert (err f, s) k = k
        insert (ok stage, s) k = settled _ (
            insert_with_stage-Holds retrier law set endpoint P keeps fuel b.query
              (stage_attachment cfg stage none none) s k)

    exec_appended-Kept :
        (fuel : ℕ) (has_rest : Bool) (b : Batch) (n : ℕ) (c : Client)
        (r : Result BatchError (Unit {0}) × W)
        → c.api_endpoint ≡ endpoint
        → P r.1
        → Kept (exec_appended sys fmt retrier set storage cfg fuel has_rest b n c r)
    unfolding exec_appended count_rows
    exec_appended-Kept fuel has_rest b n c (err f, w) e p = (e, p)
    exec_appended-Kept fuel has_rest b n c (ok done, w) e p =
        counted _ (batch_insert-Kept fuel has_rest b (c, w) (e, p))
      where
        counted :
            (r : Done sys fmt retrier set storage cfg (Unit {0}))
            → Kept r
            → Kept (count_rows sys fmt retrier set storage cfg n r)
        counted (err f, s) k = k
        counted (ok u, s) k = k

    -- Executing a batch, from its temporary file over the upload to the insert, keeps every property of the
    -- world that the calls of the operating system keep, with the token loader, the pauses and the tracker,
    -- and requests to the configured endpoint, and uploads to presigned URLs that pass
    -- `validatePresignURL`: no other request is sent. The client's endpoint stays as it is.
    pub exec_batch-Holds :
        (fuel : ℕ) (has_rest : Bool) (query : Bytes) (rows : List (List (Cell T))) (s : Client × W)
        → Holds retrier law set endpoint P keeps s
        → Holds retrier law set endpoint P keeps
            (exec_batch sys fmt retrier set storage cfg fuel has_rest query rows s).1
    unfolding exec_batch exec_prepared
    exec_batch-Holds fuel has_rest query rows (c, w) (e, p) =
        begun (prepare_batch sys fmt query w) (prepare_batch_keeps query w p)
      where
        begun :
            (r : Result Failure Batch × W)
            → P r.1
            → Kept (exec_prepared sys fmt retrier set storage cfg fuel has_rest rows c r)
        begun (err f, w') q = (e, q)
        begun (ok b, w') q =
            exec_appended-Kept fuel has_rest b (length rows) c _ e
              (append_rows_keeps sys fmt b.batch_file P (calm.writing b.batch_file) rows w' q)
