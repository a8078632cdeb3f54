-- ===== src/Batch/Cleanup.antt =====
-- What becomes of the temporary file of a batch.
use lake_go.Prelude.{◌≡◌, refl, ℕ, Bool, Option, none, some, List, Bytes, length}
use lake_go.Prelude.Result.{ok, err}
use lake_go.Client.Errors.{Failure}
use lake_go.Client.State.{Client}
use lake_go.Client.Retry.{Retrier}
use lake_go.Sql.Encoder.{Formats}
use lake_go.Query.Calls.Send.{Setting}
use lake_go.Stage.{StageConfig, Storage}
use lake_go.Batch.{
  Cell, BatchError, Batch, System, prepare_batch, append_rows, Done, logged, remove_file,
  batch_insert, insert_uploaded, upload_batch, count_rows, exec_appended, exec_prepared, exec_batch,
}
use lake_go.Batch.Keeps.{WritingKeeps, append_rows_keeps}

module _ {W B T Z V E : Type 0} (sys : System W B T) (fmt : Formats T) (retrier : Retrier)
    (set : Setting W Z V E) (storage : Storage W) (cfg : StageConfig) where
  module _ (Gone : W → Type 0) (b : Batch)
      (removes : (w : W) → (sys.remove_all b.batch_file w).0 ≡ none)
      (removed : (w : W) → Gone (sys.remove_all b.batch_file w).1) where
    remove_file-Gone :
        {A : Type 0} (r : Done sys fmt retrier set storage cfg A)
        → Gone (remove_file sys fmt retrier set storage cfg b.batch_file r).1.1
    unfolding remove_file logged
    remove_file-Gone (r, (c, w)) = split (sys.remove_all b.batch_file w) (removes w) (removed w)
      where
        split :
            (o : Option Failure × W)
            → o.0 ≡ none
            → Gone o.1
            → Gone (logged sys fmt retrier set storage cfg o)
        split (none, w') h g = g
        split (some e, w') h g = cc

    -- Where the file can be removed, it is gone after the insert, whatever comes of the upload and of the
    -- insert.
    batch_insert-Gone :
        (fuel : ℕ) (has_rest : Bool) (s : Client × W)
        → Gone (batch_insert sys fmt retrier set storage cfg fuel has_rest b s).1.1
    unfolding batch_insert
    batch_insert-Gone fuel has_rest s =
        (remove_file-Gone (
          insert_uploaded sys fmt retrier set storage cfg fuel b
            (upload_batch sys fmt retrier set storage cfg fuel has_rest b s)))

    -- Executing a batch whose rows could all be written leaves no file, whatever comes of the upload and
    -- of the insert, where the file can be removed.
    pub exec_batch-Gone :
        (fuel : ℕ) (has_rest : Bool) (query : Bytes) (rows : List (List (Cell T))) (c : Client)
        (w : W) (w' w'' : W)
        → prepare_batch sys fmt query w ≡ (ok b, w')
        → append_rows sys fmt b.batch_file rows w' ≡ (ok tt, w'')
        → Gone (exec_batch sys fmt retrier set storage cfg fuel has_rest query rows (c, w)).1.1
    unfolding exec_batch exec_prepared exec_appended
    exec_batch-Gone fuel has_rest query rows c w w' w'' h g =
        rw (h, g) (counted _ (batch_insert-Gone fuel has_rest (c, w'')))
      where
        counted :
            (r : Done sys fmt retrier set storage cfg (Unit {0}))
            → Gone r.1.1
            → Gone (count_rows sys fmt retrier set storage cfg (length rows) r).1.1
        counted (err e, s) k = k
        counted (ok u, s) k = k

  -- A batch with a row that cannot be written leaves its file behind: once the file was opened, it is
  -- there when the batch has failed with the row's error, for no statement removes it.
  pub exec_batch-leaked :
      (Present : W → Type 0) (fuel : ℕ) (has_rest : Bool) (query : Bytes)
      (rows : List (List (Cell T))) (c : Client) (w : W) (b : Batch) (w' w'' : W) (e : BatchError)
      → prepare_batch sys fmt query w ≡ (ok b, w')
      → Present w'
      → WritingKeeps sys b.batch_file Present
      → append_rows sys fmt b.batch_file rows w' ≡ (err e, w'')
      → ((exec_batch sys fmt retrier set storage cfg fuel has_rest query rows (c, w)).0 ≡ err e)
        × Present (exec_batch sys fmt retrier set storage cfg fuel has_rest query rows (c, w)).1.1
  unfolding exec_batch exec_prepared exec_appended
  exec_batch-leaked Present fuel has_rest query rows c w b w' w'' e h there keeps g =
      let kept : Present (append_rows sys fmt b.batch_file rows w').1 =
        append_rows_keeps sys fmt b.batch_file Present keeps rows w' there in
      rw (h, g) (refl, rw g at kept)
