-- ===== src/Batch/Written.antt =====
-- The file of a batch holds its rows.
use lake_go.Prelude.{
  ◌≡◌, refl, sym, Option, none, some, List, [], ◌∷◌, ◌++◌, Bytes, append_assoc, append-nil,
}
use lake_go.Prelude.Result.{Result, ok, err, ◌>>=◌, ok_of_bind}
use lake_go.Client.Errors.{Failure}
use lake_go.Sql.Encoder.{EncodeError, Formats}
use lake_go.Batch.{
  Cell, System, BatchError, line_data, flushed, append_line, append_opened, append_to_file, or_stop,
  append_rows,
}

-- Writing one record to the file works, and puts it behind those there are.
pub record Recorded {W B T : Type 0} (sys : System W B T) (file : Bytes)
    (content : W → List (List Bytes)) (line : List Bytes) (w : W) : Type 0 where
  pub buffer : B
  pub world : W
  pub wrote : sys.write_record file line sys.new_writer w ≡ (ok buffer, world)
  pub flushed_all : content (sys.flush file buffer world).1 ≡ content w ++ line ∷ []

-- The file can be opened and written; `content` are its records.
pub record IsWritable {W B T : Type 0} (sys : System W B T) (file : Bytes)
    (content : W → List (List Bytes)) : Type 0 where
  pub opens : (w : W) → (sys.open_append file w).0 ≡ none
  pub opened_same : (w : W) → content (sys.open_append file w).1 ≡ content w
  pub records : (line : List Bytes) (w : W) → Recorded sys file content line w

module _ {W B T : Type 0} (sys : System W B T) (fmt : Formats T) where
  -- The records that the rows stand for.
  unfoldable pub row_lines : List (List (Cell T)) → Result EncodeError (List (List Bytes))
  row_lines [] = ok []
  row_lines (row ∷ rows) = do
    line ← line_data sys fmt row
    lines ← row_lines rows
    ok (line ∷ lines)

  module _ (file : Bytes) (content : W → List (List Bytes))
      (law : IsWritable sys file content) where
    -- A step that works puts these records behind those there are.
    abbrev Adds : List (List Bytes) → W → Result BatchError (Unit {0}) × W → Type 0
    Adds lines w r = (r.0 ≡ ok tt) × (content r.1 ≡ content w ++ lines)

    flushed-Adds :
        (line : List Bytes) (w : W)
        → Adds (line ∷ []) w (flushed sys fmt file (sys.write_record file line sys.new_writer w))
    unfolding flushed
    flushed-Adds line w = let r = law.records line w in rw r.wrote (refl, r.flushed_all)

    opened-Adds :
        (row : List (Cell T)) (line : List Bytes) (w : W) (r : Option Failure × W)
        → line_data sys fmt row ≡ ok line
        → r.0 ≡ none
        → content r.1 ≡ content w
        → Adds (line ∷ []) w (append_opened sys fmt file row r)
    unfolding append_opened append_line
    opened-Adds row line w (some e, w') h none_left same = cc
    opened-Adds row line w (none, w') h none_left same =
        let (done, more) = flushed-Adds line w' in rw (h, done, more, same) (refl, refl)

    append_to_file-Adds :
        (row : List (Cell T)) (line : List Bytes) (w : W)
        → line_data sys fmt row ≡ ok line
        → Adds (line ∷ []) w (append_to_file sys fmt file row w)
    unfolding append_to_file
    append_to_file-Adds row line w h =
        opened-Adds row line w (sys.open_append file w) h (law.opens w) (law.opened_same w)

    or_stop-Adds :
        (line : List Bytes) (lines : List (List Bytes)) (w : W)
        (next : W → Result BatchError (Unit {0}) × W) (r : Result BatchError (Unit {0}) × W)
        → Adds (line ∷ []) w r
        → ((w' : W) → Adds lines w' (next w'))
        → Adds (line ∷ lines) w (or_stop sys fmt next r)
    unfolding or_stop
    or_stop-Adds line lines w next (err e, w') (done, here) k = cc
    or_stop-Adds line lines w next (ok u, w') (done, here) k =
        let (rest, there) = k w' in
        (rest, rw (there, here) (append_assoc (content w) (line ∷ []) lines))

    -- Where the file can be written and every value has a text, all rows are written, and the file holds
    -- one record for each, in their order, behind what it held.
    pub append_rows-Adds :
        (rows : List (List (Cell T))) (lines : List (List Bytes)) (w : W)
        → row_lines rows ≡ ok lines
        → ((append_rows sys fmt file rows w).0 ≡ ok tt)
          × (content (append_rows sys fmt file rows w).1 ≡ content w ++ lines)
    unfolding append_rows row_lines
    append_rows-Adds [] lines w h =
        let e : [] ≡ lines = cc h in (refl, rw (sym e) (sym (append-nil (content w))))
    append_rows-Adds (row ∷ rows) lines w h =
        let (line, p, q) = ok_of_bind (line_data sys fmt row) _ h in
        let (more, p', q') = ok_of_bind (row_lines rows) _ q in
        let e : line ∷ more ≡ lines = cc q' in
        rw (sym e) (
          or_stop-Adds line more w (append_rows sys fmt file rows)
            (append_to_file sys fmt file row w) (append_to_file-Adds row line w p)
            (λ w'. append_rows-Adds rows more w' p'))
