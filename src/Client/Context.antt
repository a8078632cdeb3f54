-- ===== src/Client/Context.antt =====
-- Query ids of contexts: `checkQueryID` of connection.go, `contextWithoutQueryID` of arrow.go and
-- `txContext` of transaction.go.
use lake_go.Prelude.{Option, none, some, [], ◌∷◌, ◌==◌, if◌then◌else◌, Bytes}
use lake_go.Client.Request.{Ctx}

-- strings.ReplaceAll(id, "-", "")
unfoldable pub without_dashes : Bytes → Bytes
without_dashes [] = []
without_dashes (c ∷ s) = let rest = without_dashes s in if c == b'-' then rest else c ∷ rest

-- checkQueryID, with the id that it would generate
unfoldable pub check_query_id : Bytes → Ctx → Ctx
check_query_id uuid ctx = with_id ctx.query_id
  where
    with_id : Option Bytes → Ctx
    with_id (some id) = ctx
    with_id none = record ctx { query_id = some (without_dashes uuid) }

-- contextWithoutQueryID
abbrev pub without_query_id : Ctx → Ctx
without_query_id ctx = record ctx { query_id = none }

-- txContext, which takes the cancellation away, too
unfoldable pub tx_context : Ctx → Ctx
tx_context ctx = without_query_id ctx
