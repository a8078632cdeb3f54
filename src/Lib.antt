-- ===== src/Lib.antt =====
-- A model of lake-go, the database/sql driver of TiDB Cloud Lake in Go, and theorems about it.
--
-- The driver takes a statement with `?` placeholders and its parameters, builds the text of a query
-- (interpolate.go, encoder.go, helpers.go), sends it over HTTP to one configured endpoint (client.go,
-- arrow.go, apierrors.go), follows the URIs of the answer page by page, reads the texts of each page by
-- the types of its schema (query.go, result_rows.go, typeparser.go, columntype.go, binary.go) and hands
-- the rows out one at a time (rows.go).
--
-- Files, and the code they follow:
--   Prelude       lists, texts of bytes, decimal numbers and the result of a fallible call
--   Sql/Escape    helpers.go: escape, quote
--   Sql/Scanner   interpolate.go: placeholders; its children say where a scan stands and which texts
--                 leave it in its state (Closed), how a comment ends it (Comment), and what is found
--                 (Located)
--   Sql/Encoder   encoder.go: textEncoder; Go values are the data type GoValue, with the elements of
--                 arrays, structs and maps as types of the same mutual block
--   Sql/Splice    interpolate.go: interpolateParams2, interpolateParams, buildQuery; the buffer of
--                 `make` and `copy` is a list of fixed length that is written in place
--   Sql/Valuer    types.go: the wrappers that give a parameter its text
--   Types         typeparser.go (TypeDesc), columntype.go (ColumnType), binary.go (Binary)
--   Arrow         arrow.go: the names of Arrow types (Schema), instants (Timestamps), the values of a
--                 column (Values), the rows of records (Records), and a decoder of responses made of
--                 these (Host)
--   Client        apierrors.go and the errors of client.go (Errors), the fields of APIClient (State),
--                 doRetry (Retry), makeURL and checkAPIRedirect (Url), makeHeaders and doRequest
--                 (Request), the query ids of contexts (Context), initializeConnectionInfo and login
--                 (Login), Verify and Logout (Verify), NewAPIClientFromConfig (Open), access_token.go
--                 (Token), the texts that hide secrets (Redact), clientstate.go with the jar of
--                 cookie_jar.go (Saved); Request/Keeps has what doRequest keeps where all its requests
--                 are of some kind, Request/Endpoint and Request/Carries two such kinds
--   Query         query.go (Response), result_rows.go and parse_schema (Materialize), rows.go (Rows,
--                 Rows/Open), PollUntilQueryEnd of client.go (Sync); Calls has what client.go does with a
--                 response (Settle) and the calls that make the requests (Send), in JSON and in Arrow;
--                 Send/Requests has what retries keep, Send/Kept what a whole query keeps,
--                 Send/Keeps and Send/Whole the endpoint
--   Values        tokenizer.go and the readers of valueparser.go (Scanner), its parsers (Parser, Parse)
--                 and newDataParser (Build); Reads has what is read back, Fails what never is, Length,
--                 Total, Parse/Ends, Build/Fits and Build/Total that parsing ends
--   Dsn           dsn.go: the configuration, AddParams and the query of FormatDSN; Parse has ParseDSN,
--                 Parse/Plaintext and Lost the theorems
--   Presign       presign_security.go
--   Stage         client.go: GetPresignedURL and UploadToStage; Stage/Endpoint where an upload goes
--   Batch         batch.go, and ExecBatch of connection.go; Written, Cleanup and Endpoint have what is
--                 written to the file of a batch, what becomes of it, and which requests are sent
--   Conn          connection.go, stmt.go and transaction.go: the statements of a connection, over the
--                 client as an interface; Session has them in any order, and Driven puts the client
--                 below them, with the context of each operation, and opens a connection (driver.go);
--                 Driven/Opened follows one from its data source name, Driven/Transaction the
--                 contexts of COMMIT and ROLLBACK (transaction.go)
--   Tests         runs on concrete inputs
--
-- How code becomes definitions. A struct is a record, a pointer that may be nil an Option, a pair of a
-- value and an error a Result, and a text a list of bytes. Code that changes the client, the rows or
-- the world takes the state and returns it. A run-time panic is an error value of its own. Requests
-- run in a world `W` of which only the operations of `Env` are known: sending a request, loading a
-- token, the error of the context.
--
-- Loops. The scanner and the type parser run on fuel that is one more than the length of the text, and
-- it is proved that they do not run out; so do the loops of the value parser over arrays and maps, one
-- more than the runes that are left, where each turn reads a rune (Values.Build.Total). The rounds of
-- doRequest are two and the attempts of Verify three, as in the code. The loops that poll take their
-- fuel as an argument, since the server decides how many pages there are; the theorems about them say
-- that one more than the number of polls is enough.
--
-- What the code uses and does not implement is an argument, with its documented behaviour as a
-- hypothesis where a theorem needs it: url.Parse, net/http, JSON, the token loaders, strconv and time
-- formatting, base64 and hexadecimal text, and the retry-go package (Client.Retry.IsRetrier). The
-- client is an interface to the rows (Query.Rows.Pager), since they only poll, close and kill; its own
-- calls meet it (Query.Calls.Send.client_pager). The connection has an interface to the client too
-- (Conn.Calls), which Conn.Driven.client_calls meets. The operating system and the CSV writer are the
-- interface of a batch (Batch.System), the storage's HTTP client that of an upload (Stage.Storage), and
-- the Arrow library what it reads: fields, columns and instants of 128 bits.
--
-- Left out: locks and the context's deadlines; in messages, the escapes of `%q` and the text of a parse
-- error; in doRequest, the test hook doRequestFunc, the marshalling of the body and the errors of
-- http.NewRequest; map entries are taken in the order that they are given in, where Go's order is any.
-- Floats are a type of their own, and the conversion of one to an integer is not computed. Letters of
-- ASCII only are folded where strings.EqualFold folds those of Unicode. A Go array is taken as a slice of
-- its elements, also as the first parameter, where the code asks for a slice. A time with an offset that is
-- the local one is the same instant here, while time.Parse gives it the local location.
--
-- Not modelled: the files that configure TLS (tls_config.go) and logging (log.go), which are
-- configuration of the standard library and output; the settings of the HTTP clients; BatchStmt of
-- batch.go, which calls ExecBatch through database/sql; and the programs under cmd, examples and tests,
-- which only call the driver.
pub mod Prelude
pub mod Sql
pub mod Types
pub mod Arrow
pub mod Values
pub mod Query
pub mod Conn
pub mod Client
pub mod Dsn
pub mod Presign
pub mod Stage
pub mod Batch
pub mod Tests
