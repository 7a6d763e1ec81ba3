-- ===== src/HttpServer.antt =====
-- common/httpserver: middleware.go, server.go and config.go. The package net/http is a parameter: a
-- handler is what it does with the writer, and whether it panics then.
pub mod Recovery
use analytics_system.Prelude.{
  ℕ, ◌+◌, ◌*◌, Bool, true, false, not, ◌||◌, List, [], ◌∷◌, ◌++◌, Option, none, some, ltb,
  if◌then◌else◌, ℤ, pos, negsuc, is_positive, nat_of,
}
use analytics_system.Prelude.Text.{Text, codes, is_empty}
use analytics_system.Interval.{second, minute}

-- A call of the `http.ResponseWriter` that lies below.
pub data Call : Type 0 where
  write_header : ℕ → Call
  write : Text → Call

-- `responseWriterWrapper`, with the calls of the writer below, the last one first.
pub record Wrapper : Type 0 where
  pub wrote_header : Bool
  pub status_code : ℕ
  pub calls : List Call

abbrev pub fresh_wrapper : Wrapper
fresh_wrapper = record { wrote_header = false; status_code = 0; calls = [] }

-- `WriteHeader`, which passes on the first call only.
unfoldable pub wrapper_write_header : ℕ → Wrapper → Wrapper
wrapper_write_header code rw' = if rw'.wrote_header then rw' else record {
  wrote_header = true;
  status_code = code;
  calls = Call.write_header code ∷ rw'.calls;
}

-- `Write`, after the status 200 if there is none yet.
unfoldable pub wrapper_write : Text → Wrapper → Wrapper
unfolding wrapper_write_header
wrapper_write b rw' =
    let ready = if rw'.wrote_header then rw' else wrapper_write_header 200 rw' in
    record ready { calls = Call.write b ∷ ready.calls }

-- What a handler does with its writer, and whether it panics in the end.
pub record Run : Type 0 where
  pub acts : List Call
  pub panicked : Bool

unfoldable pub serve : List Call → Wrapper → Wrapper
unfolding wrapper_write_header wrapper_write
serve [] rw' = rw'
serve (Call.write_header code ∷ rest) rw' = serve rest (wrapper_write_header code rw')
serve (Call.write b ∷ rest) rw' = serve rest (wrapper_write b rw')

-- `RecoverMiddleware`: after a panic, `http.Error` if nothing is written, and else an empty write to
-- the writer below.
unfoldable pub recover_middleware : Run → Wrapper
unfolding serve
recover_middleware run =
    let ww = serve run.acts fresh_wrapper in
    if run.panicked
    then (if ww.wrote_header
        then record ww { calls = Call.write [] ∷ ww.calls }
        else wrapper_write (codes "internal server error\n") (wrapper_write_header 500 ww))
    else ww

-- The handlers of `New`; neither sets a status, so that it is 200.
unfoldable pub healthz : List Call
healthz = Call.write (codes "OK") ∷ []

unfoldable pub readyz : Option Text → List Call
readyz (some e) = Call.write (codes "NOT READY: " ++ e) ∷ []
readyz none = Call.write (codes "READY") ∷ []

-- The loop of `New` over the middlewares, from the last to the first: the first is outermost.
unfoldable pub wrap_all : {H : Type 0} → List (H → H) → H → H
wrap_all [] handler = handler
wrap_all (m ∷ rest) handler = m (wrap_all rest handler)

-- What `Run` waits for: the end of the context, or of `ListenAndServe`, with an error or none.
pub data ServerEvent (E : Type 0) : Type 0 where
  context_done : E → ServerEvent E
  served : Option E → ServerEvent E

-- `server.Run`, from the first event, and with the answer of `Shutdown`.
unfoldable pub run_server : {E : Type 0} → ServerEvent E → Option E → Option E
run_server event (some e) = some e
run_server (ServerEvent.context_done e) none = some e
run_server (ServerEvent.served r) none = r

-- `Config`
pub record ServerConfig : Type 0 where
  pub port : ℤ
  pub read_timeout : ℤ
  pub write_timeout : ℤ
  pub idle_timeout : ℤ
  pub shutdown_timeout : ℤ
  pub metrics_path : Text
  pub healthz_path : Text
  pub readyz_path : Text

abbrev pub or_seconds : ℤ → ℕ → ℤ
or_seconds d n = if is_positive d then d else pos (n * second)

abbrev pub or_text : Text → Text → Text
or_text s default = if is_empty s then default else s

-- `ApplyDefaults`
unfoldable pub server_defaults : ServerConfig → ServerConfig
server_defaults c = record c {
  read_timeout = or_seconds c.read_timeout 10;
  write_timeout = or_seconds c.write_timeout 15;
  idle_timeout = or_seconds c.idle_timeout 60;
  shutdown_timeout = or_seconds c.shutdown_timeout 5;
  metrics_path = or_text c.metrics_path (codes "/metrics");
  healthz_path = or_text c.healthz_path (codes "/healthz");
  readyz_path = or_text c.readyz_path (codes "/readyz");
}

-- `Validate`
unfoldable pub server_is_valid : ServerConfig → Bool
server_is_valid c = not (not (is_positive c.port) || ltb 65535 (nat_of c.port))
