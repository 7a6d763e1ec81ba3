-- ===== src/HttpServer/Recovery.antt =====
-- The answers of the handlers behind `RecoverMiddleware` of common/httpserver/middleware.go.
use analytics_system.Prelude.{
  ℕ, ◌≡◌, refl, ap, Bool, true, false, List, [], ◌∷◌, ◌++◌, Option, none, some, if◌then◌else◌,
}
use analytics_system.Prelude.Text.{codes}
use analytics_system.HttpServer.{
  Call, Wrapper, wrapper_write_header, wrapper_write, Run, serve, recover_middleware,
}

-- The first status that a handler sets or implies, if it writes at all.
abbrev pub first_status : List Call → Option ℕ
first_status [] = none
first_status (Call.write_header code ∷ rest) = some code
first_status (Call.write b ∷ rest) = some 200

-- The bodies that it writes, the last one first, onto the calls before.
abbrev pub bodies_onto : List Call → List Call → List Call
bodies_onto [] calls = calls
bodies_onto (Call.write_header code ∷ rest) calls = bodies_onto rest calls
bodies_onto (Call.write b ∷ rest) calls = bodies_onto rest (Call.write b ∷ calls)

-- What a client is sent: one status, and then the bodies in their order.
abbrev pub answer : Run → List Call
answer run = elim (first_status run.acts) [
  | none ↦
      if run.panicked
      then Call.write (codes "internal server error\n") ∷ Call.write_header 500 ∷ []
      else []
  | some code ↦
      (if run.panicked then Call.write [] ∷ [] else [])
      ++ bodies_onto run.acts (Call.write_header code ∷ [])
]

abbrev started : ℕ → List Call → Wrapper
started code calls = record { wrote_header = true; status_code = code; calls = calls }

serve_started :
    (acts : List Call) (code : ℕ) (calls : List Call)
    → ((serve acts (started code calls)).calls ≡ bodies_onto acts calls)
      × ((serve acts (started code calls)).wrote_header ≡ true)
unfolding serve wrapper_write wrapper_write_header
serve_started [] code calls = (refl, refl)
serve_started (Call.write_header again ∷ rest) code calls = serve_started rest code calls
serve_started (Call.write b ∷ rest) code calls = serve_started rest code (Call.write b ∷ calls)

recovery_of :
    (acts : List Call) (panicked : Bool)
    → let run : Run = record { acts = acts; panicked = panicked } in
      (recover_middleware run).calls ≡ answer run
unfolding recover_middleware serve wrapper_write wrapper_write_header
recovery_of [] true = refl
recovery_of [] false = refl
recovery_of (Call.write_header code ∷ rest) false =
    (serve_started rest code (Call.write_header code ∷ [])).0
recovery_of (Call.write_header code ∷ rest) true =
    let (calls, wrote) = serve_started rest code (Call.write_header code ∷ []) in
    rw wrote (ap (◌∷◌ (Call.write [])) calls)
recovery_of (Call.write b ∷ rest) false =
    (serve_started rest 200 (Call.write b ∷ Call.write_header 200 ∷ [])).0
recovery_of (Call.write b ∷ rest) true =
    let (calls, wrote) = serve_started rest 200 (Call.write b ∷ Call.write_header 200 ∷ []) in
    rw wrote (ap (◌∷◌ (Call.write [])) calls)

-- Whatever a handler writes, and whether it panics, the client is sent one status at most: the first
-- that the handler set, or 200 if it wrote a body first; then the bodies in their order. A handler
-- that panics before it has written anything is answered with the status 500 and the text of the
-- error, and one that panics later with an empty write and no second status.
pub recover_middleware_lem : (run : Run) → (recover_middleware run).calls ≡ answer run
recover_middleware_lem run = recovery_of run.acts run.panicked
