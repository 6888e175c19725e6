-- ===== src/Ipc/Lines.antt =====
-- The responses of internal/ipc/ipc.go against the lines of the connection.
use cloudflared_fips.Prelude.{
  ◌≡◌, ◌≢◌, ◌↔◌, Bool, true, false, ltb, leb, not, ◌&&◌, refl, inl, inr, List, [], ◌∷◌, map, none,
  Bool-cases, All, if◌then◌else◌, arith,
}
use cloudflared_fips.Prelude.Int.{ℤ, pos}
use cloudflared_fips.Prelude.Results.{ok, err, Result-cases}
use cloudflared_fips.Ipc.{Request, Response, Server, Env, Line, dispatch, respond, handle_conn}

-- A line that fits into a message of one mebibyte with its end, and comes before the server stops.
abbrev is_served : Line → Bool
is_served line = ltb line.size 1048576 && not line.stopped

-- the lines up to the first one that is not served
unfoldable pub served : List Line → List Line
served [] = []
served (line ∷ lines) = let rest = served lines in if is_served line then line ∷ rest else []

abbrev id_of : Line → ℤ
id_of line = elim line.request [ err _ ↦ pos 0 | ok req ↦ req.id ]

-- a response says either a result or an error
abbrev pub OneOf : Response → Type 0
OneOf r = (r.result ≡ none) ↔ (r.error ≢ none)

dispatch-OneOf : (e : Env) (s : Server) (req : Request) → OneOf (dispatch e s req)
unfolding dispatch
dispatch-OneOf e s req = ground arith

dispatch-id : (e : Env) (s : Server) (req : Request) → (dispatch e s req).id ≡ req.id
unfolding dispatch
dispatch-id e s req = ground arith

respond-OneOf : (s : Server) (line : Line) → OneOf (respond s line.env line.request)
respond-OneOf s line = elim (Result-cases line.request) [
  | inl (req, e) ↦ rw e (dispatch-OneOf line.env s req)
  | inr (message, e) ↦ rw e (ground arith)
]

respond-id : (s : Server) (line : Line) → (respond s line.env line.request).id ≡ id_of line
respond-id s line = elim (Result-cases line.request) [
  | inl (req, e) ↦ rw e (dispatch-id line.env s req)
  | inr (message, e) ↦ rw e refl
]

-- Every line of a connection before the first one that is too long or comes after the server is
-- stopped gets one response, in the order of the lines, with the id of its request or 0 where the
-- line is no request, and each response carries either a result or an error. A line is too long from
-- 1048576 bytes on, its end not counted; it and all lines after it get no response.
pub handle_conn-answers :
    (s : Server) (lines : List Line)
    → let responses = handle_conn s lines in
      (map (λ r. r.id) responses ≡ map id_of (served lines)) × All OneOf responses
unfolding handle_conn served
handle_conn-answers s [] = (refl, tt)
handle_conn-answers s (line ∷ lines) =
    let (ids, all) = handle_conn-answers s lines in
    elim (Bool-cases (leb 1048576 line.size)) [
      | inl e ↦
          let long : ltb line.size 1048576 ≡ false = ground (arith, e) in
          rw (handle_conn, served, e, long) (refl, tt)
      | inr e ↦
          let short : ltb line.size 1048576 ≡ true = ground (arith, e) in
          elim (Bool-cases line.stopped) [
            | inl f ↦ rw (handle_conn, served, e, short, f) (refl, tt)
            | inr f ↦
                rw (handle_conn, served, e, short, f)
                  (rw (ids, respond-id s line) refl, (respond-OneOf s line, all))
          ]
    ]
