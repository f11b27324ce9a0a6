-- ===== src/Client/Messages.antt =====
-- The lines that one side prints are read by the other as they were meant.
use tp_sistemas_operativos_i.Prelude.{
  ℕ, ◌≤◌, ◌≡◌, refl, ap, ◌∙◌, List, [], ◌∷◌, ◌++◌, some, ◌==◌, arith, length, take, take_all, All,
  All-append,
}
use tp_sistemas_operativos_i.Prelude.Int.{ℤ, eq_ℤ, eq_ℤ_iff}
use tp_sistemas_operativos_i.Prelude.Text.{codes, str_eq}
use tp_sistemas_operativos_i.Domain.{PendingResource, LocalJob}
use tp_sistemas_operativos_i.ResourceQueue.{bind-some}
use tp_sistemas_operativos_i.Wire.{print_int, get_token, bounded_copy}
use tp_sistemas_operativos_i.Wire.Decimal.{atoi-print_int}
use tp_sistemas_operativos_i.Wire.Numerals.{IsByte, int-IsByte, print_int-IsWord}
use tp_sistemas_operativos_i.Wire.Tokens.{IsWord, line_of, get_token-line_of, until-All}
use tp_sistemas_operativos_i.Framing.{buffer_len}
use tp_sistemas_operativos_i.Nodes.{c_string}
use tp_sistemas_operativos_i.Server.{enqueue_jobs, release_client_by_fd, granted_message}
use tp_sistemas_operativos_i.Wire.Messages.{request_line, reserve_message, release_message}
use tp_sistemas_operativos_i.Client.{Agent, Env, find_job, ask_for_next_resource}
use tp_sistemas_operativos_i.Client.Remote.{
  client_to_myserver, dispatched, progressed, grant_job, granted_if,
}

-- The type of a resource that a line can carry.
abbrev pub IsKind : List ℕ → Type 0
IsKind kind = IsWord kind × All IsByte kind

received-line :
    (ws : List (List ℕ)) (n : ℕ)
    → All IsWord ws
    → All IsByte (line_of ws)
    → length (line_of ws) ≤ 1023
    → get_token (bounded_copy buffer_len (c_string (line_of ws))) n ≡ take n ws
received-line ws n words bytes fits =
    let text = until-All (λ c. c == 0) (line_of ws) bytes in
    let copy = take_all 1023 (line_of ws) fits in rw (text, copy) (get_token-line_of ws n words)

abbrev request_words : List ℕ → ℤ → PendingResource → List (List ℕ)
request_words word id r = word ∷ print_int id ∷ r.kind ∷ print_int r.amount ∷ []

request-IsByte :
    (word : List ℕ) (id : ℤ) (r : PendingResource)
    → All IsByte word
    → All IsByte r.kind
    → All IsByte (line_of (request_words word id r))
unfolding line_of
request-IsByte word id r w k = All-append IsByte word _ w (
  refl,
  int-IsByte id _
      (refl, All-append IsByte r.kind _ k (refl, int-IsByte r.amount (10 ∷ []) (refl, tt))),
)

-- The tokens of a RESERVE or a RELEASE.
request-tokens :
    (word : List ℕ) (id : ℤ) (r : PendingResource)
    → IsKind word
    → IsKind r.kind
    → length (line_of (request_words word id r)) ≤ 1023
    → get_token (bounded_copy buffer_len (c_string (line_of (request_words word id r)))) 10
      ≡ request_words word id r
request-tokens word id r w k fits =
    received-line (request_words word id r) 10
      (w.0, (print_int-IsWord id, (k.0, (print_int-IsWord r.amount, tt))))
      (request-IsByte word id r w.1 k.1) fits

reserve-line :
    (id : ℤ) (r : PendingResource)
    → request_line (codes "RESERVE ") id r ≡ line_of (request_words (codes "RESERVE") id r)
unfolding line_of
reserve-line id r = refl

release-line :
    (id : ℤ) (r : PendingResource)
    → request_line (codes "RELEASE ") id r ≡ line_of (request_words (codes "RELEASE") id r)
unfolding line_of
release-line id r = refl

-- The line that `send_request` sends for a request reaches the queues of the peer with the job, the
-- resource and the amount of the request, if the resource's name is one word and the line fits in the
-- 255 bytes of the sender's array.
pub client_to_myserver-reserve_message :
    (env : Env) (fd id : ℤ) (r : PendingResource) (a : Agent)
    → IsKind r.kind
    → length (request_line (codes "RESERVE ") id r) ≤ 255
    → client_to_myserver env fd (reserve_message id r) a
      ≡ some (record a { server = enqueue_jobs env.peer a.server r.kind id r.amount fd })
unfolding client_to_myserver reserve_message str_eq
client_to_myserver-reserve_message env fd id r a k fits =
    let line = reserve-line id r in
    let whole = take_all 255 (request_line (codes "RESERVE ") id r) fits in
    let tokens =
      request-tokens (codes "RESERVE") id r (ground arith, ground arith) k
        (omega (arith, ap length line)) in
    ap (λ (l : List ℕ). dispatched env fd (get_token (bounded_copy buffer_len (c_string l)) 10) a)
      (whole ∙ line)
    ∙ rw (tokens, atoi-print_int id, atoi-print_int r.amount) refl

-- The line that `release_resources` sends gives back what the peer holds for the connection, if the
-- resource's name is one word and the line fits in the 127 bytes of the sender's array.
pub client_to_myserver-release_message :
    (env : Env) (fd id : ℤ) (r : PendingResource) (a : Agent)
    → IsKind r.kind
    → length (request_line (codes "RELEASE ") id r) ≤ 127
    → client_to_myserver env fd (release_message id r) a
      ≡ some (record a { server = release_client_by_fd env.peer a.server fd })
unfolding client_to_myserver release_message str_eq
client_to_myserver-release_message env fd id r a k fits =
    let line = release-line id r in
    let whole = take_all 127 (request_line (codes "RELEASE ") id r) fits in
    let tokens =
      request-tokens (codes "RELEASE") id r (ground arith, ground arith) k
        (omega (arith, ap length line)) in
    ap (λ (l : List ℕ). dispatched env fd (get_token (bounded_copy buffer_len (c_string l)) 10) a)
      (whole ∙ line)
    ∙ rw tokens refl

granted-line : (id : ℤ) → granted_message id ≡ line_of (codes "GRANTED" ∷ print_int id ∷ [])
unfolding granted_message line_of
granted-line id = refl

granted-tokens :
    (id : ℤ)
    → length (granted_message id) ≤ 1023
    → get_token (bounded_copy buffer_len (c_string (granted_message id))) 10
      ≡ codes "GRANTED" ∷ print_int id ∷ []
unfolding line_of
granted-tokens id fits =
    let line = granted-line id in
    ap (λ (l : List ℕ). get_token (bounded_copy buffer_len (c_string l)) 10) line
    ∙ received-line (codes "GRANTED" ∷ print_int id ∷ []) 10
        (ground arith, (print_int-IsWord id, tt))
        (All-append IsByte (codes "GRANTED") (32 ∷ (print_int id ++ 10 ∷ [])) (ground arith)
          (refl, int-IsByte id (10 ∷ []) (refl, tt)))
        (omega (arith, ap length line))

-- The GRANTED that a peer sends for a job, on a connection that is indexed for that live job, moves
-- the job's first request to those that are granted, with the connection as its provider, restarts
-- the clock, takes the connection out of the index and asks for the next resource.
pub client_to_myserver-granted_message :
    (env : Env) (fd id : ℤ) (a : Agent) (p : ℕ) (job : LocalJob)
    → length (granted_message id) ≤ 1023
    → find_job fd a ≡ some p
    → a.jobs p ≡ some job
    → job.job_id ≡ id
    → client_to_myserver env fd (granted_message id) a
      ≡ ask_for_next_resource env.attempt p (progressed env fd p job a)
unfolding client_to_myserver grant_job str_eq
client_to_myserver-granted_message env fd id a p job fits found live same =
    let tokens = granted-tokens id fits in
    let equal = (eq_ℤ_iff job.job_id id).1 same in
    rw (tokens, atoi-print_int id, found)
      (bind-some (a.jobs p) job (λ j. granted_if (eq_ℤ j.job_id id) env fd p j a) live
        ∙ (rw equal refl))
