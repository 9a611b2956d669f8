-- ===== src/Backend/Answers.antt =====
-- When a call of an endpoint returns, a server has answered it.
use group_assessment_agent.Base.{
  ℕ, suc, ◌+◌, ◌≤◌, ◌<◌, ◌≡◌, refl, Text, length, Option, none, some, List, ◌++◌, arith,
}
use group_assessment_agent.Exec.{Result, ok, raised, pure, raise, ◌>>=◌}
use group_assessment_agent.Backend.Json.{Json}
use group_assessment_agent.Backend.Http.{
  Request, Response, Reply, timeout, transport_error, request_error, response, Server, Failure,
  classify,
}
use group_assessment_agent.Backend.Retrying.{Retrying, request_attempts, repeat}
use group_assessment_agent.Backend.Diarisation.{exchange, decoded, reads}

classify-ok :
    (p : Reply) (r : Response) → classify p ≡ ok r → (p ≡ response r) × (r.status_code < 400)
unfolding classify
classify-ok timeout r h = absurd (ground arith)
classify-ok transport_error r h = absurd (ground arith)
classify-ok request_error r h = absurd (ground arith)
classify-ok (response q) r h = ground arith

decoded-ok :
    (o : Option Json) (v : Json) (sent after : List Request)
    → reads (decoded o) sent ≡ (ok v, after)
    → (o ≡ some v) × (after ≡ sent)
unfolding pure raise
decoded-ok none v sent after h = absurd (ground arith)
decoded-ok (some w) v sent after h = ground arith

module _ (server : Server) (retrying : Retrying) (json : Text → Option Json) where
  -- What the value of a returned exchange shows, by the result of its request.
  answered :
      (r : Request) (o : Result Failure Response) (v : Json) (sent after : List Request)
      → ((λ (_ : List Request). (o, sent)) >>= λ resp. reads (decoded (json resp.content))) sent
        ≡ (ok v, after)
      → (resp : Response) × (o ≡ ok resp) × (json resp.content ≡ some v) × (after ≡ sent)
  unfolding ◌>>=◌
  answered r (ok resp) v sent after h =
      let (found, same) = decoded-ok (json resp.content) v sent after h in (resp, refl, found, same)
  answered r (raised e) v sent after h = absurd (ground arith)

  -- A call of an endpoint of the diarisation client that returns a decoded reply has been answered: the
  -- server's response to the last of its requests has a status below 400 and decodes to this
  -- reply. The requests sent are the same request, at least once and at most as often as
  -- attempts are allowed, and nothing else.
  pub exchange_answered :
      (n : ℕ) (r : Request) (v : Json) (sent after : List Request)
      → exchange server retrying json (suc n) r.method r.path r.token r.body sent ≡ (ok v, after)
      → (k : ℕ) × (k ≤ n)
        × (resp : Response) × (server (length sent + k) r ≡ response resp)
        × (resp.status_code < 400)
        × (json resp.content ≡ some v)
        × (after ≡ sent ++ repeat (suc k) r)
  unfolding exchange ◌>>=◌
  exchange_answered n r v sent after h =
      let (k, bound, result, _, _) = request_attempts retrying server classify r n sent in
      let opened = rw result at h in
      let (resp, returned, found, same) =
        answered r (classify (server (length sent + k) r)) v (sent ++ repeat (suc k) r) after
          opened in
      let (answer, below) = classify-ok (server (length sent + k) r) resp returned in
      (k, bound, resp, answer, below, found, same)
