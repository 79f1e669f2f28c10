-- ===== src/Prometheus.antt =====
-- internal/metrics/prometheus_helper.go: `QueryPrometheus`. The operator does not call it.
use redis_foxtrot_autoscaler.Prelude.{
  ◌≡◌, refl, ap, ◌↔◌, Option, none, some, List, [], ◌∷◌, String, arith,
}
use redis_foxtrot_autoscaler.Errors.{ApiError}
use redis_foxtrot_autoscaler.Kube.{Platform, Request, Response, ok, err, Vector, query}

pub data QueryError : Type 0 where
  client_failed query_failed : ApiError → QueryError
  unexpected_type no_data : QueryError

module _ {F : Type 0} (p : Platform F) where
  -- The value, which is 0 beside an error, with the error.
  abbrev pub Answer : Type 0
  Answer = F × Option QueryError

  abbrev pub no_value : QueryError → Answer
  no_value e = (p.of_int32 0, some e)

  abbrev pub first_value : Option (Vector F) → Answer
  first_value none = no_value unexpected_type
  first_value (some []) = no_value no_data
  first_value (some ((pod, value) ∷ vs)) = (value, none)

  abbrev pub read_answer : Response (Option (Vector F)) → Answer
  read_answer (err e) = no_value (query_failed e)
  read_answer (ok v) = first_value v

  abbrev pub ask_client : String → Option ApiError → List Request → Answer × List Request
  ask_client text (some e) h = (no_value (client_failed e), h)
  ask_client text none h = (read_answer (p.query h text), query text ∷ h)

  unfoldable pub query_prometheus : String → String → List Request → Answer × List Request
  query_prometheus url text h = ask_client text (p.new_client url) h

  -- The server's answer begins with a sample of the value.
  pub record Begins (r : Response (Option (Vector F))) (value : F) : Type 0 where
    pub pod : String
    pub others : Vector F
    pub answer : r ≡ ok (some ((pod, value) ∷ others))

  read_answer-Begins :
      (r : Response (Option (Vector F))) (value : F)
      → (read_answer r ≡ (value, none)) ↔ Begins r value
  read_answer-Begins (err e) value = (λ q. ground arith, λ b. let a = b.answer in ground arith)
  read_answer-Begins (ok none) value = (λ q. ground arith, λ b. let a = b.answer in ground arith)
  read_answer-Begins (ok (some [])) value =
      (λ q. ground arith, λ b. let a = b.answer in ground arith)
  read_answer-Begins (ok (some ((pod, v) ∷ vs))) value = (
    λ q. record {
      pod = pod;
      others = vs;
      answer = ap (λ x. ok (some ((pod, x) ∷ vs))) (ap (λ (a : Answer). a.0) q);
    },
    λ b. let a = b.answer in ground arith,
  )

  client-Begins :
      (text : String) (h : List Request) (value : F) (e : Option ApiError)
      → ((ask_client text e h).0 ≡ (value, none)) ↔ ((e ≡ none) × Begins (p.query h text) value)
  client-Begins text h value none =
      let (to, from) = read_answer-Begins (p.query h text) value in
      (λ q. (refl, to q), λ b. from b.1)
  client-Begins text h value (some e) = (λ q. ground arith, λ b. let a = b.0 in ground arith)

  -- QueryPrometheus gives a value without an error exactly when the client is made and the
  -- server's answer is a vector whose first sample has that value.
  pub query_prometheus_value :
      (url text : String) (h : List Request) (value : F)
      → ((query_prometheus url text h).0 ≡ (value, none))
        ↔ ((p.new_client url ≡ none) × Begins (p.query h text) value)
  unfolding query_prometheus
  query_prometheus_value url text h value = client-Begins text h value (p.new_client url)
