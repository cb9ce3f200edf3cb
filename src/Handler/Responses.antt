-- ===== src/Handler/Responses.antt =====
-- The responses that handler.rs makes itself.
use prismproxy.Prelude.{ℕ, String, ◌≡◌, refl, ◌≢◌, Bool, Option, none, some, arith, IsVisible}
use prismproxy.Errors.{ProxyError}
use prismproxy.Http.{Http, HttpLaws, Response, Bytes}
use prismproxy.Handler.{
  error_status, with_type, text_response, blocked_response, error_response, health_response,
}

module _ {http : Http} (laws : HttpLaws http) where
  -- A response with the status, and no panic.
  pub record Responds (status : ℕ) (o : Option (Response http Bytes)) : Type 0 where
    pub response : Response http Bytes
    pub made : o ≡ some response
    pub has_status : response.status ≡ status

  with_type-Responds :
      (status : ℕ) (body : String) (o : Option http.Value)
      → o ≢ none
      → Responds status (with_type http status body o)
  with_type-Responds status body none h = absurd (h refl)
  with_type-Responds status body (some v) h = record {
    response = _;
    made = refl;
    has_status = refl;
  }

  pub text_response-Responds :
      (status : ℕ) (content_type body : String)
      → IsVisible content_type
      → Responds status (text_response http status content_type body)
  text_response-Responds status content_type body visible =
      with_type-Responds status body (http.parse_value content_type)
        (laws.parse_visible content_type visible)

  pub blocked_response-Responds : Responds 403 (blocked_response http)
  unfolding blocked_response
  blocked_response-Responds = text_response-Responds 403 "text/plain" _ (omega arith)

  pub error_response-Responds : (e : ProxyError) → Responds (error_status e) (error_response http e)
  unfolding error_response
  error_response-Responds e = text_response-Responds (error_status e) "text/plain" _ (omega arith)

  pub health_response-Responds :
      (uptime : String) (routes : ℕ) (tls : Bool)
      → Responds 200 (health_response http uptime routes tls)
  unfolding health_response
  health_response-Responds uptime routes tls =
      text_response-Responds 200 "application/json" _ (omega arith)
