-- ===== src/Tests/Cases/Serving.antt =====
-- The unit tests of src/main.rs: a service that answers each request, and keeps those that it has seen.
use sinker.Prelude.{◌≡◌, refl, ℕ, String, List, [], ◌∷◌, map}
use sinker.Result.{Result, ok, err}
use sinker.Main.Client.{
  HttpRequest, LegacyError, ClientError, source, legacy, other_legacy, LegacyClient, KubeClient,
  controller_client,
}

record HttpParts : Type 0 where
  pub method : String
  pub uri : String
  pub content_type : String
  pub extension : ℕ

-- A body is the frames that it yields, and whether it then ends.
data Frames : Type 0 where
  ended stalled : Frames
  frame : String → Frames → Frames

record HttpResponse : Type 0 where
  pub status : ℕ
  pub test_header : String
  pub body : Frames

-- `std::io::Error`
record IoError : Type 0 where
  pub kind : String
  pub text : String

abbrev Seen : Type 0
Seen = List (HttpRequest HttpParts String)

abbrev answering :
    Result (LegacyError IoError) HttpResponse
    → String
    → LegacyClient Seen HttpParts String HttpResponse IoError
answering answer namespace = record {
  default_namespace = namespace;
  send = λ request seen. (answer, request ∷ seen);
}

-- The requests of the tests have bodies of bytes, which are collected as they are.
abbrev collect : String → Result (ClientError IoError) String
collect bytes = ok bytes

abbrev client_of :
    Result (LegacyError IoError) HttpResponse
    → String
    → KubeClient Seen HttpParts String HttpResponse IoError
client_of answer namespace = controller_client collect (answering answer namespace)

-- `controller_client_preserves_http_exchange`
abbrev uri : String
uri = "/api/v1/namespaces/workloads/configmaps/target?fieldManager=sinker.influxdata.io&force=true"

abbrev exchange_cases : List (String × (String × ℕ))
exchange_cases =
    ("GET", ("", 200))
    ∷ ("PATCH", ("{\"data\":{\"key\":\"value\"}}", 201))
    ∷ ("GET", ("", 403))
    ∷ []

abbrev responded : ℕ → HttpResponse
responded status = record {
  status = status;
  test_header = "preserved";
  body = frame "response body" ended;
}

abbrev request_of : String → String → HttpRequest HttpParts String
request_of method payload = record {
  parts = record {
    method = method;
    uri = uri;
    content_type = "application/apply-patch+yaml";
    extension = 42;
  };
  body = payload;
}

abbrev exchange :
    String × (String × ℕ) → String × (Result (ClientError IoError) HttpResponse × Seen)
exchange (method, (payload, status)) =
    let client = client_of (ok (responded status)) "workloads" in
    (client.default_namespace, client.service (request_of method payload) [])

abbrev exchanged :
    String × (String × ℕ) → String × (Result (ClientError IoError) HttpResponse × Seen)
exchanged (method, (payload, status)) =
    ("workloads", (ok (responded status), request_of method payload ∷ []))

exchange_cases_pass : map exchange exchange_cases ≡ map exchanged exchange_cases
unfolding controller_client
exchange_cases_pass = refl

abbrev send_to :
    Result (LegacyError IoError) HttpResponse → Result (ClientError IoError) HttpResponse
send_to answer = ((client_of answer "default").service (request_of "GET" "") []).0

-- `controller_client_keeps_watch_responses_streaming`: the first frame is there before the stream ends.
abbrev watch_event : HttpResponse
watch_event = record { status = 200; test_header = ""; body = frame "watch event\n" stalled }

watch_event_pass : send_to (ok watch_event) ≡ ok watch_event
unfolding controller_client
watch_event_pass = refl

-- `controller_client_retains_transport_error_source`
abbrev reset : IoError
reset = record { kind = "ConnectionReset"; text = "connection reset by test peer" }

reset_pass : send_to (err (LegacyError.service reset)) ≡ err (ClientError.service (source reset))
unfolding controller_client
reset_pass = refl

-- `controller_client_retains_other_legacy_error_variants`
abbrev unreadable : LegacyError IoError
unreadable = other_legacy (record { kind = "InvalidData"; text = "invalid event bytes" })

unreadable_pass : send_to (err unreadable) ≡ err (ClientError.service (legacy unreadable))
unfolding controller_client
unreadable_pass = refl
