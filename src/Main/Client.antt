-- ===== src/Main/Client.antt =====
-- `controller_client` of src/main.rs: kubert's client behind the interface of the current kube. Parts of
-- a request, bodies, bytes, responses and sources of errors are the crates', and so are arguments, as is
-- what a transport keeps between requests.
use sinker.Prelude.{◌≡◌, ◌↔◌, refl, String, Option, none, some}
use sinker.Result.{Result, ok, err, panic, map_err}

-- `http::Request`
pub record HttpRequest (Parts Body : Type 0) : Type 0 where
  pub parts : Parts
  pub body : Body

-- `kubert::client::Error`: the two variants that are told apart, and any other.
pub data LegacyError (X : Type 0) : Type 0 where
  service : X → LegacyError X
  hyper_error : X → LegacyError X
  other_legacy : X → LegacyError X

-- What a `kube::Error::Service` boxes: a source, or an error of kubert's whole.
pub data Boxed (X : Type 0) : Type 0 where
  source : X → Boxed X
  legacy : LegacyError X → Boxed X

-- `kube::Error`
pub data ClientError (X : Type 0) : Type 0 where
  service : Boxed X → ClientError X
  hyper_error : X → ClientError X
  other_client : X → ClientError X

-- How a client answers a request, with the state `W` of its transport before and after.
abbrev pub Service : Type 0 → Type 0 → Type 0 → Type 0 → Type 0
Service W Request E Response = Request → W → Result E Response × W

-- `kubert::client::Client`
pub record LegacyClient (W Parts Bytes Response X : Type 0) : Type 0 where
  pub default_namespace : String
  pub send : Service W (HttpRequest Parts Bytes) (LegacyError X) Response

-- `kube::Client`
pub record KubeClient (W Parts Body Response X : Type 0) : Type 0 where
  pub service : Service W (HttpRequest Parts Body) (ClientError X) Response
  pub default_namespace : String

module _ {X : Type 0} where
  -- The `map_err` of the service.
  unfoldable pub client_error : LegacyError X → ClientError X
  client_error (LegacyError.service s) = ClientError.service (source s)
  client_error (LegacyError.hyper_error s) = ClientError.hyper_error s
  client_error e = ClientError.service (legacy e)

  -- What a caller finds by downcasting the source of a service error: a source itself, or an error of
  -- kubert's. An error of hyper is a variant of its own.
  abbrev pub downcast_source : ClientError X → Option X
  downcast_source (ClientError.service (source s)) = some s
  downcast_source _ = none

  abbrev pub downcast_legacy : ClientError X → Option (LegacyError X)
  downcast_legacy (ClientError.service (legacy e)) = some e
  downcast_legacy _ = none

  abbrev pub hyper : ClientError X → Option X
  hyper (ClientError.hyper_error s) = some s
  hyper _ = none

  -- Which of the three an error of kubert's is: the source of a service error and an error of hyper
  -- reappear as such, and only any other error is found whole.
  pub record Shows (e : LegacyError X) (c : ClientError X) : Type 0 where
    pub sources : (s : X) → (downcast_source c ≡ some s) ↔ (e ≡ LegacyError.service s)
    pub hypers : (s : X) → (hyper c ≡ some s) ↔ (e ≡ LegacyError.hyper_error s)
    pub whole : (s : X) → (downcast_legacy c ≡ some (other_legacy s)) ↔ (e ≡ other_legacy s)

  client_error-Shows : (e : LegacyError X) → Shows e (client_error e)
  unfolding client_error
  client_error-Shows (LegacyError.service t) = record {
    sources = λ s. (λ h. cc h, λ h. cc h);
    hypers = λ s. (λ h. cc h, λ h. cc h);
    whole = λ s. (λ h. cc h, λ h. cc h);
  }
  client_error-Shows (LegacyError.hyper_error t) = record {
    sources = λ s. (λ h. cc h, λ h. cc h);
    hypers = λ s. (λ h. cc h, λ h. cc h);
    whole = λ s. (λ h. cc h, λ h. cc h);
  }
  client_error-Shows (other_legacy t) = record {
    sources = λ s. (λ h. cc h, λ h. cc h);
    hypers = λ s. (λ h. cc h, λ h. cc h);
    whole = λ s. (λ h. cc h, λ h. cc h);
  }

module _ {Response X : Type 0} where
  -- A result of kubert's client, and the one that the controller has of it.
  abbrev pub Reappears : Result (LegacyError X) Response → Result (ClientError X) Response → Type 0
  Reappears (ok response) r = r ≡ ok response
  Reappears (err e) r = (c : ClientError X) × (r ≡ err c) × Shows e c
  Reappears panic r = r ≡ panic

module _ {W Response X : Type 0} where
  abbrev pub answered : Result (LegacyError X) Response × W → Result (ClientError X) Response × W
  answered (r, w) = (map_err client_error r, w)

  answered-Reappears :
      (r : Result (LegacyError X) Response × W)
      → Reappears r.0 (answered r).0 × ((answered r).1 ≡ r.1)
  answered-Reappears (ok response, w) = (refl, refl)
  answered-Reappears (err e, w) = ((client_error e, refl, client_error-Shows e), refl)
  answered-Reappears (panic, w) = (refl, refl)

module _ {W Parts Bytes Response X : Type 0} where
  abbrev pub forward :
      LegacyClient W Parts Bytes Response X
      → Parts
      → Result (ClientError X) Bytes
      → W
      → Result (ClientError X) Response × W
  forward client parts (ok bytes) w =
      answered (client.send (record { parts = parts; body = bytes }) w)
  forward client parts (err e) w = (err e, w)
  forward client parts panic w = (panic, w)

module _ {W Parts Body Bytes Response X : Type 0}
    (collect_bytes : Body → Result (ClientError X) Bytes) where
  unfoldable pub controller_client :
      LegacyClient W Parts Bytes Response X → KubeClient W Parts Body Response X
  unfolding client_error
  controller_client client = record {
    service = λ request. forward client request.parts (collect_bytes request.body);
    default_namespace = client.default_namespace;
  }

  -- The client that the controller is given exchanges what kubert's does. A request whose body can be
  -- collected is sent once, with its parts and the collected bytes, the transport's state is as kubert's
  -- client leaves it, and a response is passed on. Of an error, the source of a service error is boxed
  -- itself, an error of hyper stays one, and only any other error is boxed whole.
  pub controller_client_lem :
      (client : LegacyClient W Parts Bytes Response X) (request : HttpRequest Parts Body) (w : W)
      (bytes : Bytes)
      → collect_bytes request.body ≡ ok bytes
      → let sent = client.send (record { parts = request.parts; body = bytes }) w in
        let (result, w') = (controller_client client).service request w in
        Reappears sent.0 result × (w' ≡ sent.1)
  unfolding controller_client
  controller_client_lem client request w bytes h =
      rw h (answered-Reappears (client.send (record { parts = request.parts; body = bytes }) w))

  -- A request whose body cannot be collected fails with that error, and nothing is sent.
  pub controller_client_uncollected :
      (client : LegacyClient W Parts Bytes Response X) (request : HttpRequest Parts Body) (w : W)
      (e : ClientError X)
      → collect_bytes request.body ≡ err e
      → (controller_client client).service request w ≡ (err e, w)
  unfolding controller_client
  controller_client_uncollected client request w e h = rw h refl
