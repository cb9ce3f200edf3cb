-- ===== src/Http.antt =====
-- What the program uses of the crates http and hyper and of the network, as parameters: header maps,
-- messages, and the awaited operations of a client connection. The laws are documented behaviour.
pub mod Toy
pub mod ToyNet
use prismproxy.Prelude.{
  ℕ, String, ◌≡◌, ◌≢◌, Option, none, some, List, [], ◌∷◌, ◌≤◌, if◌then◌else◌, str_eq, Result,
  IsVisible,
}
use prismproxy.Pool.{Step}

-- `HeaderMap` with lower-case names, `HeaderValue` and `Uri`.
pub record Http : Type 1 where
  pub Headers : Type 0
  pub Value : Type 0
  pub Uri : Type 0
  pub empty : Headers
  -- The first value of a name.
  pub get : String → Headers → Option Value
  -- `insert` replaces all values of the name, `append` keeps them.
  pub insert : String → Value → Headers → Headers
  pub append : String → Value → Headers → Headers
  pub remove : String → Headers → Headers
  -- The pairs in the order of iteration.
  pub entries : Headers → List (String × Value)
  -- `str::parse::<HeaderValue>` and `HeaderValue::to_str`
  pub parse_value : String → Option Value
  pub to_str : Value → Option String
  -- `Uri::path` and `Display`
  pub path_of : Uri → String
  pub show_uri : Uri → String

-- The value of a name among pairs: the first.
abbrev pub first_of_name {ℓ} : {V : Type ℓ} → String → List (String × V) → Option V
first_of_name k [] = none
first_of_name k ((j, v) ∷ rest) = if str_eq j k then some v else first_of_name k rest

-- `f` where there is no value.
abbrev pub or_else {ℓ} : {V : Type ℓ} → Option V → Option V → Option V
or_else none other = other
or_else (some v) other = some v

pub record HttpLaws (http : Http) : Type 0 where
  pub get-empty : (k : String) → http.get k http.empty ≡ none
  pub get-insert :
      (k j : String) (v : http.Value) (h : http.Headers)
      → http.get j (http.insert k v h) ≡ (if str_eq k j then some v else http.get j h)
  pub get-append :
      (k j : String) (v : http.Value) (h : http.Headers)
      → http.get j (http.append k v h)
        ≡ or_else (http.get j h) (if str_eq k j then some v else none)
  pub get-remove :
      (k j : String) (h : http.Headers)
      → http.get j (http.remove k h) ≡ (if str_eq k j then none else http.get j h)
  pub get-entries :
      (k : String) (h : http.Headers) → http.get k h ≡ first_of_name k (http.entries h)
  -- A text of visible ASCII characters is a header value.
  pub parse_visible : (s : String) → IsVisible s → http.parse_value s ≢ none

pub record Request (http : Http) (B : Type 0) : Type 0 where
  pub method : String
  pub uri : http.Uri
  pub headers : http.Headers
  pub body : B

pub record Response (http : Http) (B : Type 0) : Type 0 where
  pub status : ℕ
  pub headers : http.Headers
  pub body : B

-- The outcome of an await inside `tokio::time::timeout`: a value, or the deadline came first, which
-- drops the future.
pub data Await {ℓ} (A : Type ℓ) : Type ℓ where
  ready : A → Await A
  late : Await A

abbrev pub Bytes : Type 0
Bytes = List ℕ

-- The network and the other tasks. Each operation may change the world; an error is its text.
pub record Net (http : Http) : Type 1 where
  pub World : Type 0
  pub Stream : Type 0
  -- `SendRequest`
  pub Conn : Type 0
  -- A body that is still to be received.
  pub Incoming : Type 0
  -- `TcpStream::connect`
  pub connect : String → World → Await (Result Stream String) × World
  -- `http1::handshake`
  pub handshake : Stream → World → Await (Result Conn String) × World
  pub send_request :
      Conn → Request http Bytes → World → Await (Result (Response http Incoming) String) × World
  -- `collect().await` and `to_bytes`
  pub collect : Incoming → World → Await (Result Bytes String) × World
  -- `Mutex::lock` of the pool: what other tasks do to the pool before this task has the lock.
  pub lock : World → Await (List (Step Conn)) × World
  -- `Instant::elapsed` in milliseconds, from the one moment to the other, and the time since the
  -- start in seconds with one decimal.
  pub elapsed_between : World → World → ℕ
  pub uptime : World → String
