-- ===== src/Connect/Network.antt =====
-- What src/proxy_runtime/rama/connect.rs and src/proxy_runtime/rama/tls.rs take from tokio and rama,
-- as parameters, and the responses that they write.
use baffle.Prelude.{
  ◌⊎◌, inl, inr, refl, ◌≡◌, Option, none, some, Result, ok, err, Bool, if◌then◌else◌,
}
use baffle.Prelude.Text.{Bytes, bytes}
use baffle.Prelude.Assoc.{Assoc}
use baffle.Telemetry.{Metrics}
use baffle.Authorization.{Destination, SessionPolicy}
use baffle.Io.{Reader, Writer, IoError}
use baffle.Connect.Buffered.{BufferedConnectIo}

pub data ProxyRuntimeError : Type 0 where
  bind_socket credential_seed : IoError → ProxyRuntimeError
  build run task : Bytes → ProxyRuntimeError

-- `tokio::time::timeout`.
pub data Timed (A : Type 0) : Type 0 where
  elapsed : Timed A
  within : A → Timed A

-- The three ways in which a timed call of a fallible operation ends.
pub Timed-cases :
    {A E : Type 0} (t : Timed (Result E A))
    → (t ≡ elapsed) ⊎ ((e : E) × (t ≡ within (err e))) ⊎ ((a : A) × (t ≡ within (ok a)))
Timed-cases elapsed = inl refl
Timed-cases (within (err e)) = inr (inl (e, refl))
Timed-cases (within (ok a)) = inr (inr (a, refl))

pub record RamaPolicyLayer : Type 0 where
  pub policy : SessionPolicy
  pub connect_authority : Bytes
  pub secrets : Assoc Bytes

-- What a connection takes from tokio and rama. A failure is its text.
pub record Network : Type 1 where
  pub client_in : Reader
  pub client_out : Writer
  pub upstream_in : Reader
  pub upstream_out : Writer
  pub Hello : Type 0
  pub Connector : Type 0
  pub Decrypted : Type 0
  -- Whether the timeout passes before the head of the request is there.
  pub head_elapses : Reader.State client_in → Bool
  pub connect :
      Destination → Timed (Result IoError (Reader.State upstream_in × Writer.State upstream_out))
  -- Of two failing directions of a tunnel, whether the first fails first.
  pub first_fails : Bool
  pub peek_client_hello :
      BufferedConnectIo client_in → Result Bytes (BufferedConnectIo client_in × Option Hello)
  pub ext_server_name : Hello → Option Bytes
  pub rama_domain : Bytes → Result Bytes Bytes
  -- The verified TLS configuration towards the server of a name, from a ClientHello.
  pub connector_data : Hello → Bytes → Result Bytes Connector
  pub handshake :
      BufferedConnectIo client_in
      → Reader.State upstream_in × Writer.State upstream_out
      → Connector
      → Result Bytes Decrypted
  -- The relay of decrypted requests through the policy layer, which counts in the metrics.
  pub relay_http : RamaPolicyLayer → Metrics → Decrypted → Result Bytes (Unit {0}) × Metrics

abbrev pub established : Bytes
established = bytes "HTTP/1.1 200 Connection Established\r\n\r\n"

abbrev pub bad_request : Bytes
bad_request = bytes "HTTP/1.1 400 Bad Request\r\nConnection: close\r\n\r\n"

abbrev pub forbidden : Bytes
forbidden = bytes "HTTP/1.1 403 Forbidden\r\nConnection: close\r\n\r\n"

abbrev pub request_timeout : Bytes
request_timeout = bytes "HTTP/1.1 408 Request Timeout\r\nConnection: close\r\n\r\n"

abbrev pub bad_gateway : Bytes
bad_gateway = bytes "HTTP/1.1 502 Bad Gateway\r\nConnection: close\r\n\r\n"

abbrev pub gateway_timeout : Bytes
gateway_timeout = bytes "HTTP/1.1 504 Gateway Timeout\r\nConnection: close\r\n\r\n"

-- `tokio::try_join!` of two directions: it ends with the first failure, or when both have ended.
unfoldable pub try_join :
    {E A B : Type 0} → Bool → Option (Result E A) → Option (Result E B) → Option (Result E (A × B))
try_join first (some (ok a)) (some (ok b)) = some (ok (a, b))
try_join first (some (err e)) (some (err f)) = some (err (if first then e else f))
try_join first (some (err e)) (some (ok b)) = some (err e)
try_join first (some (err e)) none = some (err e)
try_join first (some (ok a)) (some (err f)) = some (err f)
try_join first none (some (err f)) = some (err f)
try_join first none (some (ok b)) = none
try_join first (some (ok a)) none = none
try_join first none none = none
