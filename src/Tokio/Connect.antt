-- ===== src/Tokio/Connect.antt =====
-- The constructors of the client in src/client/tokio.rs.
use imap_client.Prelude.{
  ℕ, String, Bool, true, false, Option, none, some, List, [], ◌∷◌, Result, ok, err, not,
  if◌then◌else◌,
}
use imap_client.Prelude.Bytes.{bytes}
use imap_client.Client.{with_resolver}
use imap_client.Client.Verifier.{FingerprintVerifier}
use imap_client.Client.Verifier
use imap_client.Tokio.Api.{
  Environment, TokioClient, ClientError, Method, pure, ◌>>=◌, client_already_tls_error,
  do_starttls_prefix_error, connect_to_tcp_stream_error, connect_to_tls_stream_error, tls_config,
  empty_cert, invalid_cert,
}
use imap_client.Tokio.Login.{receive_greeting, refresh_capabilities}

pub data MaybeTlsStream (Tcp Tls : Type 0) : Type 0 where
  plain : Tcp → MaybeTlsStream Tcp Tls
  rustls : Tls → MaybeTlsStream Tcp Tls

-- The fields of `imap_next::client::Options` that the client sets.
pub record ClientOptions (Rest : Type 0) : Type 0 where
  pub crlf_relaxed : Bool
  pub discard_greeting : Bool
  pub rest : Rest

-- What the constructors call: sockets, files, and the crates rustls and rip-starttls.
pub record Network (E : Environment) : Type 1 where
  pub Tcp : Type 0
  pub Tls : Type 0
  pub Config : Type 0
  pub ServerName : Type 0
  pub Rest : Type 0
  -- `TcpStream::connect`, `do_starttls_prefix` and `fs::read`
  pub tcp_connect : String → ℕ → Result Tcp E.IoError
  pub do_starttls_prefix : Tcp → Result Tcp E.IoError
  pub read_file : E.PathBuf → Result (List ℕ) E.IoError
  -- `CertificateDer::pem_slice_iter(..).next()`, and the digest of the verifier
  pub first_certificate : List ℕ → Option (Result (List ℕ) E.PemError)
  pub sha256_digest : List ℕ → List ℕ
  -- `ClientConfig`: by a verifier, by that of the platform, and with protocols
  pub custom_verifier : FingerprintVerifier → Config
  pub platform_verifier : Result Config E.TlsError
  pub with_alpn_protocols : Config → List (List ℕ) → Config
  -- `ServerName::try_from`, and `TlsConnector::connect`
  pub server_name : String → Option ServerName
  pub tls_connect : Config → ServerName → Tcp → Result Tls E.IoError
  -- `Stream::new` and `Stream::into_inner`
  pub stream_new : MaybeTlsStream Tcp Tls → E.Stream
  pub into_inner : E.Stream → MaybeTlsStream Tcp Tls
  -- `ClientOptions::default`, and the resolver that `Client::new` makes
  pub default_options : ClientOptions Rest
  pub resolver_new : ClientOptions Rest → E.Resolver

module _ {E : Environment} where
  -- What comes after a fallible call that does not run on a client.
  abbrev pub and_then :
      {A B : Type 0}
      → Result A (ClientError E)
      → (A → Option (Result B (ClientError E)))
      → Option (Result B (ClientError E))
  and_then (ok a) f = f a
  and_then (err e) f = some (err e)

  abbrev pub map_err : {A F : Type 0} → (F → ClientError E) → Result A F → Result A (ClientError E)
  map_err f (ok a) = ok a
  map_err f (err e) = err (f e)

  -- A constructor runs methods on the client that it returns, and drops it where they fail.
  abbrev pub constructed :
      Option (Result (Unit {0}) (ClientError E) × TokioClient E)
      → Option (Result (TokioClient E) (ClientError E))
  constructed none = none
  constructed (some (ok _, c)) = some (ok c)
  constructed (some (err e, c)) = some (err e)

module _ (E : Environment) (W : Network E) where
  abbrev pub Constructor : Type 0
  Constructor = Option (Result (TokioClient E) (ClientError E))

  abbrev pub options : Bool → ClientOptions W.Rest
  options discard_greeting = record W.default_options {
    crlf_relaxed = true;
    discard_greeting = discard_greeting;
  }

  -- The client on a socket.
  abbrev pub on_tcp :
      String → Bool → Result W.Tcp E.IoError → Result (TokioClient E) (ClientError E)
  on_tcp host discard_greeting (ok tcp_stream) = ok (record {
    host = host;
    stream = W.stream_new (plain tcp_stream);
    state = with_resolver (W.resolver_new (options discard_greeting));
  })
  on_tcp host discard_greeting (err e) = err (connect_to_tcp_stream_error e)

  unfoldable pub tcp :
      String → ℕ → (discard_greeting : Bool) → Result (TokioClient E) (ClientError E)
  tcp host port discard_greeting = on_tcp host discard_greeting (W.tcp_connect host port)

  -- `if !self.receive_greeting().await? { self.refresh_capabilities().await?; }`
  abbrev pub greet : Method E (Unit {0})
  greet = do found ← receive_greeting E; if not found then refresh_capabilities E else pure tt

  abbrev pub insecure : String → ℕ → Constructor
  insecure host port = and_then (tcp host port false) (λ client. constructed (greet client))

  -- `let MaybeTlsStream::Plain(..) = .. else`
  abbrev pub plain_stream : MaybeTlsStream W.Tcp W.Tls → Result W.Tcp (ClientError E)
  plain_stream (plain tcp_stream) = ok tcp_stream
  plain_stream (rustls tls_stream) = err client_already_tls_error

  abbrev pub starttls_prefix : Bool → W.Tcp → Result W.Tcp (ClientError E)
  starttls_prefix true tcp_stream =
      map_err do_starttls_prefix_error (W.do_starttls_prefix tcp_stream)
  starttls_prefix false tcp_stream = ok tcp_stream

  -- The certificate in a PEM file.
  abbrev pub certificate :
      E.PathBuf → Option (Result (List ℕ) E.PemError) → Result (List ℕ) (ClientError E)
  certificate pem_path none = err (empty_cert pem_path)
  certificate pem_path (some (ok cert)) = ok cert
  certificate pem_path (some (err e)) = err (invalid_cert e pem_path)

  abbrev pub pinned : Result (List ℕ) (ClientError E) → Result W.Config (ClientError E)
  pinned (ok cert) = ok (W.custom_verifier (Verifier.new W.sha256_digest cert))
  pinned (err e) = err e

  abbrev pub read_certificate :
      E.PathBuf → Result (List ℕ) E.IoError → Result W.Config (ClientError E)
  read_certificate pem_path (ok pem) = pinned (certificate pem_path (W.first_certificate pem))
  read_certificate pem_path (err e) = err (do_starttls_prefix_error e)

  -- `config`, before its protocols are set. The `?` on `fs::read` is the conversion of an
  -- `io::Error` into `DoStarttlsPrefixError`.
  unfoldable pub config : Option E.PathBuf → Result W.Config (ClientError E)
  config none = map_err tls_config W.platform_verifier
  config (some pem_path) = read_certificate pem_path (W.read_file pem_path)

  -- The end of `upgrade_rustls`, on the client with its new stream.
  unfoldable pub after_upgrade : Bool → Method E (Unit {0})
  after_upgrade starttls = if starttls then refresh_capabilities E else greet

  -- The TLS connection; `none` where `ServerName::try_from(..).unwrap()` panics.
  abbrev pub tls_stream :
      W.Config → W.Tcp → Option W.ServerName → Option (Result W.Tls (ClientError E))
  tls_stream config tcp_stream none = none
  tls_stream config tcp_stream (some dnsname) = some (
      map_err connect_to_tls_stream_error
        (W.tls_connect (W.with_alpn_protocols config (bytes "imap" ∷ [])) dnsname tcp_stream))

  abbrev pub on_tls : Bool → TokioClient E → Option (Result W.Tls (ClientError E)) → Constructor
  on_tls starttls self none = none
  on_tls starttls self (some connected) = and_then connected (λ tls.
      constructed (after_upgrade starttls (record self { stream = W.stream_new (rustls tls) })))

  unfoldable pub upgrade_rustls : TokioClient E → (starttls : Bool) → Option E.PathBuf → Constructor
  upgrade_rustls self starttls cert =
      and_then (plain_stream (W.into_inner self.stream)) (λ tcp_stream.
        and_then (starttls_prefix starttls tcp_stream) (λ tcp_stream.
          and_then (config cert) (λ config.
            on_tls starttls self (tls_stream config tcp_stream (W.server_name self.host)))))

  unfoldable pub rustls_client : String → ℕ → (starttls : Bool) → Option E.PathBuf → Constructor
  rustls_client host port starttls cert =
      and_then (tcp host port starttls) (λ tcp. upgrade_rustls tcp starttls cert)
