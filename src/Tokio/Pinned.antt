-- ===== src/Tokio/Pinned.antt =====
-- What a client of src/client/tokio.rs that was connected with a certificate has verified.
use imap_client.Prelude.{
  ℕ, String, Bool, Option, none, some, List, [], ◌∷◌, ◌≡◌, refl, Result, ok, err, ok_injective, ap,
  sym, ◌∙◌,
}
use imap_client.Prelude.Bytes.{bytes}
use imap_client.Client.Verifier
use imap_client.Tokio.Api.{Environment, TokioClient, ClientError}
use imap_client.Tokio.Connect.{
  Network, rustls, and_then, map_err, constructed, tcp, on_tcp, on_tls, read_certificate,
  plain_stream, starttls_prefix, certificate, pinned, config, tls_stream, after_upgrade,
  upgrade_rustls, rustls_client,
}

module _ {E : Environment} where
  and_then-ok :
      {A B : Type 0} (r : Result A (ClientError E)) (f : A → Option (Result B (ClientError E)))
      {b : B}
      → and_then r f ≡ some (ok b)
      → (a : A) × (r ≡ ok a) × (f a ≡ some (ok b))
  and_then-ok (ok a) f h = (a, refl, h)
  and_then-ok (err e) f h = cc

  map_err-ok :
      {A F : Type 0} (g : F → ClientError E) (r : Result A F) {a : A}
      → map_err g r ≡ ok a
      → r ≡ ok a
  map_err-ok g (ok a) h = cc
  map_err-ok g (err e) h = cc

  constructed-ok :
      (o : Option (Result (Unit {0}) (ClientError E) × TokioClient E)) {c : TokioClient E}
      → constructed o ≡ some (ok c)
      → o ≡ some (ok tt, c)
  constructed-ok none h = cc
  constructed-ok (some (ok tt, c')) h = cc
  constructed-ok (some (err e, c')) h = cc

module _ (E : Environment) (W : Network E) where
  on_tcp-host :
      (host : String) (discard_greeting : Bool) (dialed : Result W.Tcp E.IoError)
      {self : TokioClient E}
      → on_tcp E W host discard_greeting dialed ≡ ok self
      → self.host ≡ host
  on_tcp-host host discard_greeting (ok tcp_stream) h = sym (ap (λ x. x.host) (ok_injective h))
  on_tcp-host host discard_greeting (err e) h = cc

  tcp-host :
      (host : String) (port : ℕ) (discard_greeting : Bool) {self : TokioClient E}
      → tcp E W host port discard_greeting ≡ ok self
      → self.host ≡ host
  unfolding tcp
  tcp-host host port discard_greeting h =
      on_tcp-host host discard_greeting (W.tcp_connect host port) h

  -- The verifier was made of the first certificate of the file, and the TLS connection of the
  -- client was opened with it, to the name of the host.
  pub record Verified (host : String) (pem_path : E.PathBuf) (connected : TokioClient E)
      : Type 0 where
    pub pem : List ℕ
    pub cert : List ℕ
    pub dnsname : W.ServerName
    pub tcp_stream : W.Tcp
    pub tls : W.Tls
    pub reads : W.read_file pem_path ≡ ok pem
    pub parses : W.first_certificate pem ≡ some (ok cert)
    pub named : W.server_name host ≡ some dnsname
    pub connects :
        W.tls_connect
          (W.with_alpn_protocols
            (W.custom_verifier (Verifier.new W.sha256_digest cert))
            (bytes "imap" ∷ []))
          dnsname
          tcp_stream
        ≡ ok tls
    pub streams : connected.stream ≡ W.stream_new (rustls tls)

  abbrev Read : E.PathBuf → W.Config → Type 0
  Read pem_path verified =
      (pem : List ℕ) × (cert : List ℕ) × (W.read_file pem_path ≡ ok pem)
      × (W.first_certificate pem ≡ some (ok cert))
      × (verified ≡ W.custom_verifier (Verifier.new W.sha256_digest cert))

  pinned-ok :
      (pem_path : E.PathBuf) (pem : List ℕ) {verified : W.Config}
      → W.read_file pem_path ≡ ok pem
      → (found : Option (Result (List ℕ) E.PemError)) → W.first_certificate pem ≡ found
      → pinned E W (certificate E W pem_path found) ≡ ok verified
      → Read pem_path verified
  pinned-ok pem_path pem r none p h = cc
  pinned-ok pem_path pem r (some (err e)) p h = cc
  pinned-ok pem_path pem r (some (ok cert)) p h = (pem, cert, r, p, cc)

  read_certificate-ok :
      (pem_path : E.PathBuf) {verified : W.Config} (file : Result (List ℕ) E.IoError)
      → W.read_file pem_path ≡ file
      → read_certificate E W pem_path file ≡ ok verified
      → Read pem_path verified
  read_certificate-ok pem_path (ok pem) r h =
      pinned-ok pem_path pem r (W.first_certificate pem) refl h
  read_certificate-ok pem_path (err e) r h = cc

  config-ok :
      (pem_path : E.PathBuf) {verified : W.Config}
      → config E W (some pem_path) ≡ ok verified
      → Read pem_path verified
  unfolding config
  config-ok pem_path h = read_certificate-ok pem_path (W.read_file pem_path) refl h

  abbrev Opened : W.Config → String → W.Tcp → W.Tls → Type 0
  Opened verified host tcp_stream tls =
      (dnsname : W.ServerName) × (W.server_name host ≡ some dnsname)
      × (W.tls_connect (W.with_alpn_protocols verified (bytes "imap" ∷ [])) dnsname tcp_stream
          ≡ ok tls)

  opened :
      (verified : W.Config) (self : TokioClient E) (tcp_stream : W.Tcp) (starttls : Bool)
      (name : Option W.ServerName) {c : TokioClient E}
      → W.server_name self.host ≡ name
      → on_tls E W starttls self (tls_stream E W verified tcp_stream name) ≡ some (ok c)
      → (tls : W.Tls) × Opened verified self.host tcp_stream tls
        × (after_upgrade E W starttls (record self { stream = W.stream_new (rustls tls) })
            ≡ some (ok tt, c))
  opened verified self tcp_stream starttls none n h = cc
  opened verified self tcp_stream starttls (some dnsname) n h =
      let (tls, connects, rest) = and_then-ok _ _ h in
      (tls, (dnsname, n, map_err-ok _ _ connects), constructed-ok _ rest)

  -- If `rustls` returns a client for which it was given the path of a certificate, then the TLS
  -- connection was opened to the name of the host by a configuration that trusts the fingerprint of
  -- the first certificate of that file and nothing else, and the greeting or CAPABILITY, on that
  -- connection, succeeded.
  pub rustls-Verified :
      (host : String) (port : ℕ) (starttls : Bool) (pem_path : E.PathBuf) (c : TokioClient E)
      → rustls_client E W host port starttls (some pem_path) ≡ some (ok c)
      → (connected : TokioClient E) × Verified host pem_path connected
        × (after_upgrade E W starttls connected ≡ some (ok tt, c))
  unfolding rustls_client upgrade_rustls
  rustls-Verified host port starttls pem_path c h =
      let (self, dialed, h) = and_then-ok (tcp E W host port starttls) _ h in
      let (t, _, h) = and_then-ok (plain_stream E W (W.into_inner self.stream)) _ h in
      let (tcp_stream, _, h) = and_then-ok (starttls_prefix E W starttls t) _ h in
      let (verified, read, h) = and_then-ok (config E W (some pem_path)) _ h in
      let (tls, (dnsname, named, connects), after) =
        opened verified self tcp_stream starttls (W.server_name self.host) refl h in
      let (pem, cert, reads, parses, made) = config-ok pem_path read in
      (
        record self { stream = W.stream_new (rustls tls) },
        record {
          pem = pem;
          cert = cert;
          dnsname = dnsname;
          tcp_stream = tcp_stream;
          tls = tls;
          reads = reads;
          parses = parses;
          named = ap W.server_name (sym (tcp-host host port starttls dialed)) ∙ named;
          connects =
              ap
                (λ v.
                  W.tls_connect (W.with_alpn_protocols v (bytes "imap" ∷ [])) dnsname tcp_stream)
                (sym made)
              ∙ connects;
          streams = refl;
        },
        after,
      )
