-- ===== src/Client/Verifier.antt =====
-- src/client/verifier.rs: the verifier of a pinned certificate. SHA-256 is a parameter; the
-- certificates and the message of a handshake are bytes.
use imap_client.Prelude.{ℕ, List, [], ◌∷◌, ◌≡◌, refl, ◌↔◌, Result, ok, err, ite, ℕ_discrete, String}

pub data RustlsError : Type 0 where
  general : String → RustlsError

-- The schemes of `rustls::SignatureScheme` that the verifier names.
data SignatureScheme : Type 0 where
  rsa_pkcs1_sha256 rsa_pkcs1_sha384 rsa_pkcs1_sha512 : SignatureScheme
  ecdsa_nistp256_sha256 ecdsa_nistp384_sha384 : SignatureScheme
  rsa_pss_sha256 rsa_pss_sha384 rsa_pss_sha512 : SignatureScheme
  ed25519 : SignatureScheme

pub record FingerprintVerifier : Type 0 where
  pub expected_fingerprint : List ℕ

unfoldable bytes_discrete : Discrete (List ℕ)
bytes_discrete = hlevel (ℕ_discrete)

abbrev accepted : Result (Unit {0}) RustlsError
accepted = ok tt

ite-accepts : {P : Type 0} (e : RustlsError) (d : Dec P) → (ite d accepted (err e) ≡ accepted) ↔ P
ite-accepts e (yes p) = (λ _. p, λ _. refl)
ite-accepts e (no n) = (λ h. cc, λ p. absurd (n p))

module _ (sha256_digest : List ℕ → List ℕ) where
  abbrev pub new : List ℕ → FingerprintVerifier
  new cert_der = record { expected_fingerprint = sha256_digest cert_der }

  -- `Unit` stands for `ServerCertVerified` and for `HandshakeSignatureValid`.
  pub verify_server_cert : FingerprintVerifier → List ℕ → Result (Unit {0}) RustlsError
  verify_server_cert self end_entity =
      ite (bytes_discrete (sha256_digest end_entity) self.expected_fingerprint) (ok tt)
        (err (general "Certificate fingerprint mismatch"))

  abbrev supported_verify_schemes : FingerprintVerifier → List SignatureScheme
  supported_verify_schemes self =
      rsa_pkcs1_sha256 ∷ rsa_pkcs1_sha384 ∷ rsa_pkcs1_sha512 ∷ ecdsa_nistp256_sha256
      ∷ ecdsa_nistp384_sha384 ∷ rsa_pss_sha256 ∷ rsa_pss_sha384 ∷ rsa_pss_sha512 ∷ ed25519 ∷ []

  module _ {DigitallySignedStruct : Type 0} where
    pub verify_tls12_signature :
        FingerprintVerifier
        → (message cert : List ℕ) → DigitallySignedStruct
        → Result (Unit {0}) RustlsError
    verify_tls12_signature self message cert dss = ok tt

    pub verify_tls13_signature :
        FingerprintVerifier
        → (message cert : List ℕ) → DigitallySignedStruct
        → Result (Unit {0}) RustlsError
    verify_tls13_signature self message cert dss = ok tt

    -- A handshake is accepted if its certificate and its signature are, by either version.
    abbrev pub Accepts :
        FingerprintVerifier → (message end_entity : List ℕ) → DigitallySignedStruct → Type 0
    Accepts self message end_entity dss =
        (verify_server_cert self end_entity ≡ ok tt)
        × (verify_tls12_signature self message end_entity dss ≡ ok tt)
        × (verify_tls13_signature self message end_entity dss ≡ ok tt)

    -- The verifier of a pinned certificate accepts a handshake exactly if the digest of the
    -- certificate of the server is that of the pinned one. What the server signed does not matter.
    pub Accepts-new :
        (cert_der message end_entity : List ℕ) (dss : DigitallySignedStruct)
        → Accepts (new cert_der) message end_entity dss
          ↔ (sha256_digest end_entity ≡ sha256_digest cert_der)
    unfolding verify_server_cert verify_tls12_signature verify_tls13_signature
    Accepts-new cert_der message end_entity dss =
        let (sound, complete) =
          ite-accepts _ (bytes_discrete (sha256_digest end_entity) (sha256_digest cert_der)) in
        (λ h. sound h.0, λ e. (complete e, refl, refl))
