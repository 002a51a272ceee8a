-- ===== src/Tokio/TlsStream.antt =====
-- `MaybeTlsStream` of src/client/tokio.rs as a socket: it passes each call on to the stream in it.
-- Its `poll_shutdown` is left out, since nothing in the repository calls it.
use imap_client.Prelude.{Bool, Option, List, ℕ, Result}
use imap_client.Stream.{Socket}
use imap_client.Stream.Dialogue.{Works}
use imap_client.Tokio.Connect.{MaybeTlsStream, plain, rustls}

-- `AsyncRead + AsyncWrite` with the errors of `std::io`.
pub record Transport (IoError : Type 0) : Type 1 where
  pub S : Type 0
  pub write_all : S → List ℕ → Option IoError × S
  pub flush : S → Option IoError × S
  pub read : S → Result (List ℕ) IoError × S

module _ {IoError : Type 0} (is_write_zero : IoError → Bool) where
  abbrev pub socket_of : Transport IoError → Socket
  socket_of K = record {
    S = K.S;
    IoError = IoError;
    is_write_zero = is_write_zero;
    write_all = K.write_all;
    flush = K.flush;
    read = K.read;
  }

module _ {IoError : Type 0} (P Q : Transport IoError) where
  -- What a call returns, with the stream put back.
  abbrev in_plain : {A : Type 0} → A × P.S → A × MaybeTlsStream P.S Q.S
  in_plain (a, s) = (a, plain s)

  abbrev in_rustls : {A : Type 0} → A × Q.S → A × MaybeTlsStream P.S Q.S
  in_rustls (a, s) = (a, rustls s)

  abbrev pub write_all : MaybeTlsStream P.S Q.S → List ℕ → Option IoError × MaybeTlsStream P.S Q.S
  write_all (plain s) bytes = in_plain (P.write_all s bytes)
  write_all (rustls s) bytes = in_rustls (Q.write_all s bytes)

  abbrev pub flush : MaybeTlsStream P.S Q.S → Option IoError × MaybeTlsStream P.S Q.S
  flush (plain s) = in_plain (P.flush s)
  flush (rustls s) = in_rustls (Q.flush s)

  abbrev pub read : MaybeTlsStream P.S Q.S → Result (List ℕ) IoError × MaybeTlsStream P.S Q.S
  read (plain s) = in_plain (P.read s)
  read (rustls s) = in_rustls (Q.read s)

  abbrev pub maybe_tls : Transport IoError
  maybe_tls = record {
    S = MaybeTlsStream P.S Q.S;
    write_all = write_all;
    flush = flush;
    read = read;
  }

module _ {IoError : Type 0} (is_write_zero : IoError → Bool) (P Q : Transport IoError)
    (p : Works (socket_of is_write_zero P)) (q : Works (socket_of is_write_zero Q)) where
  abbrev incoming : MaybeTlsStream P.S Q.S → List (List ℕ)
  incoming (plain s) = p.incoming s
  incoming (rustls s) = q.incoming s

  abbrev written : MaybeTlsStream P.S Q.S → List (List ℕ)
  written (plain s) = p.written s
  written (rustls s) = q.written s

  either :
      (C : MaybeTlsStream P.S Q.S → Type 0)
      → ((s : P.S) → C (plain s))
      → ((s : Q.S) → C (rustls s))
      → (k : MaybeTlsStream P.S Q.S) → C k
  either C f g (plain s) = f s
  either C f g (rustls s) = g s

  -- A stream works if the TCP and the TLS streams do.
  maybe_tls-Works : Works (socket_of is_write_zero (maybe_tls P Q))
  maybe_tls-Works = record {
    incoming = incoming;
    written = written;
    write_ok = either _ p.write_ok q.write_ok;
    write_incoming = either _ p.write_incoming q.write_incoming;
    write_written = either _ p.write_written q.write_written;
    flush_ok = either _ p.flush_ok q.flush_ok;
    flush_incoming = either _ p.flush_incoming q.flush_incoming;
    flush_written = either _ p.flush_written q.flush_written;
    read_ok = either _ p.read_ok q.read_ok;
    read_incoming = either _ p.read_incoming q.read_incoming;
    read_written = either _ p.read_written q.read_written;
  }
