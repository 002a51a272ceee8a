-- ===== src/Examples/Channels.antt =====
-- The theorems on the constructors and on IDLE of src/client/tokio.rs, with a network and a channel
-- that work.
use imap_client.Prelude.{
  ℕ, suc, false, Option, none, some, List, [], ◌∷◌, ◌≡◌, refl, Result, ok, err,
}
use imap_client.Imap.{Event, Capability, Interrupt, Error, Status}
use imap_client.Client.{with_resolver}
use imap_client.Tasks.Library.{all_tasks}
use imap_client.Tokio.Api.{TokioClient, run, resolve}
use imap_client.Tokio.Login.{receive_greeting, refresh_capabilities}
use imap_client.Tokio.Connect.{
  Network, MaybeTlsStream, plain, rustls, rustls_client, upgrade_rustls, tcp, config, after_upgrade,
}
use imap_client.Tokio.Pinned.{Verified, rustls-Verified}
use imap_client.Tokio.Idle.{Channel, Idler}
use imap_client.Examples.{T₀, Script, plays, play, scripted, done}
use imap_client.Examples
use imap_client.Examples.Connections.{answering, client}

-- A socket is a number, and the connection keeps it: `answering` counts it up.
abbrev pub plain_of : MaybeTlsStream ℕ ℕ → ℕ
plain_of (plain n) = n
plain_of (rustls n) = n

abbrev pub working : Network answering
working = record {
  Tcp = ℕ;
  Tls = ℕ;
  Config = List ℕ;
  ServerName = ℕ;
  Rest = Unit;
  tcp_connect = λ host port. ok port;
  do_starttls_prefix = λ tcp. ok tcp;
  read_file = λ path. ok (path ∷ []);
  first_certificate = λ pem. some (ok pem);
  sha256_digest = λ bytes. bytes;
  custom_verifier = λ verifier. verifier.expected_fingerprint;
  platform_verifier = err 0;
  with_alpn_protocols = λ config protocols. config;
  server_name = λ host. some 1;
  tls_connect = λ config name tcp. ok (suc tcp);
  stream_new = plain_of;
  into_inner = plain;
  default_options = record { crlf_relaxed = false; discard_greeting = false; rest = tt };
  resolver_new = λ options. tt;
}

abbrev secured : TokioClient answering
secured = record client {
  state = record client.state { capabilities = Capability.imap4_rev1 ∷ Capability.id ∷ [] };
  stream = 995;
}

rustls-Verified_example :
    (connected : TokioClient answering) × Verified answering working "mail" 4 connected
    × (after_upgrade answering working false connected ≡ some (ok tt, secured))
unfolding rustls_client upgrade_rustls tcp config after_upgrade receive_greeting
    refresh_capabilities run resolve all_tasks
rustls-Verified_example = rustls-Verified answering working "mail" 993 false 4 secured refl

-- The script of the client, where the time is over if it asks for input.
abbrev polled_result : Result (Event T₀) (Interrupt (Error T₀)) → Option (Result (Event T₀) ℕ)
polled_result (ok event) = some (ok event)
polled_result (err e) = none

abbrev channel : Channel scripted
channel = record {
  Stream = ℕ;
  Error = ℕ;
  next = λ c n. none;
  next_within = λ timeout c n. (polled_result (play c).0, ((play c).1, suc n));
}

-- Data, which end IDLE, then the status of another tag, then that of its own.
abbrev status_of : ℕ → Result (Event T₀) (Interrupt (Error T₀))
status_of tag = ok (Event.status_received (Status.tagged (record { tag = tag; body = done })))

abbrev idler :
    List (Result (Event T₀) (Interrupt (Error T₀))) → ℕ → Idler Examples.all_tasks scripted channel
idler script n = record {
  state = with_resolver (record {
    scheduler = record {
      client_next = plays script;
      waiting_tasks = [];
      active_tasks = [];
      tag_generator = 0;
    };
  });
  stream = n;
}
