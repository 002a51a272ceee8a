-- ===== src/Examples/Streams.antt =====
-- The theorem on the stream, for a state that greets and waits for one chunk.
use imap_client.Prelude.{
  ℕ, false, Option, none, some, List, [], ◌∷◌, ◌++◌, ◌≡◌, refl, Result, ok, err, arith, ◌↔◌,
}
use imap_client.Imap.{Interrupt, io, output}
use imap_client.Stream.{
  State, Socket, next, closed, turn, handle_state, handle_io, write_output, flush_output,
  read_input,
}
use imap_client.Stream.Errors.{EndsWithin, next-EndsWithin}
use imap_client.Stream.Dialogue.{Dialogue, Works, Ends, next-Dialogue}

-- Before its first chunk of input it asks for an output; then the chunk is its event.
abbrev answer : Option (List ℕ) → Result (List ℕ) (Interrupt (Unit {0})) × Option (List ℕ)
answer none = (err (io (output (1 ∷ 2 ∷ []))), none)
answer (some chunk) = (ok chunk, some chunk)

abbrev greeter : State
greeter = record {
  Self = Option (List ℕ);
  Event = List ℕ;
  Error = Unit {0};
  enqueue_input = λ s bytes. some bytes;
  next = answer;
}

-- Two queues: what comes in and what went out.
abbrev pub take :
    List (List ℕ) × List (List ℕ) → Result (List ℕ) (Unit {0}) × (List (List ℕ) × List (List ℕ))
take ([], out) = (ok [], ([], out))
take (chunk ∷ rest, out) = (ok chunk, (rest, out))

abbrev pub queues : Socket
queues = record {
  S = List (List ℕ) × List (List ℕ);
  IoError = Unit {0};
  is_write_zero = λ e. false;
  write_all = λ k bytes. (none, (k.0, k.1 ++ bytes ∷ []));
  flush = λ k. (none, k);
  read = take;
}

pub take-cons :
    (k : List (List ℕ) × List (List ℕ)) (chunk : List ℕ) (rest : List (List ℕ))
    → k.0 ≡ chunk ∷ rest
    → ((take k).0 ≡ ok chunk) × ((take k).1.0 ≡ rest)
take-cons ([], out) chunk rest h = cc
take-cons (c ∷ cs, out) chunk rest h = ground (arith, h)

pub take-written : (k : List (List ℕ) × List (List ℕ)) → (take k).1.1 ≡ k.1
take-written ([], out) = refl
take-written (c ∷ cs, out) = refl

abbrev pub queues-Works : Works queues
queues-Works = record {
  incoming = λ k. k.0;
  written = λ k. k.1;
  write_ok = λ k bytes. refl;
  write_incoming = λ k bytes. refl;
  write_written = λ k bytes. refl;
  flush_ok = λ k. refl;
  flush_incoming = λ k. refl;
  flush_written = λ k. refl;
  read_ok = λ k chunk rest h. (take-cons k chunk rest h).0;
  read_incoming = λ k chunk rest h. (take-cons k chunk rest h).1;
  read_written = take-written;
}

greeting :
    Dialogue greeter none ((1 ∷ 2 ∷ []) ∷ []) ((7 ∷ 8 ∷ []) ∷ []) (7 ∷ 8 ∷ []) (some (7 ∷ 8 ∷ []))
greeting = Dialogue.wrote refl (Dialogue.event refl)

next-Dialogue_example :
    Ends greeter queues queues-Works 2
      ((7 ∷ 8 ∷ []) ∷ (9 ∷ []) ∷ [], [])
      none
      ((1 ∷ 2 ∷ []) ∷ [])
      ((9 ∷ []) ∷ [])
      (7 ∷ 8 ∷ [])
      (some (7 ∷ 8 ∷ []))
next-Dialogue_example =
    next-Dialogue greeter queues queues-Works 2 ((7 ∷ 8 ∷ []) ∷ (9 ∷ []) ∷ [], []) ((9 ∷ []) ∷ [])
      greeting refl (omega arith)

-- The greeting is written, and then nothing is read.
abbrev silent : List (List ℕ) × List (List ℕ)
silent = ([], [])

abbrev greeted : List (List ℕ) × List (List ℕ)
greeted = ([], (1 ∷ 2 ∷ []) ∷ [])

next-EndsWithin_example :
    (next greeter queues 1 silent none ≡ some (err closed, greeted, none))
    ↔ EndsWithin greeter queues 1 silent none (err closed) greeted none
next-EndsWithin_example = next-EndsWithin greeter queues 1 silent greeted none none (err closed)

next_closed : next greeter queues 1 silent none ≡ some (err closed, greeted, none)
unfolding next turn handle_state handle_io write_output flush_output read_input
next_closed = refl
