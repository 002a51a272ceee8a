-- ===== src/Stream.antt =====
-- src/stream.rs: a state, such as a resolving task, run over a socket. The buffer is the
-- socket's: a read returns the bytes that it brings.
pub mod Dialogue
pub mod Errors
pub mod Rounds
use imap_client.Prelude.{
  ℕ, zero, suc, Bool, true, false, Option, none, some, List, [], ◌∷◌, Result, ok, err,
  if◌then◌else◌,
}
use imap_client.Imap.{Interrupt, io, error, Io, output, need_more_input}

-- The trait `State` of imap-next.
pub record State : Type 1 where
  pub Self : Type 0
  pub Event : Type 0
  pub Error : Type 0
  pub enqueue_input : Self → List ℕ → Self
  pub next : Self → Result Event (Interrupt Error) × Self

-- `AsyncRead + AsyncWrite`, each call run to its end.
pub record Socket : Type 1 where
  pub S : Type 0
  pub IoError : Type 0
  pub is_write_zero : IoError → Bool
  -- `none` where there is no error.
  pub write_all : S → List ℕ → Option IoError × S
  pub flush : S → Option IoError × S
  pub read : S → Result (List ℕ) IoError × S

pub data Error (IoError E : Type 0) : Type 0 where
  closed : Error IoError E
  io_error : IoError → Error IoError E
  state_error : E → Error IoError E

module _ (F : State) (K : Socket) where
  abbrev pub Failure : Type 0
  Failure = Error K.IoError F.Error

  -- How a part of the body of the loop ends, with the socket: it goes on, or `next` returns.
  pub data Turn : Type 0 where
    goes_on : K.S → F.Self → Turn
    returns : Result F.Event Failure → K.S → F.Self → Turn

module _ (F : State) (K : Socket) where
  -- The output is written and flushed.
  unfoldable pub flush_output : K.S → F.Self → Turn F K
  flush_output stream state =
      let (flushed, stream') = K.flush stream in
      elim flushed [
        | none ↦ goes_on stream' state
        | some e ↦ returns (err (io_error e)) stream' state
      ]

  unfoldable pub write_output : K.S → F.Self → List ℕ → Turn F K
  write_output stream state bytes =
      let (written, stream') = K.write_all stream bytes in
      let flushed = flush_output stream' state in
      elim written [
        | none ↦ flushed
        | some e ↦
            if K.is_write_zero e
            then returns (err closed) stream' state
            else returns (err (io_error e)) stream' state
      ]

  unfoldable pub handle_io : K.S → F.Self → Io → Turn F K
  handle_io stream state (output bytes) = write_output stream state bytes
  handle_io stream state need_more_input = goes_on stream state

  -- The read at the end of the body; no bytes mean that the stream is closed.
  abbrev pub received : K.S → F.Self → Result (List ℕ) K.IoError → Turn F K
  received stream state (ok []) = returns (err closed) stream state
  received stream state (ok (b ∷ bytes)) = goes_on stream (F.enqueue_input state (b ∷ bytes))
  received stream state (err e) = returns (err (io_error e)) stream state

  unfoldable pub read_input : Turn F K → Turn F K
  read_input (goes_on stream state) =
      let (result, stream') = K.read stream in received stream' state result
  read_input (returns result stream state) = returns result stream state

  unfoldable pub handle_state : K.S → F.Self → Result F.Event (Interrupt F.Error) → Turn F K
  handle_state stream state (ok event) = returns (ok event) stream state
  handle_state stream state (err (error e)) = returns (err (state_error e)) stream state
  handle_state stream state (err (io i)) = read_input (handle_io stream state i)

  -- The body of the loop.
  unfoldable pub turn : K.S → F.Self → Turn F K
  turn stream state = let (result, state') = F.next state in handle_state stream state' result

  -- `Stream::next`, on fuel: `none` where that runs out.
  unfoldable pub next : ℕ → K.S → F.Self → Option (Result F.Event (Failure F K) × K.S × F.Self)
  next zero stream state = none
  next (suc fuel) stream state = elim (turn stream state) [
    | goes_on stream' state' ↦ next fuel stream' state'
    | returns result stream' state' ↦ some (result, stream', state')
  ]
