-- ===== src/Stream/Rounds.antt =====
-- What a turn of the loop of `Stream::next` in src/stream.rs does, over any socket.
use imap_client.Prelude.{
  ℕ, true, false, Option, none, some, List, [], ◌∷◌, ◌≡◌, refl, Result, ok, err, inl, inr,
  Bool-cases, arith,
}
use imap_client.Imap.{Interrupt, Io, io, error, output, need_more_input}
use imap_client.Stream.{
  State, Socket, closed, io_error, state_error, Failure, Turn, goes_on, returns, flush_output,
  write_output, handle_io, received, read_input, handle_state, turn,
}

module _ (F : State) (K : Socket) where
  -- The socket after what an interrupt of the state asks for was done without an error: its output
  -- was written and flushed, or it has none.
  pub data Serves (k : K.S) : Io → K.S → Type 0 where
    wrote :
        {bytes : List ℕ} {k₁ k₂ : K.S}
        → K.write_all k bytes ≡ (none, k₁)
        → K.flush k₁ ≡ (none, k₂)
        → Serves k (output bytes) k₂
    waited : Serves k need_more_input k

  -- A turn of the loop: the state asks for input or output, which is done, and gets a chunk that is
  -- not empty.
  pub data Round (k : K.S) (s : F.Self) : K.S → F.Self → Type 0 where
    round :
        {i : Io} {k₁ k₂ : K.S} {s₁ : F.Self} {b : ℕ} {chunk : List ℕ}
        → F.next s ≡ (err (io i), s₁)
        → Serves k i k₁
        → K.read k₁ ≡ (ok (b ∷ chunk), k₂)
        → Round k s k₂ (F.enqueue_input s₁ (b ∷ chunk))

  -- What ends the loop, and with which result: an event or an error of the state; an error of the
  -- socket when it writes, flushes or reads; or the end of the stream, where a write of no bytes or
  -- a read of none is its end.
  pub data Ends (k : K.S) (s : F.Self) : Result F.Event (Failure F K) → K.S → F.Self → Type 0 where
    event : {e : F.Event} {s₁ : F.Self} → F.next s ≡ (ok e, s₁) → Ends k s (ok e) k s₁
    failed :
        {e : F.Error} {s₁ : F.Self}
        → F.next s ≡ (err (error e), s₁)
        → Ends k s (err (state_error e)) k s₁
    no_room :
        {bytes : List ℕ} {s₁ : F.Self} {e : K.IoError} {k₁ : K.S}
        → F.next s ≡ (err (io (output bytes)), s₁)
        → K.write_all k bytes ≡ (some e, k₁)
        → K.is_write_zero e ≡ true
        → Ends k s (err closed) k₁ s₁
    unwritten :
        {bytes : List ℕ} {s₁ : F.Self} {e : K.IoError} {k₁ : K.S}
        → F.next s ≡ (err (io (output bytes)), s₁)
        → K.write_all k bytes ≡ (some e, k₁)
        → K.is_write_zero e ≡ false
        → Ends k s (err (io_error e)) k₁ s₁
    unflushed :
        {bytes : List ℕ} {s₁ : F.Self} {e : K.IoError} {k₁ k₂ : K.S}
        → F.next s ≡ (err (io (output bytes)), s₁)
        → K.write_all k bytes ≡ (none, k₁)
        → K.flush k₁ ≡ (some e, k₂)
        → Ends k s (err (io_error e)) k₂ s₁
    over :
        {i : Io} {s₁ : F.Self} {k₁ k₂ : K.S}
        → F.next s ≡ (err (io i), s₁)
        → Serves k i k₁
        → K.read k₁ ≡ (ok [], k₂)
        → Ends k s (err closed) k₂ s₁
    unread :
        {i : Io} {s₁ : F.Self} {e : K.IoError} {k₁ k₂ : K.S}
        → F.next s ≡ (err (io i), s₁)
        → Serves k i k₁
        → K.read k₁ ≡ (err e, k₂)
        → Ends k s (err (io_error e)) k₂ s₁

  -- A turn by what it does.
  abbrev pub Does : K.S → F.Self → Turn F K → Type 0
  Does k s (goes_on k' s') = Round k s k' s'
  Does k s (returns r k' s') = Ends k s r k' s'

  -- What is left of a turn once the socket has served.
  read-Does :
      (k k₁ : K.S) (s s₁ : F.Self) (i : Io) (r : Result (List ℕ) K.IoError × K.S)
      → F.next s ≡ (err (io i), s₁)
      → Serves k i k₁
      → K.read k₁ ≡ r
      → Does k s (received F K r.1 s₁ r.0)
  read-Does k k₁ s s₁ i (ok [], k₂) n w h = Ends.over n w h
  read-Does k k₁ s s₁ i (ok (b ∷ chunk), k₂) n w h = Round.round n w h
  read-Does k k₁ s s₁ i (err e, k₂) n w h = Ends.unread n w h

  module _ {k k₁ : K.S} {bytes : List ℕ} (s : F.Self) where
    write_done :
        {k₂ : K.S}
        → K.write_all k bytes ≡ (none, k₁)
        → K.flush k₁ ≡ (none, k₂)
        → write_output F K k s bytes ≡ goes_on k₂ s
    unfolding write_output flush_output
    write_done h g = ground (arith, h, g)

    write_unflushed :
        {k₂ : K.S} {e : K.IoError}
        → K.write_all k bytes ≡ (none, k₁)
        → K.flush k₁ ≡ (some e, k₂)
        → write_output F K k s bytes ≡ returns (err (io_error e)) k₂ s
    unfolding write_output flush_output
    write_unflushed h g = ground (arith, h, g)

    write_closed :
        {e : K.IoError}
        → K.write_all k bytes ≡ (some e, k₁)
        → K.is_write_zero e ≡ true
        → write_output F K k s bytes ≡ returns (err closed) k₁ s
    unfolding write_output
    write_closed h z = ground (arith, h, z)

    write_failed :
        {e : K.IoError}
        → K.write_all k bytes ≡ (some e, k₁)
        → K.is_write_zero e ≡ false
        → write_output F K k s bytes ≡ returns (err (io_error e)) k₁ s
    unfolding write_output
    write_failed h z = ground (arith, h, z)

  written-Does :
      (k : K.S) (s s₁ : F.Self) (bytes : List ℕ) (w f : Option K.IoError × K.S)
      → F.next s ≡ (err (io (output bytes)), s₁)
      → K.write_all k bytes ≡ w
      → K.flush w.1 ≡ f
      → Does k s (read_input F K (write_output F K k s₁ bytes))
  unfolding read_input
  written-Does k s s₁ bytes (none, k₁) (none, k₂) n h g =
      rw (write_done s₁ h g) (read-Does k k₂ s s₁ _ (K.read k₂) n (Serves.wrote h g) refl)
  written-Does k s s₁ bytes (none, k₁) (some e, k₂) n h g =
      rw (write_unflushed s₁ h g) (Ends.unflushed n h g)
  written-Does k s s₁ bytes (some e, k₁) f n h g = elim (Bool-cases (K.is_write_zero e)) [
    | inl z ↦ rw (write_closed s₁ h z) (Ends.no_room n h z)
    | inr z ↦ rw (write_failed s₁ h z) (Ends.unwritten n h z)
  ]

  handle-Does :
      (k : K.S) (s s₁ : F.Self) (r : Result F.Event (Interrupt F.Error))
      → F.next s ≡ (r, s₁)
      → Does k s (handle_state F K k s₁ r)
  unfolding handle_state handle_io read_input
  handle-Does k s s₁ (ok e) n = Ends.event n
  handle-Does k s s₁ (err (error e)) n = Ends.failed n
  handle-Does k s s₁ (err (io (output bytes))) n =
      written-Does k s s₁ bytes (K.write_all k bytes) (K.flush (K.write_all k bytes).1) n refl refl
  handle-Does k s s₁ (err (io need_more_input)) n =
      read-Does k k s s₁ need_more_input (K.read k) n Serves.waited refl

  pub turn-Does : (k : K.S) (s : F.Self) → Does k s (turn F K k s)
  unfolding turn
  turn-Does k s = handle-Does k s (F.next s).1 (F.next s).0 refl

  -- The same the other way round.
  serves :
      (k k₁ : K.S) (s₁ : F.Self) (i : Io) → Serves k i k₁ → handle_io F K k s₁ i ≡ goes_on k₁ s₁
  unfolding handle_io
  serves k k₁ s₁ (output bytes) (Serves.wrote h g) = write_done s₁ h g
  serves k k₁ s₁ need_more_input Serves.waited = refl

  pub Round→turn : {k k' : K.S} {s s' : F.Self} → Round k s k' s' → turn F K k s ≡ goes_on k' s'
  unfolding turn handle_state read_input
  Round→turn {k} {s = s} (Round.round {i} {k₁} {k₂} {s₁} n w h) =
      rw n (rw (serves k k₁ s₁ i w, h) refl)

  pub Ends→turn :
      {k k' : K.S} {s s' : F.Self} {r : Result F.Event (Failure F K)}
      → Ends k s r k' s'
      → turn F K k s ≡ returns r k' s'
  unfolding turn handle_state handle_io read_input
  Ends→turn (Ends.event n) = rw n refl
  Ends→turn (Ends.failed n) = rw n refl
  Ends→turn (Ends.no_room {s₁ = s₁} n h z) = rw n (rw (write_closed s₁ h z) refl)
  Ends→turn (Ends.unwritten {s₁ = s₁} n h z) = rw n (rw (write_failed s₁ h z) refl)
  Ends→turn (Ends.unflushed {s₁ = s₁} n h g) = rw n (rw (write_unflushed s₁ h g) refl)
  Ends→turn {k} (Ends.over {i} {s₁} {k₁} n w h) = rw n (rw (serves k k₁ s₁ i w, h) refl)
  Ends→turn {k} (Ends.unread {i} {s₁} {k₁ = k₁} n w h) = rw n (rw (serves k k₁ s₁ i w, h) refl)
