-- ===== src/Stream/Dialogue.antt =====
-- What `Stream::next` of src/stream.rs writes and reads.
use imap_client.Prelude.{
  ℕ, zero, suc, ◌<◌, none, some, List, [], ◌∷◌, ◌++◌, ◌≡◌, refl, sym, ap, ◌∙◌, ok, err, length,
  arith, append-nil, append_assoc,
}
use imap_client.Imap.{io, output, need_more_input}
use imap_client.Stream.{
  State, Socket, goes_on, returns, flush_output, write_output, handle_io, read_input, handle_state,
  turn, next,
}

-- What a state says and hears until it has an event: the outputs that it asks to be written, and
-- the chunks of input that it is given, one after each output or request for input.
pub data Dialogue (F : State)
    : F.Self → List (List ℕ) → List (List ℕ) → F.Event → F.Self → Type 0 where
  event : {s s' : F.Self} {e : F.Event} → F.next s ≡ (ok e, s') → Dialogue F s [] [] e s'
  wrote :
      {s s₁ s' : F.Self} {e : F.Event} {ws rs : List (List ℕ)} {bytes chunk : List ℕ} {b : ℕ}
      → F.next s ≡ (err (io (output bytes)), s₁)
      → Dialogue F (F.enqueue_input s₁ (b ∷ chunk)) ws rs e s'
      → Dialogue F s (bytes ∷ ws) ((b ∷ chunk) ∷ rs) e s'
  waited :
      {s s₁ s' : F.Self} {e : F.Event} {ws rs : List (List ℕ)} {chunk : List ℕ} {b : ℕ}
      → F.next s ≡ (err (io need_more_input), s₁)
      → Dialogue F (F.enqueue_input s₁ (b ∷ chunk)) ws rs e s'
      → Dialogue F s ws ((b ∷ chunk) ∷ rs) e s'

-- A socket that works: it has the chunks that are still to be read and those that were written,
-- writes and flushes without errors, and reads the next chunk.
pub record Works (K : Socket) : Type 0 where
  pub incoming : K.S → List (List ℕ)
  pub written : K.S → List (List ℕ)
  pub write_ok : (k : K.S) (bytes : List ℕ) → (K.write_all k bytes).0 ≡ none
  pub write_incoming : (k : K.S) (bytes : List ℕ) → incoming (K.write_all k bytes).1 ≡ incoming k
  pub write_written :
      (k : K.S) (bytes : List ℕ) → written (K.write_all k bytes).1 ≡ written k ++ bytes ∷ []
  pub flush_ok : (k : K.S) → (K.flush k).0 ≡ none
  pub flush_incoming : (k : K.S) → incoming (K.flush k).1 ≡ incoming k
  pub flush_written : (k : K.S) → written (K.flush k).1 ≡ written k
  pub read_ok :
      (k : K.S) (chunk : List ℕ) (rest : List (List ℕ))
      → incoming k ≡ chunk ∷ rest
      → (K.read k).0 ≡ ok chunk
  pub read_incoming :
      (k : K.S) (chunk : List ℕ) (rest : List (List ℕ))
      → incoming k ≡ chunk ∷ rest
      → incoming (K.read k).1 ≡ rest
  pub read_written : (k : K.S) → written (K.read k).1 ≡ written k

module _ (F : State) (K : Socket) (works : Works K) where
  open works use {incoming, written}

  -- `next` returns the event, with the state, and the socket has been written and read.
  abbrev pub Ends : ℕ → K.S → F.Self → List (List ℕ) → List (List ℕ) → F.Event → F.Self → Type 0
  Ends fuel k s ws rest e s' =
      (k' : K.S) × (next F K fuel k s ≡ some (ok e, k', s'))
      × (incoming k' ≡ rest)
      × (written k' ≡ written k ++ ws)

  next-goes_on :
      (fuel : ℕ) (k k₁ : K.S) (s s₁ : F.Self)
      → turn F K k s ≡ goes_on k₁ s₁
      → next F K (suc fuel) k s ≡ next F K fuel k₁ s₁
  unfolding next
  next-goes_on fuel k k₁ s s₁ h = rw (h, next)

  turn-event :
      (k : K.S) (s s' : F.Self) {e : F.Event}
      → F.next s ≡ (ok e, s')
      → turn F K k s ≡ returns (ok e) k s'
  unfolding turn handle_state
  turn-event k s s' h = rw h refl

  turn-waited :
      (k : K.S) (s s₁ : F.Self) (b : ℕ) (chunk : List ℕ)
      → F.next s ≡ (err (io need_more_input), s₁)
      → (K.read k).0 ≡ ok (b ∷ chunk)
      → turn F K k s ≡ goes_on (K.read k).1 (F.enqueue_input s₁ (b ∷ chunk))
  unfolding turn handle_state handle_io read_input
  turn-waited k s s₁ b chunk h r = rw h (rw r refl)

  turn-wrote :
      (k : K.S) (s s₁ : F.Self) (bytes : List ℕ) (b : ℕ) (chunk : List ℕ)
      → let k₁ = (K.flush (K.write_all k bytes).1).1 in
        F.next s ≡ (err (io (output bytes)), s₁)
        → (K.read k₁).0 ≡ ok (b ∷ chunk)
        → turn F K k s ≡ goes_on (K.read k₁).1 (F.enqueue_input s₁ (b ∷ chunk))
  unfolding turn handle_state handle_io write_output flush_output read_input
  turn-wrote k s s₁ bytes b chunk h r =
      ground (arith, h, r, works.write_ok k bytes, works.flush_ok (K.write_all k bytes).1)

  -- Over a socket that works, and whose input is the chunks of a dialogue of the state and some
  -- more, `next` returns the event of the dialogue: it has written the outputs of the state, in
  -- their order, and read the chunks of the dialogue and no more. It needs more fuel than chunks.
  pub next-Dialogue :
      (fuel : ℕ) (k : K.S) (rest : List (List ℕ)) {s s' : F.Self} {ws rs : List (List ℕ)}
      {e : F.Event}
      → Dialogue F s ws rs e s'
      → incoming k ≡ rs ++ rest
      → length rs < fuel
      → Ends fuel k s ws rest e s'
  unfolding next
  next-Dialogue zero k rest d i h = absurd (omega arith)
  next-Dialogue (suc fuel) k rest (Dialogue.event {s} {s'} n) i h =
      (k, rw (turn-event k s s' n, next) refl, i, sym (append-nil (written k)))
  next-Dialogue (suc fuel) k rest
        (Dialogue.wrote {s₁ = s₁} {ws = ws} {bytes = bytes} {chunk} {b} n d) i h =
      let k₁ = (K.flush (K.write_all k bytes).1).1 in
      let i₁ : incoming k₁ ≡ incoming k =
        works.flush_incoming (K.write_all k bytes).1 ∙ works.write_incoming k bytes in
      let (k', ends, left, done) =
        next-Dialogue fuel (K.read k₁).1 rest d (works.read_incoming k₁ _ _ (i₁ ∙ i))
          (omega arith) in
      (
        k',
        next-goes_on fuel _ _ _ _
              (turn-wrote k _ s₁ bytes b chunk n (works.read_ok k₁ _ _ (i₁ ∙ i)))
            ∙ ends,
        left,
        done
            ∙ ap (λ w. w ++ ws)
                (works.read_written k₁
                  ∙ works.flush_written (K.write_all k bytes).1
                  ∙ works.write_written k bytes)
            ∙ append_assoc (written k) (bytes ∷ []) ws,
      )
  next-Dialogue (suc fuel) k rest (Dialogue.waited {s₁ = s₁} {ws = ws} {chunk = chunk} {b} n d) i
        h =
      let (k', ends, left, done) =
        next-Dialogue fuel (K.read k).1 rest d (works.read_incoming k _ _ i) (omega arith) in
      (
        k',
        next-goes_on fuel _ _ _ _ (turn-waited k _ s₁ b chunk n (works.read_ok k _ _ i)) ∙ ends,
        left,
        done ∙ ap (λ w. w ++ ws) (works.read_written k),
      )
