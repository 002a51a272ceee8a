-- ===== src/Stream/Errors.antt =====
-- How `Stream::next` of src/stream.rs ends, over any socket: its events and its errors.
use imap_client.Prelude.{
  ℕ, zero, suc, ◌<◌, some, ◌≡◌, refl, Result, arith, ◌↔◌, some_injective, subst,
}
use imap_client.Stream.Rounds.{Round, Ends, Does, turn-Does, Round→turn, Ends→turn}
use imap_client.Stream.{State, Socket, Failure, Turn, goes_on, returns, turn, next}

module _ (F : State) (K : Socket) where
  -- A number of rounds.
  pub data Rounds : ℕ → K.S → F.Self → K.S → F.Self → Type 0 where
    begin : {k : K.S} {s : F.Self} → Rounds 0 k s k s
    more :
        {n : ℕ} {k k₁ k' : K.S} {s s₁ s' : F.Self}
        → Round F K k s k₁ s₁
        → Rounds n k₁ s₁ k' s'
        → Rounds (suc n) k s k' s'

  -- Fewer than `fuel` rounds, and then the end.
  pub record EndsWithin (fuel : ℕ) (k : K.S) (s : F.Self) (r : Result F.Event (Failure F K))
      (k' : K.S) (s' : F.Self) : Type 0 where
    pub count : ℕ
    pub stream : K.S
    pub state : F.Self
    pub rounds : Rounds count k s stream state
    pub ends : Ends F K stream state r k' s'
    pub within : count < fuel

  ends :
      (fuel : ℕ) {n : ℕ} {k k₁ k' : K.S} {s s₁ s' : F.Self} {r : Result F.Event (Failure F K)}
      → Rounds n k s k₁ s₁
      → Ends F K k₁ s₁ r k' s'
      → n < fuel
      → next F K fuel k s ≡ some (r, k', s')
  unfolding next
  ends zero q e h = absurd (omega arith)
  ends (suc fuel) Rounds.begin e h = rw (Ends→turn F K e, next) refl
  ends (suc fuel) (Rounds.more t q) e h = rw (Round→turn F K t, next) (ends fuel q e (omega arith))

  ended :
      (fuel : ℕ) (k : K.S) (s : F.Self) {r : Result F.Event (Failure F K)} {k' : K.S} {s' : F.Self}
      → next F K fuel k s ≡ some (r, k', s')
      → EndsWithin fuel k s r k' s'
  unfolding next
  ended zero k s h = cc
  ended (suc fuel) k s {r} {k'} {s'} h =
      go (turn F K k s) (turn-Does F K k s) h (λ k₁ s₁ e. ended fuel k₁ s₁ e)
    where
      go :
          (t : Turn F K)
          → Does F K k s t
          → (elim t [
            | goes_on k₁ s₁ ↦ next F K fuel k₁ s₁
            | returns result k₁ s₁ ↦ some (result, k₁, s₁)
          ])
            ≡ some (r, k', s')
          → ((k₁ : K.S) (s₁ : F.Self)
              → next F K fuel k₁ s₁ ≡ some (r, k', s')
              → EndsWithin fuel k₁ s₁ r k' s')
          → EndsWithin (suc fuel) k s r k' s'
      go (goes_on k₁ s₁) d h rest =
          let e = rest k₁ s₁ h in
          record {
            count = suc e.count;
            stream = e.stream;
            state = e.state;
            rounds = Rounds.more d e.rounds;
            ends = e.ends;
            within = omega (arith, e.within);
          }
      go (returns q k₁ s₁) d h rest = record {
        count = 0;
        stream = k;
        state = s;
        rounds = Rounds.begin;
        ends =
            subst (λ x. Ends F K k s x.0 x.1 x.2) {x = (q, k₁, s₁)} {y = (r, k', s')}
              (some_injective h) d;
        within = omega arith;
      }

  -- On some fuel `next` returns exactly if fewer rounds than that, in each of which the state asks
  -- for input or output, its output is written and flushed, and a chunk that is not empty is read,
  -- lead to one that ends it, and then as that says: with the event or the error of the state; with
  -- the error of the socket when it writes, flushes or reads; or with `closed` where nothing more
  -- can be written, or where nothing is read.
  pub next-EndsWithin :
      (fuel : ℕ) (k k' : K.S) (s s' : F.Self) (r : Result F.Event (Failure F K))
      → (next F K fuel k s ≡ some (r, k', s')) ↔ EndsWithin fuel k s r k' s'
  next-EndsWithin fuel k k' s s' r = (ended fuel k s, λ e. ends fuel e.rounds e.ends e.within)
