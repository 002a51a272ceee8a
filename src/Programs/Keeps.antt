-- ===== src/Programs/Keeps.antt =====
-- Predicates on the lines that a program prints.
use imap_client.Prelude.{
  ℕ, zero, suc, ◌<◌, Option, none, some, List, [], ◌∷◌, ◌++◌, Result, ok, err, All, arith, Bool,
  Bool-cases, inl, inr, if◌then◌else◌,
}
use imap_client.Tokio.Api.{Environment, TokioClient, ClientError, Method}
use imap_client.Programs.{Program, ◌then◌, println, awaits, unwrap, unwraps, nonzero}

All-push :
    {L : Type 0} (P : L → Type 0) (lines : List L) (line : L)
    → All P lines
    → P line
    → All P (lines ++ line ∷ [])
All-push P [] line h p = (p, tt)
All-push P (l ∷ lines) line (q, h) p = (q, All-push P lines line h p)

module _ {E : Environment} {L : Type 0} (P : L → Type 0) where
  -- If the program comes to its end, its result and its lines satisfy the predicates.
  abbrev pub Within : {A : Type 0} → (A → Type 0) → Option (A × (TokioClient E × List L)) → Type 0
  Within Q none = Unit {0}
  Within Q (some (a, (client, lines))) = Q a × All P lines

  pub record Gives {A : Type 0} (Q : A → Type 0) (p : Program E L A) : Type 0 where
    pub run : (client : TokioClient E) (lines : List L) → All P lines → Within Q (p client lines)

  abbrev pub Keeps : {A : Type 0} → Program E L A → Type 0
  Keeps = Gives (λ _. Unit {0})

  pub println-Keeps : (line : L) → P line → Keeps (println line)
  unfolding println
  println-Keeps line p = record { run = λ client lines h. (tt, All-push P lines line h p) }

  pub then-Gives :
      {A B : Type 0} (Q : A → Type 0) {R : B → Type 0} (p : Program E L A) (f : A → Program E L B)
      → Gives Q p
      → ((a : A) → Q a → Gives R (f a))
      → Gives R (p then f)
  unfolding ◌then◌
  then-Gives {A} {B} Q {R} p f k g = record {
    run = λ client lines h. go (p client lines) (k.run client lines h);
  }
    where
      go :
          (o : Option (A × (TokioClient E × List L)))
          → Within Q o
          → Within {A = B} R
              (elim o [ none ↦ none | some (a, (client', lines')) ↦ f a client' lines' ])
      go none w = tt
      go (some (a, (client', lines'))) (q, w) = (g a q).run client' lines' w

  pub then-Keeps :
      {A B : Type 0} (p : Program E L A) (f : A → Program E L B)
      → Keeps p
      → ((a : A) → Keeps (f a))
      → Keeps (p then f)
  then-Keeps p f k g = then-Gives (λ _. Unit {0}) p f k (λ a _. g a)

  pub awaits-Keeps : {A : Type 0} (m : Method E A) → Keeps (awaits m)
  unfolding awaits
  awaits-Keeps {A} m = record { run = λ client lines h. go lines h (m client) }
    where
      go :
          (lines : List L)
          → All P lines
          → (o : Option (Result A (ClientError E) × TokioClient E))
          → Within {A = Result A (ClientError E)}
              (λ _. Unit {0})
              (elim o [ none ↦ none | some (result, client') ↦ some (result, (client', lines)) ])
      go lines h none = tt
      go lines h (some (result, client')) = (tt, h)

  pub unwrap-Keeps : {A F : Type 0} (r : Result A F) → Keeps (unwrap r)
  unfolding unwrap
  unwrap-Keeps (ok a) = record { run = λ client lines h. (tt, h) }
  unwrap-Keeps (err e) = record { run = λ client lines h. tt }

  pub unwraps-Keeps : {A : Type 0} (m : Method E A) → Keeps (unwraps m)
  unfolding unwraps
  unwraps-Keeps m = then-Keeps (awaits m) unwrap (awaits-Keeps m) unwrap-Keeps

  pub if-Keeps :
      {A : Type 0} (test : TokioClient E → Bool) (p q : Program E L A)
      → Keeps p
      → Keeps q
      → Keeps (λ client. if test client then p client else q client)
  if-Keeps test p q h k = record {
    run = λ client lines a. elim (Bool-cases (test client)) [
      | inl e ↦ rw e (h.run client lines a)
      | inr e ↦ rw e (k.run client lines a)
    ];
  }

  pub nonzero-Gives : (n : ℕ) → Gives (λ m. 0 < m) (nonzero n)
  unfolding nonzero
  nonzero-Gives zero = record { run = λ client lines h. tt }
  nonzero-Gives (suc n) = record { run = λ client lines h. (omega arith, h) }
