-- ===== src/Scheduler/Trickle.antt =====
-- `trickle_down` of src/tasks/mod.rs.
use imap_client.Prelude.{Option, none, some, List, [], ◌∷◌}

module _ {A I : Type 0} where
  abbrev keep_first : I → Option A × List I → Option A × List I
  keep_first c (trickle, consumers) = (trickle, c ∷ consumers)

  -- The consumers are mutated in place, and come back behind what is left of `trickle`. The loop
  -- breaks at the first consumer that does not hand it back.
  unfoldable pub trickle_down : A → List I → (I → A → Option A × I) → Option A × List I
  trickle_down trickle [] f = (some trickle, [])
  trickle_down trickle (consumer ∷ consumers) f =
      let (handed_back, consumer') = f consumer trickle in
      elim handed_back [
        | none ↦ (none, consumer' ∷ consumers)
        | some trickle' ↦ keep_first consumer' (trickle_down trickle' consumers f)
      ]
