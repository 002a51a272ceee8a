-- ===== src/Tokio/Idling.antt =====
-- When the loops of IDLE in src/client/tokio.rs end.
use imap_client.Prelude.{
  ℕ, zero, suc, ◌<◌, Bool, true, false, Option, none, some, List, [], ◌∷◌, ◌≡◌, refl, Result, ok,
  err, length, arith, if◌then◌else◌,
}
use imap_client.Imap.{ImapTypes, Event}
use imap_client.Task.{Registry}
use imap_client.Scheduler.ClientNext.{ClientNext}
use imap_client.Tokio.Idle.{
  Channel, Idler, Turn, continues, breaks, client_next, set_idle_done, polled, is_tagged,
  handle_idle, idle,
}

module _ {T : ImapTypes} {N : ClientNext T} (C : Channel N) where
  abbrev pub Outcome : Type 0
  Outcome = Option (Result (Event T) C.Error)

  -- The outcomes after which the client asks for the end of IDLE: no time is left, or there are
  -- data.
  abbrev pub asks_done : Outcome → Bool
  asks_done none = true
  asks_done (some (ok (Event.data_received _))) = true
  asks_done _ = false

  -- What ends `idle`, and with which result: an error of the connection, the rejection of IDLE, or
  -- the tagged status of its tag.
  abbrev pub ending : T.Tag → Outcome → Option (Result (Unit {0}) C.Error)
  ending tag (some (err e)) = some (err e)
  ending tag (some (ok (Event.idle_rejected _ _))) = some (ok tt)
  ending tag (some (ok (Event.status_received status))) =
      if is_tagged tag status then some (ok tt) else none
  ending tag _ = none

module _ {T : ImapTypes} {R : Registry T} {N : ClientNext T} {C : Channel N} where
  -- The client after an outcome that does not end `idle`.
  abbrev pub after : Outcome C → Idler R N C → Idler R N C
  after outcome c = if asks_done C outcome then set_idle_done c else c

  -- From this client on the connection yields these outcomes, which do not end `idle`, and the last
  -- client is reached.
  pub data Waits (tag : T.Tag) : Idler R N C → List (Outcome C) → Idler R N C → Type 0 where
    over : {c : Idler R N C} → Waits tag c [] c
    turn :
        {c c' : Idler R N C} {outcome : Outcome C} {outcomes : List (Outcome C)}
        {after_poll : N.Client × C.Stream}
        → C.next_within c.state.idle_timeout (client_next c) c.stream ≡ (outcome, after_poll)
        → ending C tag outcome ≡ none
        → Waits tag (after outcome (polled c after_poll)) outcomes c'
        → Waits tag c (outcome ∷ outcomes) c'

  handle-none :
      (tag : T.Tag) (c : Idler R N C) (outcome : Outcome C)
      → ending C tag outcome ≡ none
      → handle_idle tag c outcome ≡ continues (after outcome c)
  unfolding handle_idle
  handle-none tag c outcome h = ground (arith, h)

  handle-some :
      (tag : T.Tag) (c : Idler R N C) (outcome : Outcome C) (result : Result (Unit {0}) C.Error)
      → ending C tag outcome ≡ some result
      → handle_idle tag c outcome ≡ breaks result c
  unfolding handle_idle
  handle-some tag c outcome result h = ground (arith, h)

  -- The rest of `idle` after a turn.
  abbrev resume : ℕ → T.Tag → Turn R N C → Option (Result (Unit {0}) C.Error × Idler R N C)
  resume fuel tag t = elim t [ continues c ↦ idle fuel tag c | breaks result c ↦ some (result, c) ]

  -- The loop waits for fewer than `fuel` outcomes, and the next one ends it.
  pub record EndsWithin (fuel : ℕ) (tag : T.Tag) (c : Idler R N C)
      (r : Result (Unit {0}) C.Error × Idler R N C) : Type 0 where
    pub outcomes : List (Outcome C)
    pub before : Idler R N C
    pub last : Outcome C
    pub after_poll : N.Client × C.Stream
    pub waits : Waits tag c outcomes before
    pub polls :
        C.next_within before.state.idle_timeout (client_next before) before.stream
        ≡ (last, after_poll)
    pub ends : ending C tag last ≡ some r.0
    pub end : r.1 ≡ polled before after_poll
    pub within : length outcomes < fuel

  ends :
      (fuel : ℕ) (tag : T.Tag) {c c' : Idler R N C} {outcomes : List (Outcome C)} {last : Outcome C}
      {after_poll : N.Client × C.Stream} {result : Result (Unit {0}) C.Error}
      → Waits tag c outcomes c'
      → C.next_within c'.state.idle_timeout (client_next c') c'.stream ≡ (last, after_poll)
      → ending C tag last ≡ some result
      → length outcomes < fuel
      → idle fuel tag c ≡ some (result, polled c' after_poll)
  unfolding idle
  ends zero tag w p e h = absurd (omega arith)
  ends (suc fuel) tag {c} {last = last} {result = result} Waits.over p e h =
      rw (idle, p, handle-some tag (polled c _) last result e) refl
  ends (suc fuel) tag (Waits.turn {outcome = outcome} q n w) p e h =
      rw (idle, q, handle-none tag _ outcome n) (ends fuel tag w p e (omega arith))
