-- ===== src/Tokio/ByUid.antt =====
-- What a UID FETCH of src/client/tokio.rs returns.
use imap_client.Prelude.{ℕ, Option, none, some, List, [], ◌∷◌, ◌≡◌, find_map, if◌then◌else◌, ◌==◌}
use imap_client.Prelude.HashMap.{get}
use imap_client.Prelude.HashMap.Distinct.{Distinct}
use imap_client.Imap.{MessageDataItem, Vec1}
use imap_client.Tokio.Api.{Environment}
use imap_client.Tokio.Messages.{Items}
use imap_client.Tokio.Fetch.{uid_of}

module _ (E : Environment) where
  open E use {T}

  -- The items that stand under a UID: those of the last of the entries that have this UID.
  abbrev pub last_with :
      ℕ
      → List (ℕ × Vec1 (MessageDataItem T))
      → Option (Vec1 (MessageDataItem T))
      → Option (Vec1 (MessageDataItem T))
  last_with uid [] found = found
  last_with uid ((seq, items) ∷ entries) found =
      last_with uid entries (elim (find_map (uid_of E) items) [
        | none ↦ found
        | some u ↦ if u == uid then some items else found
      ])

  -- Every entry is keyed by a UID that its own items have.
  abbrev pub KeyedByUid : Items E → Type 0
  KeyedByUid m =
      (uid : ℕ) (items : Vec1 (MessageDataItem T))
      → get uid m ≡ some items
      → find_map (uid_of E) items ≡ some uid

  abbrev newest :
      ℕ
      → Vec1 (MessageDataItem T)
      → Option (Vec1 (MessageDataItem T))
      → Option ℕ
      → Option (Vec1 (MessageDataItem T))
  newest uid items found o = elim o [
    | none ↦ found
    | some u ↦ if u == uid then some items else found
  ]
