-- ===== src/Tasks/Select/Fields.antt =====
-- Which response to a selection sets which field, and that the other responses leave it.
use imap_client.Prelude.{ℕ, Option, some, none, List, ◌≡◌, refl, arith}
use imap_client.Imap.{ImapTypes, Data, StatusBody, StatusKind, Code, Flag}
use imap_client.Tasks.Select.{
  SelectDataUnvalidated, SelectTask, process_data, process_untagged, process_code,
}

module _ {T : ImapTypes} where
  -- The field that a data response sets, if it sets that field.
  abbrev pub as_flags : Data T → Option (Option (List (Flag T)))
  as_flags (Data.flags flags) = some (some flags)
  as_flags _ = none

  abbrev pub as_exists : Data T → Option (Option ℕ)
  as_exists (Data.exists count) = some (some count)
  as_exists _ = none

  abbrev pub as_recent : Data T → Option (Option ℕ)
  as_recent (Data.recent count) = some (some count)
  as_recent _ = none

  -- The field that a code sets.
  abbrev pub code_unseen : Option (Code T) → Option (Option ℕ)
  code_unseen (some (Code.unseen seq)) = some (some seq)
  code_unseen _ = none

  abbrev pub code_permanent_flags : Option (Code T) → Option (Option (List T.FlagPerm))
  code_permanent_flags (some (Code.permanent_flags flags)) = some (some flags)
  code_permanent_flags _ = none

  abbrev pub code_uid_next : Option (Code T) → Option (Option ℕ)
  code_uid_next (some (Code.uid_next uid)) = some (some uid)
  code_uid_next _ = none

  abbrev pub code_uid_validity : Option (Code T) → Option (Option ℕ)
  code_uid_validity (some (Code.uid_validity uid)) = some (some uid)
  code_uid_validity _ = none

  abbrev pub code_highest_modseq : Option (Code T) → Option (Option ℕ)
  code_highest_modseq (some (Code.highest_mod_seq modseq)) = some (some modseq)
  code_highest_modseq _ = none

  -- An untagged status counts if its kind is OK.
  abbrev pub if_ok : {A : Type 0} → (Option (Code T) → Option A) → StatusBody T → Option A
  if_ok f body = elim body.kind [ StatusKind.ok ↦ f body.code | _ ↦ none ]

  pub flags_step :
      (t : SelectTask T) (d : Data T)
      → (process_data t d).1.output.flags ≡ elim (as_flags d) [ none ↦ t.output.flags | some x ↦ x ]
  unfolding process_data
  flags_step t (Data.flags flags) = refl
  flags_step t _ = refl

  pub exists_step :
      (t : SelectTask T) (d : Data T)
      → (process_data t d).1.output.exists
        ≡ elim (as_exists d) [ none ↦ t.output.exists | some x ↦ x ]
  unfolding process_data
  exists_step t (Data.exists count) = refl
  exists_step t _ = refl

  pub recent_step :
      (t : SelectTask T) (d : Data T)
      → (process_data t d).1.output.recent
        ≡ elim (as_recent d) [ none ↦ t.output.recent | some x ↦ x ]
  unfolding process_data
  recent_step t (Data.recent count) = refl
  recent_step t _ = refl

  -- A field that a status code sets, whatever the field.
  module _ {Y : Type 0} (get : SelectDataUnvalidated T → Y) (f : Option (Code T) → Option Y)
      (on_code : (t : SelectTask T) (b : StatusBody T) (c : Option (Code T))
        → get (process_code t b c).1.output ≡ elim (f c) [ none ↦ get t.output | some y ↦ y ]) where
    pub untagged_step :
        (t : SelectTask T) (b : StatusBody T)
        → get (process_untagged t b).1.output
          ≡ elim (if_ok f b) [ none ↦ get t.output | some y ↦ y ]
    unfolding process_untagged
    untagged_step t b = ground (arith, on_code t b b.code)

  pub unseen_code :
      (t : SelectTask T) (b : StatusBody T) (c : Option (Code T))
      → (process_code t b c).1.output.unseen
        ≡ elim (code_unseen c) [ none ↦ t.output.unseen | some y ↦ y ]
  unfolding process_code
  unseen_code t b (some (Code.unseen x)) = refl
  unseen_code t b _ = refl

  pub permanent_flags_code :
      (t : SelectTask T) (b : StatusBody T) (c : Option (Code T))
      → (process_code t b c).1.output.permanent_flags
        ≡ elim (code_permanent_flags c) [ none ↦ t.output.permanent_flags | some y ↦ y ]
  unfolding process_code
  permanent_flags_code t b (some (Code.permanent_flags x)) = refl
  permanent_flags_code t b _ = refl

  pub uid_next_code :
      (t : SelectTask T) (b : StatusBody T) (c : Option (Code T))
      → (process_code t b c).1.output.uid_next
        ≡ elim (code_uid_next c) [ none ↦ t.output.uid_next | some y ↦ y ]
  unfolding process_code
  uid_next_code t b (some (Code.uid_next x)) = refl
  uid_next_code t b _ = refl

  pub uid_validity_code :
      (t : SelectTask T) (b : StatusBody T) (c : Option (Code T))
      → (process_code t b c).1.output.uid_validity
        ≡ elim (code_uid_validity c) [ none ↦ t.output.uid_validity | some y ↦ y ]
  unfolding process_code
  uid_validity_code t b (some (Code.uid_validity x)) = refl
  uid_validity_code t b _ = refl

  pub highest_modseq_code :
      (t : SelectTask T) (b : StatusBody T) (c : Option (Code T))
      → (process_code t b c).1.output.highest_modseq
        ≡ elim (code_highest_modseq c) [ none ↦ t.output.highest_modseq | some y ↦ y ]
  unfolding process_code
  highest_modseq_code t b (some (Code.highest_mod_seq x)) = refl
  highest_modseq_code t b _ = refl

  pub flags_other :
      (t : SelectTask T) (b : StatusBody T) → (process_untagged t b).1.output.flags ≡ t.output.flags
  unfolding process_untagged process_code
  flags_other t b = ground arith

  pub exists_other :
      (t : SelectTask T) (b : StatusBody T)
      → (process_untagged t b).1.output.exists ≡ t.output.exists
  unfolding process_untagged process_code
  exists_other t b = ground arith

  pub recent_other :
      (t : SelectTask T) (b : StatusBody T)
      → (process_untagged t b).1.output.recent ≡ t.output.recent
  unfolding process_untagged process_code
  recent_other t b = ground arith

  pub unseen_other :
      (t : SelectTask T) (d : Data T) → (process_data t d).1.output.unseen ≡ t.output.unseen
  unfolding process_data
  unseen_other t (Data.flags flags) = refl
  unseen_other t _ = refl

  pub permanent_flags_other :
      (t : SelectTask T) (d : Data T)
      → (process_data t d).1.output.permanent_flags ≡ t.output.permanent_flags
  unfolding process_data
  permanent_flags_other t (Data.flags flags) = refl
  permanent_flags_other t _ = refl

  pub uid_next_other :
      (t : SelectTask T) (d : Data T) → (process_data t d).1.output.uid_next ≡ t.output.uid_next
  unfolding process_data
  uid_next_other t (Data.flags flags) = refl
  uid_next_other t _ = refl

  pub uid_validity_other :
      (t : SelectTask T) (d : Data T)
      → (process_data t d).1.output.uid_validity ≡ t.output.uid_validity
  unfolding process_data
  uid_validity_other t (Data.flags flags) = refl
  uid_validity_other t _ = refl

  pub highest_modseq_other :
      (t : SelectTask T) (d : Data T)
      → (process_data t d).1.output.highest_modseq ≡ t.output.highest_modseq
  unfolding process_data
  highest_modseq_other t (Data.flags flags) = refl
  highest_modseq_other t _ = refl
