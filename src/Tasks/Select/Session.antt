-- ===== src/Tasks/Select/Session.antt =====
-- What a selection gathers from the responses to its command.
use mathlib.Core.Option
use imap_client.Prelude.{Option, some, none, List, ◌≡◌, ◌∙◌, ◌⊎◌, inl, inr, ok}
use imap_client.Imap.{ImapTypes, Data, StatusBody, StatusKind, Code}
use imap_client.Task.Feed.{feed, wanted, last_or, feed_field}
use imap_client.Tasks.{by_kind-ok}
use imap_client.Tasks.Select.{
  SelectDataUnvalidated, SelectTask, process_data, process_untagged, validate, process_tagged,
}
use imap_client.Tasks.Select.Fields.{
  untagged_step, as_flags, as_exists, as_recent, code_unseen, code_permanent_flags, code_uid_next,
  code_uid_validity, code_highest_modseq, if_ok, flags_step, exists_step, recent_step, unseen_code,
  permanent_flags_code, uid_next_code, uid_validity_code, highest_modseq_code, flags_other,
  exists_other, recent_other, unseen_other, permanent_flags_other, uid_next_other,
  uid_validity_other, highest_modseq_other,
}

-- A response of the session: data, or an untagged status.
abbrev pub Untagged : ImapTypes → Type 0
Untagged T = Data T ⊎ StatusBody T

module _ {T : ImapTypes} where
  pub process : SelectTask T → Untagged T → Option (Untagged T) × SelectTask T
  process t (inl d) = let (back, t') = process_data t d in (Option.map inl back, t')
  process t (inr b) = let (back, t') = process_untagged t b in (Option.map inr back, t')

  abbrev pub on_data : {Y : Type 0} → (Data T → Option Y) → Untagged T → Option Y
  on_data f (inl d) = f d
  on_data f (inr b) = none

  abbrev pub on_status : {Y : Type 0} → (Option (Code T) → Option Y) → Untagged T → Option Y
  on_status f (inl d) = none
  on_status f (inr b) = if_ok f b

  -- What a selection makes of the responses `rs`, from the data `d` before them: each field is
  -- that of the last response that sets it.
  abbrev pub selected : SelectDataUnvalidated T → List (Untagged T) → SelectDataUnvalidated T
  selected d rs = record {
    flags = last_or (wanted (on_data as_flags) rs) d.flags;
    exists = last_or (wanted (on_data as_exists) rs) d.exists;
    recent = last_or (wanted (on_data as_recent) rs) d.recent;
    unseen = last_or (wanted (on_status code_unseen) rs) d.unseen;
    permanent_flags = last_or (wanted (on_status code_permanent_flags) rs) d.permanent_flags;
    uid_next = last_or (wanted (on_status code_uid_next) rs) d.uid_next;
    uid_validity = last_or (wanted (on_status code_uid_validity) rs) d.uid_validity;
    highest_modseq = last_or (wanted (on_status code_highest_modseq) rs) d.highest_modseq;
  }

  flags_process :
      (t : SelectTask T) (r : Untagged T)
      → (process t r).1.output.flags
        ≡ elim (on_data as_flags r) [ none ↦ t.output.flags | some y ↦ y ]
  unfolding process
  flags_process t (inl d) = flags_step t d
  flags_process t (inr b) = flags_other t b

  exists_process :
      (t : SelectTask T) (r : Untagged T)
      → (process t r).1.output.exists
        ≡ elim (on_data as_exists r) [ none ↦ t.output.exists | some y ↦ y ]
  unfolding process
  exists_process t (inl d) = exists_step t d
  exists_process t (inr b) = exists_other t b

  recent_process :
      (t : SelectTask T) (r : Untagged T)
      → (process t r).1.output.recent
        ≡ elim (on_data as_recent r) [ none ↦ t.output.recent | some y ↦ y ]
  unfolding process
  recent_process t (inl d) = recent_step t d
  recent_process t (inr b) = recent_other t b

  unseen_process :
      (t : SelectTask T) (r : Untagged T)
      → (process t r).1.output.unseen
        ≡ elim (on_status code_unseen r) [ none ↦ t.output.unseen | some y ↦ y ]
  unfolding process
  unseen_process t (inl d) = unseen_other t d
  unseen_process t (inr b) = untagged_step (λ o. o.unseen) code_unseen unseen_code t b

  permanent_flags_process :
      (t : SelectTask T) (r : Untagged T)
      → (process t r).1.output.permanent_flags
        ≡ elim (on_status code_permanent_flags r) [ none ↦ t.output.permanent_flags | some y ↦ y ]
  unfolding process
  permanent_flags_process t (inl d) = permanent_flags_other t d
  permanent_flags_process t (inr b) =
      untagged_step (λ o. o.permanent_flags) code_permanent_flags permanent_flags_code t b

  uid_next_process :
      (t : SelectTask T) (r : Untagged T)
      → (process t r).1.output.uid_next
        ≡ elim (on_status code_uid_next r) [ none ↦ t.output.uid_next | some y ↦ y ]
  unfolding process
  uid_next_process t (inl d) = uid_next_other t d
  uid_next_process t (inr b) = untagged_step (λ o. o.uid_next) code_uid_next uid_next_code t b

  uid_validity_process :
      (t : SelectTask T) (r : Untagged T)
      → (process t r).1.output.uid_validity
        ≡ elim (on_status code_uid_validity r) [ none ↦ t.output.uid_validity | some y ↦ y ]
  unfolding process
  uid_validity_process t (inl d) = uid_validity_other t d
  uid_validity_process t (inr b) =
      untagged_step (λ o. o.uid_validity) code_uid_validity uid_validity_code t b

  highest_modseq_process :
      (t : SelectTask T) (r : Untagged T)
      → (process t r).1.output.highest_modseq
        ≡ elim (on_status code_highest_modseq r) [ none ↦ t.output.highest_modseq | some y ↦ y ]
  unfolding process
  highest_modseq_process t (inl d) = highest_modseq_other t d
  highest_modseq_process t (inr b) =
      untagged_step (λ o. o.highest_modseq) code_highest_modseq highest_modseq_code t b

  -- After any data and untagged statuses, in any order, a SELECT or EXAMINE task completed by OK
  -- returns the fields that these responses set, each from the last response that sets it; a
  -- field that none of them sets is as before, and missing fields are no error. A status sets
  -- fields only if its kind is OK.
  pub select_transcript :
      (t : SelectTask T) (rs : List (Untagged T)) (body : StatusBody T)
      → body.kind ≡ StatusKind.ok
      → process_tagged (feed process t rs).1 body ≡ ok (selected t.output rs)
  unfolding process_tagged validate
  select_transcript t rs body done = by_kind-ok body _ done ∙ λ i. ok (record {
    flags = feed_field process (λ t. t.output.flags) (on_data as_flags) flags_process t rs i;
    exists = feed_field process (λ t. t.output.exists) (on_data as_exists) exists_process t rs i;
    recent = feed_field process (λ t. t.output.recent) (on_data as_recent) recent_process t rs i;
    unseen =
        feed_field process (λ t. t.output.unseen) (on_status code_unseen) unseen_process t rs i;
    permanent_flags =
        feed_field process (λ t. t.output.permanent_flags) (on_status code_permanent_flags)
          permanent_flags_process t rs i;
    uid_next =
        feed_field process (λ t. t.output.uid_next) (on_status code_uid_next) uid_next_process t rs
          i;
    uid_validity =
        feed_field process (λ t. t.output.uid_validity) (on_status code_uid_validity)
          uid_validity_process t rs i;
    highest_modseq =
        feed_field process (λ t. t.output.highest_modseq) (on_status code_highest_modseq)
          highest_modseq_process t rs i;
  })
