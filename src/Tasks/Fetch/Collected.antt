-- ===== src/Tasks/Fetch/Collected.antt =====
-- What `FetchTask` of src/tasks/tasks/fetch.rs gathers from a sequence of responses.
use mathlib.Core.HLevel.{hedberg}
use mathlib.Core.Option
use imap_client.Prelude.{
  ℕ, Option, none, some, List, [], ◌∷◌, ◌++◌, ◌≡◌, refl, ap, sym, inl, inr, Option-cases, ◌∙◌, ok,
  if◌then◌else◌, ◌==◌, arith,
}
use imap_client.Prelude.HashMap.{HashMap, HashSet, Iteration, get, get-insert, extend}
use imap_client.Prelude.HashMap.Distinct.{Distinct, insert-Distinct, get-collect}
use imap_client.Imap.{
  ImapTypes, Data, StatusBody, StatusKind, MessageDataItem, MacroOrMessageDataItemNames, Vec1,
}
use imap_client.Task.Feed.{feed, unwanted, wanted, feed_back}
use imap_client.Tasks.{by_kind-ok}
use imap_client.Tasks.Fetch.{FetchTask, item_discrete, new, process_data, process_tagged, add_items}

abbrev concat : {A : Type 0} → List (List A) → List A
concat [] = []
concat (x ∷ xs) = x ++ concat xs

extend-append :
    {A : Type 0} (eq : Discrete A) (xs ys s : List A)
    → extend eq (xs ++ ys) s ≡ extend eq ys (extend eq xs s)
unfolding extend
extend-append eq [] ys s = refl
extend-append eq (x ∷ xs) ys s = extend-append eq xs ys _

module _ {T : ImapTypes} where
  -- The items of a FETCH response.
  abbrev pub as_fetch : Data T → Option (Vec1 (MessageDataItem T))
  as_fetch (Data.fetch seq items) = some items
  as_fetch _ = none

  -- The items of a FETCH response of one message.
  abbrev pub as_fetch_of : ℕ → Data T → Option (Vec1 (MessageDataItem T))
  as_fetch_of seq (Data.fetch k items) = if k == seq then some items else none
  as_fetch_of seq _ = none

  -- The set of all the items of some FETCH responses, if there is one.
  abbrev pub collected : List (Vec1 (MessageDataItem T)) → Option (HashSet (MessageDataItem T))
  collected [] = none
  collected (x ∷ xs) = some (extend item_discrete (concat (x ∷ xs)) [])

  -- The entry of a message, after some more FETCH responses of it.
  abbrev after :
      Option (HashSet (MessageDataItem T))
      → List (Vec1 (MessageDataItem T))
      → Option (HashSet (MessageDataItem T))
  after o [] = o
  after o (x ∷ xs) = after (some (add_items o x)) xs

  after-some :
      (s : HashSet (MessageDataItem T)) (xs : List (Vec1 (MessageDataItem T)))
      → after (some s) xs ≡ some (extend item_discrete (concat xs) s)
  unfolding extend
  after-some s [] = refl
  after-some s (x ∷ xs) =
      after-some (extend item_discrete x s) xs
      ∙ ap some (sym (extend-append item_discrete x (concat xs) s))

  after-none : (xs : List (Vec1 (MessageDataItem T))) → after none xs ≡ collected xs
  after-none [] = refl
  after-none (x ∷ xs) =
      after-some (extend item_discrete x []) xs
      ∙ ap some (sym (extend-append item_discrete x (concat xs) []))

  get-process_data :
      (seq : ℕ) (self : FetchTask T) (d : Data T)
      → get seq (process_data self d).1.output ≡ elim (as_fetch_of seq d) [
        | none ↦ get seq self.output
        | some items ↦ some (add_items (get seq self.output) items)
      ]
  unfolding process_data
  get-process_data seq self (Data.fetch k items) =
      ground (arith, get-insert k seq (add_items (get k self.output) items) self.output)
  get-process_data seq self _ = refl

  get-feed :
      (seq : ℕ) (self : FetchTask T) (ds : List (Data T))
      → get seq (feed process_data self ds).1.output
        ≡ after (get seq self.output) (wanted (as_fetch_of seq) ds)
  unfolding feed
  get-feed seq self [] = refl
  get-feed seq self (d ∷ ds) =
      get-feed seq (process_data self d).1 ds ∙ elim (Option-cases (as_fetch_of seq d)) [
        | inl e ↦ rw (get-process_data seq self d, e, wanted) refl
        | inr (items, e) ↦ rw (get-process_data seq self d, e, wanted) refl
      ]

  feed-Distinct :
      (ds : List (Data T)) (self : FetchTask T)
      → Distinct self.output
      → Distinct (feed process_data self ds).1.output
  unfolding feed process_data
  feed-Distinct [] self h = h
  feed-Distinct (Data.fetch k items ∷ ds) self h =
      feed-Distinct ds _ (insert-Distinct k _ self.output h)
  feed-Distinct (_ ∷ ds) self h = feed-Distinct ds self h

  back :
      (self : FetchTask T) (d : Data T)
      → (process_data self d).0 ≡ elim (as_fetch d) [ none ↦ some d | some items ↦ none ]
  unfolding process_data
  back self (Data.fetch k items) = refl
  back self _ = refl

  items_set : IsSet (Option (List (MessageDataItem T)))
  items_set = hlevel (hedberg item_discrete)

  module _ (I : Iteration) (sequence_set : T.SequenceSet)
      (names : MacroOrMessageDataItemNames T) where
    -- A FETCH task hands back all responses but the FETCH responses, in their order. At an OK
    -- completion its output has an entry for exactly the messages that had a FETCH response, and
    -- that entry is the set of all the items of all these responses, in the order of the iteration.
    pub fetch_transcript :
        (ds : List (Data T)) (body : StatusBody T)
        → body.kind ≡ StatusKind.ok
        → let fed = feed process_data (new sequence_set names) ds in
          (fed.0 ≡ unwanted as_fetch ds)
          × ((output : HashMap (Vec1 (MessageDataItem T))) × (process_tagged I fed.1 body
                ≡ ok output)
              × ((seq : ℕ)
                  → get seq output
                    ≡ Option.map
                        (I.iter (MessageDataItem T))
                        (collected (wanted (as_fetch_of seq) ds))))
    unfolding new process_tagged get
    fetch_transcript ds body done = (
      feed_back process_data as_fetch back (new sequence_set names) ds,
      (
        _,
        by_kind-ok body _ done,
        λ seq.
            get-collect (I.iter (MessageDataItem T)) items_set seq
              (I.iter-perm _ (feed process_data (new sequence_set names) ds).1.output)
              (feed-Distinct ds (new sequence_set names) tt)
            ∙ ap (Option.map (I.iter (MessageDataItem T))) (
                get-feed seq (new sequence_set names) ds
                ∙ after-none (wanted (as_fetch_of seq) ds)),
      ),
    )
