-- ===== src/Client/FetchOrder.antt =====
-- The order of messages in `_sort_or_fallback` and `cmp_fetch_items` of src/client/tokio.rs, where
-- the server cannot sort. How dates compare and which bytes an `NString` has is not in this
-- repository: these are the parameters of `Keys`.
pub mod Before
use Prim.Native.Nat.{compare, eq}
use imap_client.Prelude.{
  ℕ, Option, none, some, List, [], ◌∷◌, ◌≡◌, refl, find_map, if◌then◌else◌, Bool-cases, inl, inr,
  arith,
}
use imap_client.Prelude.Compare.{
  Comparison, reverse, then_cmp, option_cmp, bytes_cmp, IsTotal, compare-IsTotal, bytes_cmp-IsTotal,
  pull-IsTotal, reverse-IsTotal, then-IsTotal, option-IsTotal,
}
use imap_client.Imap.{ImapTypes, MessageDataItem, SortKey, SortCriterion, Vec1}

pub record Keys (T : ImapTypes) : Type 0 where
  -- `Ord for DateTime`
  pub date_time_cmp : Comparison T.DateTime
  pub date_time_cmp-IsTotal : IsTotal date_time_cmp
  -- `n_string.0.as_ref().map(AsRef::as_ref)`
  pub n_string_bytes : T.NString → Option (List ℕ)

-- A comparison that tells no two elements apart.
equal-IsTotal : {A : Type 0} → IsTotal {A = A} (λ a b. eq)
equal-IsTotal = record {
  swapped = λ x y. refl;
  transitive = λ x y z h k. cc;
  congruent = λ x y z h. refl;
}

module _ {T : ImapTypes} (K : Keys T) where
  -- The closures of `cmp_fetch_items`: what they look for in an item.
  abbrev pub internal_date_of : MessageDataItem T → Option T.DateTime
  internal_date_of (MessageDataItem.internal_date date) = some date
  internal_date_of _ = none

  abbrev pub date_of : MessageDataItem T → Option (List ℕ)
  date_of (MessageDataItem.envelope envelope) = K.n_string_bytes envelope.date
  date_of _ = none

  abbrev pub size_of : MessageDataItem T → Option ℕ
  size_of (MessageDataItem.rfc822_size size) = some size
  size_of _ = none

  abbrev pub subject_of : MessageDataItem T → Option (List ℕ)
  subject_of (MessageDataItem.envelope envelope) = K.n_string_bytes envelope.subject
  subject_of _ = none

  pub cmp_fetch_items : SortKey → Comparison (Vec1 (MessageDataItem T))
  cmp_fetch_items SortKey.arrival a b =
      option_cmp K.date_time_cmp (find_map internal_date_of a) (find_map internal_date_of b)
  cmp_fetch_items SortKey.date a b = option_cmp bytes_cmp (find_map date_of a) (find_map date_of b)
  cmp_fetch_items SortKey.size a b = option_cmp compare (find_map size_of a) (find_map size_of b)
  cmp_fetch_items SortKey.subject a b =
      option_cmp bytes_cmp (find_map subject_of a) (find_map subject_of b)
  cmp_fetch_items _ a b = eq

  -- One turn of the loop: the comparison by a criterion.
  pub by_criterion : SortCriterion → Comparison (Vec1 (MessageDataItem T))
  by_criterion criterion a b =
      if criterion.reverse
      then reverse (cmp_fetch_items criterion.key a b)
      else cmp_fetch_items criterion.key a b

  -- The closure that `sort_by` is given.
  pub sort_cmp : List SortCriterion → Comparison (Vec1 (MessageDataItem T))
  sort_cmp [] a b = cmp_fetch_items SortKey.date a b
  sort_cmp (criterion ∷ sort_criteria) a b =
      then_cmp (by_criterion criterion a b) (sort_cmp sort_criteria a b)

  pub cmp_fetch_items-IsTotal : (key : SortKey) → IsTotal (cmp_fetch_items key)
  unfolding cmp_fetch_items
  cmp_fetch_items-IsTotal SortKey.arrival =
      pull-IsTotal (option-IsTotal K.date_time_cmp-IsTotal) (find_map internal_date_of)
  cmp_fetch_items-IsTotal SortKey.date =
      pull-IsTotal (option-IsTotal bytes_cmp-IsTotal) (find_map date_of)
  cmp_fetch_items-IsTotal SortKey.size =
      pull-IsTotal (option-IsTotal compare-IsTotal) (find_map size_of)
  cmp_fetch_items-IsTotal SortKey.subject =
      pull-IsTotal (option-IsTotal bytes_cmp-IsTotal) (find_map subject_of)
  cmp_fetch_items-IsTotal _ = equal-IsTotal

  by_criterion-IsTotal : (criterion : SortCriterion) → IsTotal (by_criterion criterion)
  unfolding by_criterion
  by_criterion-IsTotal criterion = elim (Bool-cases criterion.reverse) [
    | inl e ↦ rw (e, if◌then◌else◌) (reverse-IsTotal (cmp_fetch_items-IsTotal criterion.key))
    | inr e ↦ rw (e, if◌then◌else◌) (cmp_fetch_items-IsTotal criterion.key)
  ]

  -- The comparison of the sort fallback is a total order of the messages, up to messages that
  -- compare as equal, for any criteria, as `sort_by` asks for.
  pub sort_cmp-IsTotal : (sort_criteria : List SortCriterion) → IsTotal (sort_cmp sort_criteria)
  unfolding sort_cmp
  sort_cmp-IsTotal [] = cmp_fetch_items-IsTotal SortKey.date
  sort_cmp-IsTotal (criterion ∷ sort_criteria) =
      then-IsTotal (by_criterion-IsTotal criterion) (sort_cmp-IsTotal sort_criteria)

  -- The criteria by arrival, date, size and subject.
  abbrev pub effective : List SortCriterion → List SortCriterion
  effective [] = []
  effective (criterion ∷ cs) =
      let rest = effective cs in
      elim criterion.key [
        | SortKey.arrival ↦ criterion ∷ rest
        | SortKey.date ↦ criterion ∷ rest
        | SortKey.size ↦ criterion ∷ rest
        | SortKey.subject ↦ criterion ∷ rest
        | _ ↦ rest
      ]

  -- The sort fallback ignores the criteria by CC, FROM, TO, DISPLAYFROM and DISPLAYTO, reversed or
  -- not: the others alone give the same comparison of any two messages.
  pub sort_cmp-effective :
      (sort_criteria : List SortCriterion) (a b : Vec1 (MessageDataItem T))
      → sort_cmp sort_criteria a b ≡ sort_cmp (effective sort_criteria) a b
  unfolding sort_cmp by_criterion cmp_fetch_items
  sort_cmp-effective [] a b = refl
  sort_cmp-effective (criterion ∷ cs) a b = ground (arith, sort_cmp-effective cs a b)
