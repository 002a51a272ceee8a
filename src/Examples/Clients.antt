-- ===== src/Examples/Clients.antt =====
-- The theorems on the capabilities of the server at a concrete client.
use imap_client.Prelude.{ℕ, List, some, true, [], ◌∷◌, ◌≡◌, ◌↔◌, false}
use imap_client.Imap.{AuthMechanism, Capability, SortKey, SortCriterion, MessageDataItem}
use imap_client.Client.{Client, supported_auth_mechanisms, supports_auth_mechanism, login_supported}
use imap_client.Client.Extensions.{
  Exists, Advertises, Extension, ext_supported, ext_supported-Advertises, login-or-mechanism,
}
use imap_client.Client.FetchOrder.{Keys, sort_cmp, sort_cmp-IsTotal, sort_cmp-effective}
use imap_client.Client.Verifier
use imap_client.Client.Verifier.{Accepts, Accepts-new}
use imap_client.Prelude.Compare.{IsTotal, compare-IsTotal}
use Prim.Native.Nat.{compare}
use imap_client.Resolver.{Resolver}
use imap_client.Examples.{T₀, all_tasks, scripted, plays}

abbrev connected : Client T₀ (Resolver all_tasks scripted)
connected = record {
  resolver = record {
    scheduler = record {
      client_next = plays [];
      waiting_tasks = [];
      active_tasks = [];
      tag_generator = 0;
    };
  };
  capabilities =
      Capability.imap4_rev1
      ∷ Capability.auth AuthMechanism.plain
      ∷ Capability.sort 4
      ∷ Capability.login_disabled
      ∷ [];
  idle_timeout = 0;
  condstore_enabled = false;
}

ext_supported-Advertises_example :
    (ext_supported connected Extension.sort ≡ true)
    ↔ Exists (Advertises Extension.sort) connected.capabilities
ext_supported-Advertises_example = ext_supported-Advertises connected Extension.sort

login-or-mechanism_example :
    ((m : AuthMechanism T₀)
      → (supports_auth_mechanism connected m ≡ true)
        ↔ Exists (λ x. x ≡ m) (supported_auth_mechanisms connected))
    × ((login_supported connected ≡ true)
        ↔ (¬ Exists (λ c. c ≡ Capability.login_disabled) connected.capabilities))
login-or-mechanism_example = login-or-mechanism connected

abbrev pub keys : Keys T₀
keys = record {
  date_time_cmp = compare;
  date_time_cmp-IsTotal = compare-IsTotal;
  n_string_bytes = λ n. some (n ∷ []);
}

abbrev by_size : SortCriterion
by_size = record { reverse = true; key = SortKey.size }

abbrev by_cc : SortCriterion
by_cc = record { reverse = true; key = SortKey.cc }

sort_cmp-IsTotal_example : IsTotal (sort_cmp keys (by_cc ∷ by_size ∷ []))
sort_cmp-IsTotal_example = sort_cmp-IsTotal keys (by_cc ∷ by_size ∷ [])

sort_cmp-effective_example :
    sort_cmp keys
      (by_cc ∷ by_size ∷ [])
      (MessageDataItem.rfc822_size 3 ∷ [])
      (MessageDataItem.rfc822_size 7 ∷ [])
    ≡ sort_cmp keys
        (by_size ∷ [])
        (MessageDataItem.rfc822_size 3 ∷ [])
        (MessageDataItem.rfc822_size 7 ∷ [])
sort_cmp-effective_example =
    sort_cmp-effective keys (by_cc ∷ by_size ∷ []) (MessageDataItem.rfc822_size 3 ∷ [])
      (MessageDataItem.rfc822_size 7 ∷ [])

-- A digest of one byte for the purpose of the example.
abbrev first_byte : List ℕ → List ℕ
first_byte [] = []
first_byte (b ∷ bytes) = b ∷ []

Accepts-new_example :
    Accepts first_byte {DigitallySignedStruct = ℕ}
      (Verifier.new first_byte (4 ∷ 5 ∷ []))
      (1 ∷ [])
      (4 ∷ 6 ∷ [])
      0
    ↔ (first_byte (4 ∷ 6 ∷ []) ≡ first_byte (4 ∷ 5 ∷ []))
Accepts-new_example = Accepts-new first_byte (4 ∷ 5 ∷ []) (1 ∷ []) (4 ∷ 6 ∷ []) 0
