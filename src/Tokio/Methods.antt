-- ===== src/Tokio/Methods.antt =====
-- What is closed under the steps of methods holds of each method of src/client/tokio.rs.
use imap_client.Prelude.{true, false, none, some, refl, ◌≡◌, inl}
use imap_client.Client.FetchOrder.{Keys}
use imap_client.Client.{ext_id_supported, ext_sasl_ir_supported}
use imap_client.Tasks.Library.{TaskType, all_tasks}
use imap_client.Tokio.Api.{Environment}
use imap_client.Tokio.Calls.{Call, invoke, saves, enables_condstore, may_panic, named}
use imap_client.Tasks.Authenticate
use imap_client.Tasks.Select
use imap_client.Tokio.Needs.{Named, authenticate-Needs}
use imap_client.Tokio.Commands
use imap_client.Tokio.Messages
use imap_client.Tokio.Messages.{Items}
use imap_client.Tokio.Login
use imap_client.Tokio.Fetch
use imap_client.Tokio.Fallback
use imap_client.Tokio.SortFallback
use imap_client.Tokio.Closed.{Closed, Holds, bind-Holds, with-Holds, if-at, run-at}
use imap_client.Tokio.Parts.{
  runs, enable-Holds, condstore-Holds, _search-Holds, _sort-at, _thread-Holds, _copy-Holds,
  _move-at, _silent_store-Holds, expunge-Holds, _move_or_fallback-Holds, refresh-Holds, save-Holds,
  authenticate-at, _fetch-Holds, _sort_or_fallback-Holds, append-Holds, appenduid-Holds,
  select-Holds, check-Holds, noop-Holds, appenduid_or_fallback-Holds,
}

module _ {E : Environment} {S F P : Type 0} {X : Named → Type 0} (K : Keys E.T)
    (closed : Closed E S F P X) where
  open E use {T}

  -- What is closed under the steps of methods holds of each call, if the steps that only some calls
  -- make are given for those.
  pub invoke-Holds :
      {A : Type 0} (call : Call E A)
      → (saves call ≡ true → S)
      → (enables_condstore call ≡ true → F)
      → (may_panic call ≡ true → P)
      → ((n : Named) → named call ≡ some n → X n)
      → Holds closed (invoke E K call)
  unfolding invoke all_tasks Commands.create Commands.list Commands.examine Commands.delete
      Commands.search Commands.uid_search Commands.sort Commands.uid_sort Commands.thread
      Commands.uid_thread Commands.check Commands.noop Messages._store Messages.store
      Messages.uid_store Messages.silent_store Messages.uid_silent_store Messages._fetch_first
      Messages.fetch_first Messages.uid_fetch_first Messages.copy Messages.uid_copy Messages.move
      Messages.uid_move Login.login Login.authenticate_plain Login.authenticate_xoauth2
      Login.authenticate_oauthbearer Login.id Select.read_only Select.with_condstore
      Authenticate.plain Authenticate.xoauth2 Authenticate.oauthbearer Fetch.fetch
      Fetch.fetch_with_modifiers Fetch.uid_fetch Fetch.uid_fetch_with_modifiers
      Fallback.move_or_fallback Fallback.uid_move_or_fallback SortFallback.sort_or_fallback
      SortFallback.uid_sort_or_fallback
  invoke-Holds (Call.enable a) s f p x = enable-Holds K closed a
  invoke-Holds Call.enable_condstore_if_supported s f p x = condstore-Holds K closed (f refl)
  invoke-Holds (Call.create a) s f p x =
      with-Holds closed a _ (λ mbox. runs K closed TaskType.create _ (λ c. tt))
  invoke-Holds (Call.list a b) s f p x =
      with-Holds closed a _
        (λ mbox. with-Holds closed b _ (λ wcard. runs K closed TaskType.list _ (λ c. tt)))
  invoke-Holds (Call.select a) s f p x = select-Holds K closed a
  invoke-Holds (Call.examine a) s f p x =
      with-Holds closed a _ (λ mbox c. run-at closed c TaskType.select _ refl)
  invoke-Holds Call.expunge s f p x = expunge-Holds K closed
  invoke-Holds (Call.delete a) s f p x =
      with-Holds closed a _ (λ mbox. runs K closed TaskType.delete _ (λ c. tt))
  invoke-Holds (Call.search a) s f p x = _search-Holds K closed a false
  invoke-Holds (Call.uid_search a) s f p x = _search-Holds K closed a true
  invoke-Holds (Call.sort a b) s f p x =
      λ c. _sort-at K closed a b false c (inl (x Named.sort refl))
  invoke-Holds (Call.uid_sort a b) s f p x =
      λ c. _sort-at K closed a b true c (inl (x Named.sort refl))
  invoke-Holds (Call.thread a b) s f p x = _thread-Holds K closed (x Named.thread refl) a b false
  invoke-Holds (Call.uid_thread a b) s f p x = _thread-Holds K closed (x Named.thread refl) a b true
  invoke-Holds (Call.store a b k) s f p x = runs K closed TaskType.store _ (λ c. tt)
  invoke-Holds (Call.uid_store a b k) s f p x = runs K closed TaskType.store _ (λ c. tt)
  invoke-Holds (Call.silent_store a b k) s f p x = _silent_store-Holds K closed a b k false
  invoke-Holds (Call.uid_silent_store a b k) s f p x = _silent_store-Holds K closed a b k true
  invoke-Holds Call.post_append_noop s f p x = noop-Holds K closed
  invoke-Holds Call.post_append_check s f p x = check-Holds K closed
  invoke-Holds (Call.fetch_first a b) s f p x = runs K closed TaskType.fetch_first _ (λ c. tt)
  invoke-Holds (Call.uid_fetch_first a b) s f p x = runs K closed TaskType.fetch_first _ (λ c. tt)
  invoke-Holds (Call.copy a b) s f p x = _copy-Holds K closed a b false
  invoke-Holds (Call.uid_copy a b) s f p x = _copy-Holds K closed a b true
  invoke-Holds (Call.move a b) s f p x =
      λ c. _move-at K closed a b false c (inl (x Named.move refl))
  invoke-Holds (Call.uid_move a b) s f p x =
      λ c. _move-at K closed a b true c (inl (x Named.move refl))
  invoke-Holds Call.check s f p x = runs K closed TaskType.check _ (λ c. tt)
  invoke-Holds Call.noop s f p x = runs K closed TaskType.no_op _ (λ c. tt)
  invoke-Holds Call.refresh_capabilities s f p x = refresh-Holds K closed (s refl)
  invoke-Holds (Call.login a b) s f p x = with-Holds closed a _ (λ username.
      with-Holds closed b _ (λ password.
        bind-Holds closed _ _ (runs K closed TaskType.login _ (λ c. tt))
          (save-Holds K closed (s refl))))
  invoke-Holds (Call.authenticate_plain a b) s f p x = λ c.
      authenticate-at K closed (s refl) (Authenticate.plain a b (ext_sasl_ir_supported c.state)) c (
        authenticate-Needs E X c.state (Authenticate.plain a b (ext_sasl_ir_supported c.state)) _
          refl refl)
  invoke-Holds (Call.authenticate_xoauth2 a b) s f p x = λ c.
      authenticate-at K closed (s refl) (Authenticate.xoauth2 a b (ext_sasl_ir_supported c.state)) c
        (authenticate-Needs E X c.state (Authenticate.xoauth2 a b (ext_sasl_ir_supported c.state)) _
          refl refl)
  invoke-Holds (Call.authenticate_oauthbearer a b h d) s f p x = λ c.
      authenticate-at K closed (s refl)
        (Authenticate.oauthbearer a b h d (ext_sasl_ir_supported c.state)) c
        (authenticate-Needs E X c.state
          (Authenticate.oauthbearer a b h d (ext_sasl_ir_supported c.state)) _ refl refl)
  invoke-Holds (Call.id a) s f p x = λ c.
      if-at closed (ext_id_supported c.state) _ _ c (λ e. run-at closed c TaskType.id _ e)
        (λ _. closed.same c _)
  invoke-Holds (Call.append a b m) s f p x = append-Holds K closed a b m
  invoke-Holds (Call.appenduid a b m) s f p x = appenduid-Holds K closed a b m
  invoke-Holds (Call.appenduid_or_fallback a b m) s f p x =
      appenduid_or_fallback-Holds K closed (p refl) a b m
  invoke-Holds (Call.fetch a b) s f p x = _fetch-Holds K closed a b false none
  invoke-Holds (Call.fetch_with_modifiers a b m) s f p x = _fetch-Holds K closed a b false (some m)
  invoke-Holds (Call.uid_fetch a b) s f p x = _fetch-Holds K closed a b true none
  invoke-Holds (Call.uid_fetch_with_modifiers a b m) s f p x =
      _fetch-Holds K closed a b true (some m)
  invoke-Holds (Call.move_or_fallback a b) s f p x = _move_or_fallback-Holds K closed a b false
  invoke-Holds (Call.uid_move_or_fallback a b) s f p x = _move_or_fallback-Holds K closed a b true
  invoke-Holds (Call.sort_or_fallback a b k) s f p x = _sort_or_fallback-Holds K closed a b k false
  invoke-Holds (Call.uid_sort_or_fallback a b k) s f p x =
      _sort_or_fallback-Holds K closed a b k true
