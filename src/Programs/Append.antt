-- ===== src/Programs/Append.antt =====
-- examples/append.rs
use imap_client.Prelude.{ℕ, String, Option, List, []}
use imap_client.Prelude.Bytes.{bytes}
use imap_client.Tokio.Api.{Environment}
use imap_client.Tokio.Commands.{select}
use imap_client.Tokio.Connect.{Network}
use imap_client.Tokio.Login.{append, authenticate_plain}
use imap_client.Programs.{
  Toolkit, Program, Arguments, ◌then◌, println, unwraps, arguments, on_client,
}

pub data Line : Type 0 where
  appending : Line
  data_is : Option ℕ → Line

module _ (E : Environment) (tools : Toolkit E) where
  abbrev pub body : Arguments → Program E Line (Unit {0})
  body args = unwraps (authenticate_plain E (bytes args.username) (bytes args.password)) then λ _.
      unwraps (select E (tools.mailbox_try_from "Drafts")) then λ _. println appending then λ _.
      unwraps (append E (tools.mailbox_try_from "Drafts") [] tools.message) then λ data'.
      println (data_is data')

  unfoldable pub main : Network E → List String → Option (List Line)
  main W args = on_client tools W (arguments tools args) body
