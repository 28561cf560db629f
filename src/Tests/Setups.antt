-- ===== src/Tests/Setups.antt =====
-- The theorems on the set-up programs: wallets with the keys 0, 1 and 2, and ids read back as text.
use bartok.Base.{◌≡◌, ◌≢◌, sym, ap, refl, none, some, Option, [], ◌∷◌, ok}
use bartok.Text.{Text, codes}
use bartok.Host.{Host}
use bartok.Settle.{accounts_of}
use bartok.Client.{setup_client, create_basic_wallet_account, create_basic_faucet_account}
use bartok.Client.Signing.{IsSignable, Same}
use bartok.Setup.{
  accounts_doc, merge_multisigs, merge_faucet, set_all, accounts_path, guardian_grpc_url,
}
use bartok.Setup.Document.{setup-accounts_of}
use bartok.Setup.Programs.{setup_accounts, setup_accounts-IsSignable}
use bartok.Text.Decimal.{parse_u64, to_string}
use bartok.Tests.Model.{Account, account, from_text, account_eq, toy}
use bartok.Tests.Chain.{Raw, host_with, seller, operator, faucet}
use bartok.Tests.Runs.{outcome_of}
use bartok.Tests.Disks.{disk_beside, put, put_beside, content}
use bartok.Tests.Sites.{Site, Place, Wallet, site, track, keep_key, held_for}
use bartok.Tests.Docs.{Doc, number, index, docs, doc_lib}

abbrev no_bytes : Text → Option Raw
no_bytes t = none

abbrev doc_host : Host
doc_host = host_with docs no_bytes

abbrev fresh : Place
fresh = ([], record { accounts = []; keys = []; draws = 0 })

unfoldable made :
    (a : Unit {0}) × (w : Place) × (setup_accounts doc_host
        (doc_lib no_bytes)
        (site docs no_bytes)
        (disk_beside Site)
        fresh
      ≡ (ok a, w))
unfolding account_eq held_for outcome_of setup_accounts setup_client create_basic_wallet_account
    create_basic_faucet_account accounts_doc set_all track keep_key put_beside put
made =
    outcome_of
      (setup_accounts doc_host (doc_lib no_bytes) (site docs no_bytes) (disk_beside Site) fresh) tt

apart :
    (id : Account) (text : Text) (v v' : Place)
    → put_beside Site accounts_path text v ≡ (ok tt, v')
    → Same doc_host (site docs no_bytes) id v v'
unfolding put_beside
apart id text v v' e =
    (ap (λ q. held_for id q.1.1.accounts) (sym e), ap (λ q. held_for id q.1.1.keys) (sym e))

setup_accounts-IsSignable_example :
    (a b c : Wallet) × (text : Text) × IsSignable doc_host (site docs no_bytes) a made.1
    × IsSignable doc_host (site docs no_bytes) b made.1
    × IsSignable doc_host (site docs no_bytes) c made.1
    × (a.0 ≢ b.0)
    × (a.0 ≢ c.0)
    × (b.0 ≢ c.0)
    × (accounts_doc doc_host (doc_lib no_bytes) a.0 b.0 c.0 ≡ ok text)
    × (content accounts_path made.1.0 ≡ ok text)
setup_accounts-IsSignable_example =
    setup_accounts-IsSignable doc_host (doc_lib no_bytes) (site docs no_bytes) (disk_beside Site)
      fresh made.1 apart made.2

setup-accounts_of_example :
    (first merged renewed : Text) × (accounts_doc doc_host
        (doc_lib no_bytes)
        (account 1)
        (account 2)
        (account 3)
      ≡ ok first)
    × (merge_multisigs doc_host
          (doc_lib no_bytes)
          ((codes "operatorMultisig", toy.to_hex operator)
            ∷ (codes "sellerMultisig", toy.to_hex seller)
            ∷ [])
          first
        ≡ ok merged)
    × (merge_faucet doc_host (doc_lib no_bytes) faucet merged ≡ ok renewed)
    × (accounts_of doc_host (some renewed)
        ≡ ok (record {
          seller = seller;
          operator_multisig = operator;
          faucet = faucet;
          guardian_grpc = guardian_grpc_url;
        }))
    × (j : Doc) × (doc_host.json_parse renewed ≡ some j)
    × (index j (codes "operatorTag") ≡ number 2)
unfolding from_text parse_u64 to_string
setup-accounts_of_example =
    setup-accounts_of doc_host (doc_lib no_bytes) (account 1) (account 2) (account 3) seller
      operator faucet refl refl refl
