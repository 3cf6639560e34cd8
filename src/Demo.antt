-- ===== src/Demo.antt =====
-- demo/src: the scripts that run the SDK. Here is what they share: the networks.
pub mod Answers
pub mod Scenarios
pub mod Batch
pub mod Fee
pub mod Refused
pub mod Tests
use zkstellar.Prelude.{Option, none, some, if◌then◌else◌, Bool, true, false}
use zkstellar.Text.{Text, codes, text_eq}

-- `NETWORKS[name]`, where it is truthy: an URL, or what the object literal inherits from Object.prototype
-- under a name in lower case.
pub data Endpoint : Type 0 where
  url : Text → Endpoint
  inherited : Endpoint

abbrev pub networks : Text → Option Endpoint
networks name =
    if text_eq name (codes "testnet")
    then some (url (codes "https://soroban-testnet.stellar.org"))
    else if text_eq name (codes "mainnet")
    then some (url (codes "https://mainnet.sorobanrpc.com"))
    else if text_eq name (codes "constructor")
    then some inherited
    else if text_eq name (codes "__proto__")
    then some inherited
    else none

abbrev pub testnet_registry_contract_id : Text
testnet_registry_contract_id = codes "CDTPNARKKZCZ36PL4BNKBXZTT2BLVR373S2K5NCFAOKCPPY62ESRHSXH"
