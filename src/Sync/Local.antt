-- ===== src/Sync/Local.antt =====
-- The vault of crates/misty-vault as crates/misty-sync/src/engine.rs uses it.
pub mod Credentials
use misty.Prelude.{ℕ, suc}
use misty.Crypto.Primitives.{Primitives}
use misty.Crypto.Envelope.Seal.{Draws}
use misty.Crypto.Derive.{Hkdf}
use misty.Vault.State.{Codec, Vault}
use misty.Vault.Store.{VaultStore}
use misty.Vault.Remote.{merge_remote}
use misty.Sync.Page.{VaultOps}

-- A vault, with the number of merges that have drawn from the generator.
abbrev pub Local : Type 0 → Type 0
Local S = Vault S × ℕ

module _ {S : Type 0} (store : VaultStore S) (codec : Codec) (hkdf : Hkdf) (p : Primitives)
    (draws : ℕ → ℕ → Draws) where
  -- `Vault::merge_remote`, the rows of `Vault::store().load_all()`, and `Vault::stored`.
  abbrev pub local_ops : VaultOps (Local S)
  local_ops = record {
    merge_remote = λ changes local.
        let (after, result) = merge_remote store codec hkdf p (draws local.1) changes local.0 in
        ((after, suc local.1), result);
    load_all = λ local. store.load_all local.0.store;
    stored = λ id local. store.get_row id local.0.store;
  }
