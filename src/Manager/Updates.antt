-- ===== src/Manager/Updates.antt =====
-- What the store holds after `update_contract` in the manager.
use p2p_btc_lending.Prelude.{
  ◌≡◌, refl, false, ◌&&◌, ◌∷◌, panic, some, none, if◌then◌else◌, bytes_eq, Result, ok, err,
}
use p2p_btc_lending.Dlc.Types.{Bytes, Transaction}
use p2p_btc_lending.Contract.Types.{Error, Contract}
use p2p_btc_lending.Contract.Ids.{get_id, get_temporary_id}
use p2p_btc_lending.Storage.{Store, get_contract, update_contract}
use p2p_btc_lending.Storage.Prefix.{FitsState}
use p2p_btc_lending.Storage.Laws.{replaces_offer, get_contract-update_contract}
use p2p_btc_lending.Manager.World.{
  Manager, World, Step, continue, ◌>>=◌, recorded, written, update, broadcast, import,
}
use p2p_btc_lending.Manager.Runs.{WhenOk}

module _ (m : Manager) (w : World m) (c : Contract) (id : Bytes) where
  -- The update fails only where the contract has no id.
  pub update-ok :
      get_id m.bitcoin c ≡ ok id
      → (s : Store m.sled) × (update_contract m.sled m.codecs m.bitcoin w.store c ≡ ok s)
        × (update m c w ≡ (record w { store = s }, ok tt))
  unfolding update_contract
  update-ok e = rw e (_, refl, refl)

  -- The contract is stored under its id.
  pub get_contract-update_any :
      (j : Bytes)
      → FitsState m.codecs c
      → get_id m.bitcoin c ≡ ok id
      → get_contract m.sled m.codecs (update m c w).0.store j ≡ (
          if bytes_eq id j
          then ok (some c)
          else if replaces_offer c && bytes_eq (get_temporary_id c) j
          then ok none
          else get_contract m.sled m.codecs w.store j)
  get_contract-update_any j fits e =
      let (s, es, eu) = update-ok e in
      rw eu (get_contract-update_contract m.sled m.codecs m.bitcoin w.store s c id j fits e es)

-- A contract that leaves its offer behind changes no other entry.
pub get_contract-update :
    (m : Manager) (w : World m) (c : Contract) (id j : Bytes)
    → replaces_offer c ≡ false
    → FitsState m.codecs c
    → get_id m.bitcoin c ≡ ok id
    → get_contract m.sled m.codecs (update m c w).0.store j
      ≡ (if bytes_eq id j then ok (some c) else get_contract m.sled m.codecs w.store j)
get_contract-update m w c id j keeps fits e =
    rw (get_contract-update_any m w c id j fits e, keeps) refl

recorded-WhenOk_end :
    {m : Manager} (P : World m → Unit {0} → Type 0) (before after : World m)
    (r : Result Error (Unit {0}))
    → P after tt
    → WhenOk P (recorded before after r)
recorded-WhenOk_end P before after (ok u) h = record { holds = λ _ _. h }
recorded-WhenOk_end P before after (err e) h = record { holds = λ _ k. absurd (cc k) }
recorded-WhenOk_end P before after panic h = record { holds = λ _ k. absurd (cc k) }

written-WhenOk_end :
    {m : Manager} (P : World m → Unit {0} → Type 0) (w : World m) (r : Result Error (Store m.sled))
    → ((s : Store m.sled) → r ≡ ok s → P (record w { store = s }) tt)
    → WhenOk P (written w r)
written-WhenOk_end P w (ok s) h = record { holds = λ _ _. h s refl }
written-WhenOk_end P w (err e) h = record { holds = λ _ k. absurd (cc k) }
written-WhenOk_end P w panic h = record { holds = λ _ k. absurd (cc k) }

-- An update at the end of a run that returns.
pub update-WhenOk_end :
    {m : Manager} {P : World m → Unit {0} → Type 0} (w : World m) (c : Contract)
    → ((s : Store m.sled)
        → update_contract m.sled m.codecs m.bitcoin w.store c ≡ ok s
        → P (record w { store = s }) tt)
    → WhenOk P (update m c w)
update-WhenOk_end {m} {P} w c h =
    written-WhenOk_end P w (update_contract m.sled m.codecs m.bitcoin w.store c) h

module _ {m : Manager} {B : Type 0} where
  abbrev Next : (World m → B → Type 0) → (Unit {0} → Step m B) → World m → Type 0
  Next P f w = WhenOk P (f tt w)

  recorded-WhenOk :
      (P : World m → B → Type 0) (before after : World m) (r : Result Error (Unit {0}))
      (f : Unit {0} → Step m B)
      → (r ≡ ok tt → Next P f after)
      → WhenOk P (continue f (recorded before after r))
  recorded-WhenOk P before after (ok u) f h = h refl
  recorded-WhenOk P before after (err e) f h = record { holds = λ b k. absurd (cc k) }
  recorded-WhenOk P before after panic f h = record { holds = λ b k. absurd (cc k) }

  written-WhenOk :
      (P : World m → B → Type 0) (w : World m) (r : Result Error (Store m.sled))
      (f : Unit {0} → Step m B)
      → ((s : Store m.sled) → r ≡ ok s → Next P f (record w { store = s }))
      → WhenOk P (continue f (written w r))
  written-WhenOk P w (ok s) f h = h s refl
  written-WhenOk P w (err e) f h = record { holds = λ b k. absurd (cc k) }
  written-WhenOk P w panic f h = record { holds = λ b k. absurd (cc k) }

  -- A run that goes on after a transaction is sent.
  pub broadcast-WhenOk :
      {P : World m → B → Type 0} (w : World m) (tx : Transaction) (f : Unit {0} → Step m B)
      → (m.send_transaction tx ≡ ok tt → WhenOk P (f tt (record w { sent = tx ∷ w.sent })))
      → WhenOk P ((broadcast m tx >>= f) w)
  unfolding ◌>>=◌
  broadcast-WhenOk {P} w tx f h = recorded-WhenOk P w _ (m.send_transaction tx) f h

  pub import-WhenOk :
      {P : World m → B → Type 0} (w : World m) (script : Bytes) (f : Unit {0} → Step m B)
      → (m.import_address script ≡ ok tt
          → WhenOk P (f tt (record w { imported = script ∷ w.imported })))
      → WhenOk P ((import m script >>= f) w)
  unfolding ◌>>=◌
  import-WhenOk {P} w script f h = recorded-WhenOk P w _ (m.import_address script) f h

  pub update-WhenOk :
      {P : World m → B → Type 0} (w : World m) (c : Contract) (f : Unit {0} → Step m B)
      → ((s : Store m.sled)
          → update_contract m.sled m.codecs m.bitcoin w.store c ≡ ok s
          → WhenOk P (f tt (record w { store = s })))
      → WhenOk P ((update m c >>= f) w)
  unfolding ◌>>=◌
  update-WhenOk {P} w c f h =
      written-WhenOk P w (update_contract m.sled m.codecs m.bitcoin w.store c) f h

pub broadcast-WhenOk_end :
    {m : Manager} {P : World m → Unit {0} → Type 0} (w : World m) (tx : Transaction)
    → P (record w { sent = tx ∷ w.sent }) tt
    → WhenOk P (broadcast m tx w)
broadcast-WhenOk_end {m} {P} w tx h = recorded-WhenOk_end P w _ (m.send_transaction tx) h
