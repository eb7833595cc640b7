-- ===== src/Manager/Changes.antt =====
-- What holds of the world after calls that change it, whatever they return.
use p2p_btc_lending.Prelude.{ℕ, ◌≡◌, refl, ◌∷◌, panic, Result, ok, err}
use p2p_btc_lending.Dlc.Types.{Bytes, Transaction}
use p2p_btc_lending.Contract.Types.{Error, Contract}
use p2p_btc_lending.Storage.{Store, update_contract}
use p2p_btc_lending.Manager.World.{
  Manager, World, Step, continue, ◌>>=◌, recorded, written, update, broadcast, import, claim,
  claim_call, unwrapped, unwrap_step, modify, lend, lend_call, lift,
}
use p2p_btc_lending.Manager.Runs.{Always}

module _ {m : Manager} {B : Type 0} where
  recorded-Always :
      (Q : World m → Type 0) (before after : World m) (r : Result Error (Unit {0}))
      (f : Unit {0} → Step m B)
      → Q before
      → Always Q (f tt after)
      → Always Q (continue f (recorded before after r))
  recorded-Always Q before after (ok u) f q h = h
  recorded-Always Q before after (err e) f q h = record { after = q }
  recorded-Always Q before after panic f q h = record { after = q }

  written-Always :
      (Q : World m → Type 0) (w : World m) (r : Result Error (Store m.sled))
      (f : Unit {0} → Step m B)
      → Q w
      → ((s : Store m.sled) → r ≡ ok s → Always Q (f tt (record w { store = s })))
      → Always Q (continue f (written w r))
  written-Always Q w (ok s) f q h = h s refl
  written-Always Q w (err e) f q h = record { after = q }
  written-Always Q w panic f q h = record { after = q }

  pub broadcast-Always :
      {Q : World m → Type 0} (w : World m) (tx : Transaction) (f : Unit {0} → Step m B)
      → Q w
      → Always Q (f tt (record w { sent = tx ∷ w.sent }))
      → Always Q ((broadcast m tx >>= f) w)
  unfolding ◌>>=◌
  broadcast-Always {Q} w tx f q h = recorded-Always Q w _ (m.send_transaction tx) f q h

  pub modify-Always :
      {Q : World m → Type 0} (w : World m) (g : Store m.sled → Store m.sled)
      (f : Unit {0} → Step m B)
      → Always Q (f tt (record w { store = g w.store }))
      → Always Q ((modify g >>= f) w)
  unfolding ◌>>=◌
  modify-Always {Q} w g f h = h

  pub import-Always :
      {Q : World m → Type 0} (w : World m) (script : Bytes) (f : Unit {0} → Step m B)
      → Q w
      → Always Q (f tt (record w { imported = script ∷ w.imported }))
      → Always Q ((import m script >>= f) w)
  unfolding ◌>>=◌
  import-Always {Q} w script f q h = recorded-Always Q w _ (m.import_address script) f q h

  continue-Always_lift :
      (Q : World m → Type 0) (w : World m) (r : Result Error (Unit {0})) (f : Unit {0} → Step m B)
      → Q w
      → Always Q (f tt w)
      → Always Q (continue f (w, r))
  continue-Always_lift Q w (ok u) f q h = h
  continue-Always_lift Q w (err e) f q h = record { after = q }
  continue-Always_lift Q w panic f q h = record { after = q }

  submit-Always :
      (Q : World m → Type 0) (before after : World m) (r receipt : Result Error (Unit {0}))
      (f : Unit {0} → Step m B)
      → Q before
      → Q after
      → Always Q (f tt after)
      → Always Q (continue f (continue (λ _. lift receipt) (recorded before after r)))
  submit-Always Q before after (ok u) receipt f q q' h = continue-Always_lift Q after receipt f q' h
  submit-Always Q before after (err e) receipt f q q' h = record { after = q }
  submit-Always Q before after panic receipt f q q' h = record { after = q }

  pub claim-Always :
      {Q : World m → Type 0} (w : World m) (preimage : ℕ) (f : Unit {0} → Step m B)
      → Q w
      → Q (record w { evm_calls = claim_call preimage ∷ w.evm_calls })
      → Always Q (f tt (record w { evm_calls = claim_call preimage ∷ w.evm_calls }))
      → Always Q ((claim m preimage >>= f) w)
  unfolding ◌>>=◌
  claim-Always {Q} w preimage f q q' h =
      submit-Always Q w _ (m.claim_stable preimage) (m.get_receipt (claim_call preimage)) f q q' h

  pub update-Always :
      {Q : World m → Type 0} (w : World m) (c : Contract) (f : Unit {0} → Step m B)
      → Q w
      → ((s : Store m.sled)
          → update_contract m.sled m.codecs m.bitcoin w.store c ≡ ok s
          → Always Q (f tt (record w { store = s })))
      → Always Q ((update m c >>= f) w)
  unfolding ◌>>=◌
  update-Always {Q} w c f q h =
      written-Always Q w (update_contract m.sled m.codecs m.bitcoin w.store c) f q h

module _ {m : Manager} {A B : Type 0} where
  continue-Always_run :
      (Q : World m → Type 0) (f : A → Step m B) (p : World m × Result Error A)
      → Always Q p
      → ((a : A) (w' : World m) → p ≡ (w', ok a) → Always Q (f a w'))
      → Always Q (continue f p)
  continue-Always_run Q f (w, ok a) q h = h a w refl
  continue-Always_run Q f (w, err e) q h = record { after = q.after }
  continue-Always_run Q f (w, panic) q h = record { after = q.after }

  pub bind-Always :
      {Q : World m → Type 0} (w : World m) (s : Step m A) (f : A → Step m B)
      → Always Q (s w)
      → ((a : A) (w' : World m) → s w ≡ (w', ok a) → Always Q (f a w'))
      → Always Q ((s >>= f) w)
  unfolding ◌>>=◌
  bind-Always {Q} w s f q h = continue-Always_run Q f (s w) q h

module _ {m : Manager} {A : Type 0} where
  unwrapped-Always :
      (Q : World m → Type 0) (p : World m × Result Error A) → Always Q p → Always Q (unwrapped p)
  unwrapped-Always Q (w, ok a) q = q
  unwrapped-Always Q (w, err e) q = record { after = q.after }
  unwrapped-Always Q (w, panic) q = q

  pub unwrap_step-Always :
      {Q : World m → Type 0} (w : World m) (s : Step m A)
      → Always Q (s w)
      → Always Q (unwrap_step s w)
  unwrap_step-Always {Q} w s q = unwrapped-Always Q (s w) q

written-Always_end :
    {m : Manager} (Q : World m → Type 0) (w : World m) (r : Result Error (Store m.sled))
    → Q w
    → ((s : Store m.sled) → r ≡ ok s → Q (record w { store = s }))
    → Always Q (written w r)
written-Always_end Q w (ok s) q h = record { after = h s refl }
written-Always_end Q w (err e) q h = record { after = q }
written-Always_end Q w panic q h = record { after = q }

-- An update at the end of a run.
pub update-Always_end :
    {m : Manager} {Q : World m → Type 0} (w : World m) (c : Contract)
    → Q w
    → ((s : Store m.sled)
        → update_contract m.sled m.codecs m.bitcoin w.store c ≡ ok s
        → Q (record w { store = s }))
    → Always Q (update m c w)
update-Always_end {m} {Q} w c q h =
    written-Always_end Q w (update_contract m.sled m.codecs m.bitcoin w.store c) q h

recorded-Always_end :
    {m : Manager} (Q : World m → Type 0) (before after : World m) (r : Result Error (Unit {0}))
    → Q before
    → Q after
    → Always Q (recorded before after r)
recorded-Always_end Q before after (ok u) q h = record { after = h }
recorded-Always_end Q before after (err e) q h = record { after = q }
recorded-Always_end Q before after panic q h = record { after = q }

submit-Always_end :
    {m : Manager} (Q : World m → Type 0) (before after : World m)
    (r receipt : Result Error (Unit {0}))
    → Q before
    → Q after
    → Always Q (continue (λ _. lift receipt) (recorded before after r))
submit-Always_end Q before after (ok u) receipt q h = record { after = h }
submit-Always_end Q before after (err e) receipt q h = record { after = q }
submit-Always_end Q before after panic receipt q h = record { after = q }

pub lend-Always_end :
    {m : Manager} {Q : World m → Type 0} (w : World m) (hash : Bytes) (amount : ℕ)
    → Q w
    → Q (record w { evm_calls = lend_call hash amount ∷ w.evm_calls })
    → Always Q (lend m hash amount w)
lend-Always_end {m} {Q} w hash amount q h =
    submit-Always_end Q w _ (m.lend_stable hash amount) (m.get_receipt (lend_call hash amount)) q h

pub broadcast-Always_end :
    {m : Manager} {Q : World m → Type 0} (w : World m) (tx : Transaction)
    → Q w
    → Q (record w { sent = tx ∷ w.sent })
    → Always Q (broadcast m tx w)
broadcast-Always_end {m} {Q} w tx q h = recorded-Always_end Q w _ (m.send_transaction tx) q h
