-- ===== src/Updater/Handshake/Signatures.antt =====
-- What the accepting party signs, the offering party verifies.
use p2p_btc_lending.Prelude.{
  ℕ, ◌+◌, ◌≡◌, refl, ap, sym, subst, ◌∙◌, List, [], ◌∷◌, ◌++◌, length, All, ok, map_err-eq-ok,
  >>=-eq-ok, >>=-ok, ok-inj, at_index, for_each,
}
use p2p_btc_lending.Prelude.Loops.{for_each-back, for_each-follows, length-append, zero_add}
use p2p_btc_lending.Dlc.Types.{Bytes, TxIn, Transaction, PartyParams, DlcTransactions, Payout}
use p2p_btc_lending.Dlc.Checked.{amount_add}
use p2p_btc_lending.Dlc.Signing.{get_raw_sig_for_tx_input, verify_tx_input_sig}
use p2p_btc_lending.Dlc.Signing.Schemes.{IsSound, verify_tx_input_sig-get_raw_sig}
use p2p_btc_lending.Contract.Types.{Error, dlc_error, ContractInfo, AdaptorInfo, OfferedContract}
use p2p_btc_lending.Contract.Enum.Agreement.{SitsAt, SitsAt-whole, SitsAt-front, SitsAt-back}
use p2p_btc_lending.Contract.Info.{
  get_payouts, get_adaptor_info, verify_and_get_adaptor_info, of_dlc,
}
use p2p_btc_lending.Contract.Info.Agreement.{
  IsEnum, get_payouts-enum, verify_and_get_adaptor_info-get,
}
use p2p_btc_lending.Updater.{Outside}
use p2p_btc_lending.Updater.Accept.{
  Signatures, add_signatures, make_signatures, further_cets, rest_of,
}
use p2p_btc_lending.Updater.Sign.{Verified, add_verified, verify_signatures}

-- What the verifying party has collected when the other has made `s`.
abbrev pub verified_of : Signatures → Verified
verified_of s = record {
  cets = s.cets;
  adaptor_infos = s.adaptor_infos;
  adaptor_index = length s.adaptor_sigs;
}

-- The first item and the others.
pub at_index-All {ℓ κ} :
    {E : Type ℓ} {A : Type κ} (P : A → Type κ) (xs : List A) (x : A)
    → at_index {E = E} xs 0 ≡ ok x
    → All P xs
    → P x × All P (rest_of xs)
at_index-All P [] x e h = cc
at_index-All P (y ∷ xs) x e (p, h) = let same : y ≡ x = cc in (rw same at p, h)

pub at_index-cons {ℓ κ} :
    {E : Type ℓ} {A : Type κ} (xs : List A) (x : A)
    → at_index {E = E} xs 0 ≡ ok x
    → xs ≡ x ∷ rest_of xs
at_index-cons [] x e = cc
at_index-cons (y ∷ xs) x e = let same : y ≡ x = cc in rw same refl

-- A round of the loop over the conditions that returned.
pub record Added (out : Outside) (offered : OfferedContract) (params : PartyParams) (sk : Bytes)
    (value : ℕ) (script : Bytes) (cet_input : TxIn) (c : ContractInfo) (s s' : Signatures)
    : Type 0 where
  pub payouts : List Payout
  pub info : AdaptorInfo
  pub sigs : List Bytes
  pub paid : get_payouts out.bitcoin out.secp out.numericals c offered.total_collateral ≡ ok payouts
  pub made :
      get_adaptor_info out.bitcoin out.secp out.numericals c offered.total_collateral sk script
        value
        (further_cets offered params cet_input payouts)
        (length s.adaptor_sigs)
      ≡ ok (info, sigs)
  pub result : s' ≡ record {
    cets = s.cets ++ further_cets offered params cet_input payouts;
    adaptor_infos = s.adaptor_infos ++ info ∷ [];
    adaptor_sigs = s.adaptor_sigs ++ sigs;
  }

module _ (out : Outside) (offered : OfferedContract) (params : PartyParams) (sk : Bytes) (value : ℕ)
    (script : Bytes) (cet_input : TxIn) where
  pub add_signatures-Added :
      (c : ContractInfo) (s s' : Signatures)
      → add_signatures out offered params sk value script cet_input c s ≡ ok s'
      → Added out offered params sk value script cet_input c s s'
  unfolding add_signatures
  add_signatures-Added c s s' e =
      let (payouts, paid, e1) =
        >>=-eq-ok (get_payouts out.bitcoin out.secp out.numericals c offered.total_collateral) _
          e in
      let (found, made, e2) =
        >>=-eq-ok
          (get_adaptor_info out.bitcoin out.secp out.numericals c offered.total_collateral sk script
            value (further_cets offered params cet_input payouts) (length s.adaptor_sigs))
          _ e1 in
      record {
        payouts = payouts;
        info = found.0;
        sigs = found.1;
        paid = paid;
        made = made;
        result = sym (ok-inj _ refl e2);
      }

  -- The signatures of a round stand where those of the last do.
  pub add_signatures-sits :
      (all : List Bytes) (c : ContractInfo) (s s' : Signatures)
      → add_signatures out offered params sk value script cet_input c s ≡ ok s'
      → SitsAt all 0 s'.adaptor_sigs
      → SitsAt all 0 s.adaptor_sigs
  add_signatures-sits all c s s' e h =
      let a = add_signatures-Added c s s' e in
      SitsAt-front all 0 s.adaptor_sigs a.sigs
        (subst (λ (r : Signatures). SitsAt all 0 r.adaptor_sigs) a.result h)

-- A run of `make_signatures` that returned.
pub record Made (out : Outside) (offered : OfferedContract) (params : PartyParams) (sk : Bytes)
    (value : ℕ) (script : Bytes) (txs : DlcTransactions) (s : Signatures) (refund : Bytes)
    : Type 0 where
  pub cet : Transaction
  pub cet_input : TxIn
  pub first : ContractInfo
  pub info : AdaptorInfo
  pub sigs : List Bytes
  pub has_cet : at_index {E = Error} txs.cets 0 ≡ ok cet
  pub has_input : at_index {E = Error} cet.input 0 ≡ ok cet_input
  pub has_first : at_index {E = Error} offered.contract_info 0 ≡ ok first
  pub made :
      get_adaptor_info out.bitcoin out.secp out.numericals first offered.total_collateral sk script
        value txs.cets 0
      ≡ ok (info, sigs)
  pub looped :
      for_each
        (add_signatures out offered params sk value script cet_input)
        (rest_of offered.contract_info)
        (record { cets = txs.cets; adaptor_infos = info ∷ []; adaptor_sigs = sigs })
      ≡ ok s
  pub signed : of_dlc (get_raw_sig_for_tx_input out.secp txs.refund 0 script value sk) ≡ ok refund

pub make_signatures-Made :
    (out : Outside) (offered : OfferedContract) (params : PartyParams) (sk : Bytes) (value : ℕ)
    (script : Bytes) (txs : DlcTransactions) (s : Signatures) (refund : Bytes)
    → make_signatures out offered params sk value script txs ≡ ok (s, refund)
    → Made out offered params sk value script txs s refund
unfolding make_signatures
make_signatures-Made out offered params sk value script txs s refund e =
    let (cet, has_cet, e1) = >>=-eq-ok (at_index txs.cets 0) _ e in
    let (cet_input, has_input, e2) = >>=-eq-ok (at_index cet.input 0) _ e1 in
    let (c, has_first, e3) = >>=-eq-ok (at_index offered.contract_info 0) _ e2 in
    let (found, made, e4) =
      >>=-eq-ok
        (get_adaptor_info out.bitcoin out.secp out.numericals c offered.total_collateral sk script
          value txs.cets 0)
        _ e3 in
    let (s1, looped, e5) =
      >>=-eq-ok
        (for_each (add_signatures out offered params sk value script cet_input)
          (rest_of offered.contract_info)
          (record { cets = txs.cets; adaptor_infos = found.0 ∷ []; adaptor_sigs = found.1 }))
        _ e4 in
    let (refund', signed, e6) =
      >>=-eq-ok (of_dlc (get_raw_sig_for_tx_input out.secp txs.refund 0 script value sk)) _ e5 in
    subst (λ (p : Signatures × Bytes). Made out offered params sk value script txs p.0 p.1)
      (ok-inj _ refl e6)
      (record {
        cet = cet;
        cet_input = cet_input;
        first = c;
        info = found.0;
        sigs = found.1;
        has_cet = has_cet;
        has_input = has_input;
        has_first = has_first;
        made = made;
        looped = looped;
        signed = signed;
      })

module _ (out : Outside) (sound : IsSound out.secp) (offered : OfferedContract)
    (params : PartyParams) (sk : Bytes) (key : params.fund_pubkey ≡ out.secp.public_key sk)
    (value : ℕ) (script : Bytes) where
  add_verified-follows :
      (cet_input : TxIn) (total : ℕ) (all : List Bytes) (c : ContractInfo) (s s' : Signatures)
      (v : Verified)
      → IsEnum c
      → v ≡ verified_of s
      → SitsAt all 0 s'.adaptor_sigs
      → add_signatures out offered params sk value script cet_input c s ≡ ok s'
      → (v' : Verified) × (add_verified out offered params all value script cet_input total c v
          ≡ ok v')
        × (v' ≡ verified_of s')
  unfolding add_verified
  add_verified-follows cet_input total all c s s' v is_enum ev h e =
      let a = add_signatures-Added out offered params sk value script cet_input c s s' e in
      let sits =
        SitsAt-back all s.adaptor_sigs a.sigs
          (subst (λ (r : Signatures). SitsAt all 0 r.adaptor_sigs) a.result h) in
      let paid =
        get_payouts-enum out.bitcoin out.secp out.numericals c is_enum total
          offered.total_collateral
        ∙ a.paid in
      let checked =
        verify_and_get_adaptor_info-get out.bitcoin out.secp out.numericals c is_enum sound
          offered.total_collateral offered.total_collateral sk script value
          (further_cets offered params cet_input a.payouts) (length s.adaptor_sigs) a.info a.sigs
          all (length s.adaptor_sigs) a.made sits in
      (
        record {
          cets = s.cets ++ further_cets offered params cet_input a.payouts;
          adaptor_infos = s.adaptor_infos ++ a.info ∷ [];
          adaptor_index = length s.adaptor_sigs + length a.sigs;
        },
        rw (ev, key) (>>=-ok _ paid (>>=-ok _ checked refl)),
        rw (a.result, length-append s.adaptor_sigs a.sigs) refl,
      )

  pub verify_signatures-Made :
      (txs : DlcTransactions) (total : ℕ) (s : Signatures) (refund_signature : Bytes)
      → All IsEnum offered.contract_info
      → of_dlc (amount_add offered.offer_params.collateral params.collateral) ≡ ok total
      → script ≡ txs.funding_script_pubkey
      → Made out offered params sk value script txs s refund_signature
      → verify_signatures out offered params refund_signature s.adaptor_sigs value script
          params.fund_pubkey txs
        ≡ ok (verified_of s)
  unfolding verify_signatures
  verify_signatures-Made txs total s refund enums added same_script m =
      let start : Signatures = record {
        cets = txs.cets;
        adaptor_infos = m.info ∷ [];
        adaptor_sigs = m.sigs;
      } in
      let (c_enum, rest_enums) =
        at_index-All IsEnum offered.contract_info m.first m.has_first enums in
      let all = s.adaptor_sigs in
      let sits_back = add_signatures-sits out offered params sk value script m.cet_input all in
      let sits =
        for_each-back (λ (r : Signatures). SitsAt all 0 r.adaptor_sigs) sits_back
          (rest_of offered.contract_info) start s m.looped (SitsAt-whole all) in
      let (v, checked, ev) =
        for_each-follows IsEnum (λ (r : Signatures) (v : Verified). v ≡ verified_of r)
          (λ (r : Signatures). SitsAt all 0 r.adaptor_sigs) sits_back
          (add_verified-follows m.cet_input total all) (rest_of offered.contract_info) start s
          (verified_of start) rest_enums refl (SitsAt-whole all) m.looped in
      let refunded =
        ap (λ pk. of_dlc (verify_tx_input_sig out.secp refund txs.refund 0 script value pk)) key
        ∙ ap of_dlc (
            verify_tx_input_sig-get_raw_sig out.secp sound txs.refund 0 script value sk refund (
              map_err-eq-ok dlc_error
                (get_raw_sig_for_tx_input out.secp txs.refund 0 script value sk) m.signed)) in
      let first_checked =
        ap
          (λ pk.
            verify_and_get_adaptor_info out.bitcoin out.secp out.numericals m.first
              offered.total_collateral pk script value txs.cets all 0)
          key
        ∙ verify_and_get_adaptor_info-get out.bitcoin out.secp out.numericals m.first c_enum sound
            offered.total_collateral offered.total_collateral sk script value txs.cets 0 m.info
            m.sigs all 0 m.made sits
        ∙ ap (λ n. ok (m.info, n)) (zero_add (length m.sigs)) in
      let all_checked =
        ap
          (λ sc.
            for_each (add_verified out offered params all value sc m.cet_input total)
              (rest_of offered.contract_info) (verified_of start))
          (sym same_script)
        ∙ checked
        ∙ ap ok ev in
      >>=-ok _ refunded (
        >>=-ok _ m.has_first (
          >>=-ok _ first_checked
            (>>=-ok _ m.has_cet (>>=-ok _ m.has_input (>>=-ok _ added all_checked)))))
