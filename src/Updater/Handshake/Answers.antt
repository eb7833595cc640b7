-- ===== src/Updater/Handshake/Answers.antt =====
-- The offering party signs in its turn, and the accepting party verifies that.
use p2p_btc_lending.Prelude.{
  ℕ, ◌+◌, ◌≤◌, ◌≡◌, refl, ap, sym, subst, ◌∙◌, List, [], ◌∷◌, ◌++◌, some, get_elem?, length, All,
  ok, >>=-eq-ok, >>=-ok, ok-inj, for_each, map, arith,
}
use mathlib.Core.List.{append_assoc, append-nil}
use p2p_btc_lending.Prelude.Loops.{
  for_each-back, for_each-follows, for_each-keeps, for_each-map, length-append, get_elem?-below,
  below-get_elem?, All-append, All-get_elem?,
}
use p2p_btc_lending.Dlc.Types.{Bytes, TxIn, Transaction, PartyParams, DlcTransactions, Payout}
use p2p_btc_lending.Dlc.Cets.{create_cets, create_cet}
use p2p_btc_lending.Dlc.Signing.{zip}
use p2p_btc_lending.Dlc.Signing.Schemes.{IsSound, IsHashing}
use p2p_btc_lending.Contract.Types.{ContractInfo, AdaptorInfo, OfferedContract, enum}
use p2p_btc_lending.Contract.Enum.Agreement.{
  SitsAt, SitsAt-whole, SitsAt-front, SitsAt-back, Covers,
}
use p2p_btc_lending.Contract.Info.{get_adaptor_signatures, verify_adaptor_info}
use p2p_btc_lending.Contract.Info.Agreement.{
  IsEnum, get_adaptor_info-enum, get_adaptor_signatures-get, verify_adaptor_info-get,
}
use p2p_btc_lending.Updater.{Outside}
use p2p_btc_lending.Updater.Accept.{Signatures, add_signatures, further_cets, rest_of}
use p2p_btc_lending.Updater.Sign.{add_own_signatures}
use p2p_btc_lending.Updater.Answer.{check_answer}
use p2p_btc_lending.Updater.Handshake.Signatures.{
  add_signatures-Added, Made, at_index-All, at_index-cons,
}

abbrev pub HasInput : Transaction → Type 0
HasInput t = (x : TxIn) × (get_elem? t.input 0 ≡ some x)

pub create_cets-HasInput :
    (i : TxIn) (offer : Bytes) (offer_id : ℕ) (accept : Bytes) (accept_id : ℕ)
    (payouts : List Payout) (lock_time : ℕ)
    → All HasInput (create_cets i offer offer_id accept accept_id payouts lock_time)
unfolding create_cets create_cet
create_cets-HasInput i offer offer_id accept accept_id [] lock_time = tt
create_cets-HasInput i offer offer_id accept accept_id (p ∷ ps) lock_time =
    ((i, refl), create_cets-HasInput i offer offer_id accept accept_id ps lock_time)

Covers-length :
    (cets whole : List Transaction)
    → length cets ≤ length whole
    → All HasInput whole
    → Covers cets whole
Covers-length cets whole shorter h i t e =
    let (t', found) =
      get_elem?-below whole i (omega (arith, below-get_elem? cets i t e, shorter)) in
    (t', found, All-get_elem? HasInput whole i t' h found)

le_refl : (n : ℕ) → n ≤ n
le_refl n = omega arith

pair_eq : {A B : Type 0} {a a' : A} {b b' : B} → a ≡ a' → b ≡ b' → Path (A × B) (a, b) (a', b')
pair_eq {a' = a'} {b = b} p q = ap (λ x. (x, b)) p ∙ ap (λ y. (a', y)) q

module _ (out : Outside) (hashing : IsHashing out.secp) (offered : OfferedContract)
    (params : PartyParams) (sk own : Bytes) (value : ℕ) (script : Bytes) where
  module _ (cet_input : TxIn) (whole : List Transaction) (have : All HasInput whole) where
    abbrev Fits : Signatures → Type 0
    Fits s = length s.cets ≤ length whole

    shorter_before :
        (c : ContractInfo) (s s' : Signatures)
        → add_signatures out offered params sk value script cet_input c s ≡ ok s'
        → Fits s'
        → Fits s
    shorter_before c s s' e h =
        let a = add_signatures-Added out offered params sk value script cet_input c s s' e in
        let longer = subst Fits a.result h in
        omega
          (arith, longer, length-append s.cets (further_cets offered params cet_input a.payouts))

    own_loop :
        (cs : List ContractInfo) (s s' : Signatures) (acc : List Bytes)
        → All IsEnum cs
        → Fits s'
        → for_each (add_signatures out offered params sk value script cet_input) cs s ≡ ok s'
        → (infos : List AdaptorInfo) × (s'.adaptor_infos ≡ s.adaptor_infos ++ infos)
          × All (λ i. i ≡ enum) infos
          × ((sigs : List Bytes) × (for_each
                  (add_own_signatures out own script value whole)
                  (zip cs infos)
                  acc
                ≡ ok sigs))
    unfolding for_each add_own_signatures
    own_loop [] s s' acc enums fits e = (
      [],
      ap (λ (r : Signatures). r.adaptor_infos) (sym (ok-inj _ refl e))
          ∙ sym (append-nil s.adaptor_infos),
      tt,
      (acc, refl),
    )
    own_loop (c ∷ cs) s s' acc (c_enum, enums) fits e =
        let (s1, first, rest) =
          >>=-eq-ok (add_signatures out offered params sk value script cet_input c s) _ e in
        let a = add_signatures-Added out offered params sk value script cet_input c s s1 first in
        let fits1 = for_each-back Fits shorter_before cs s1 s' rest fits in
        let added = further_cets offered params cet_input a.payouts in
        let longer = subst Fits a.result fits1 in
        let shorter : length added ≤ length whole =
          omega (arith, longer, length-append s.cets added) in
        let (is, _) =
          get_adaptor_info-enum out.bitcoin out.secp out.numericals c c_enum
            offered.total_collateral sk script value added (length s.adaptor_sigs) a.info a.sigs
            a.made in
        let (sigs, signed) =
          get_adaptor_signatures-get out.bitcoin out.secp out.numericals c c_enum hashing
            offered.total_collateral sk own script value added whole (length s.adaptor_sigs) a.info
            a.sigs (Covers-length added whole shorter have) a.made in
        let (infos, grown, all_enum, (sigs', looped)) =
          own_loop cs s1 s' (acc ++ sigs) enums fits rest in
        (
          a.info ∷ infos,
          grown
              ∙ ap (λ (r : Signatures). r.adaptor_infos ++ infos) a.result
              ∙ append_assoc s.adaptor_infos (a.info ∷ []) infos,
          (is, all_enum),
          (
            sigs',
            >>=-ok _
                (>>=-ok _
                  (ap
                      (λ i.
                        get_adaptor_signatures out.bitcoin out.secp out.numericals c i own script
                          value whole)
                      is
                    ∙ signed)
                  refl)
                looped,
          ),
        )

  keeps_input :
      (cet_input : TxIn) (c : ContractInfo) (s s' : Signatures)
      → All HasInput s.cets
      → add_signatures out offered params sk value script cet_input c s ≡ ok s'
      → All HasInput s'.cets
  keeps_input cet_input c s s' h e =
      let a = add_signatures-Added out offered params sk value script cet_input c s s' e in
      subst (λ (r : Signatures). All HasInput r.cets) (sym a.result)
        (All-append HasInput s.cets (further_cets offered params cet_input a.payouts) h
          (create_cets-HasInput cet_input _ _ _ _ a.payouts 0))

  -- What the offering party signs when the accepting party has made `s`.
  pub own_signatures-Made :
      (txs : DlcTransactions) (s : Signatures) (refund_signature : Bytes)
      → All IsEnum offered.contract_info
      → All HasInput txs.cets
      → Made out offered params sk value script txs s refund_signature
      → All (λ i. i ≡ enum) s.adaptor_infos
        × ((sigs : List Bytes) × (for_each
                (add_own_signatures out own script value s.cets)
                (zip offered.contract_info s.adaptor_infos)
                []
              ≡ ok sigs))
  unfolding for_each add_own_signatures
  own_signatures-Made txs s refund enums have m =
      let start : Signatures = record {
        cets = txs.cets;
        adaptor_infos = m.info ∷ [];
        adaptor_sigs = m.sigs;
      } in
      let rest = rest_of offered.contract_info in
      let (c_enum, rest_enums) =
        at_index-All IsEnum offered.contract_info m.first m.has_first enums in
      let have' =
        for_each-keeps (λ (r : Signatures). All HasInput r.cets) (keeps_input m.cet_input) rest
          start s have m.looped in
      let longer =
        for_each-back (Fits m.cet_input s.cets have') (shorter_before m.cet_input s.cets have') rest
          start s m.looped (le_refl (length s.cets)) in
      let (is, _) =
        get_adaptor_info-enum out.bitcoin out.secp out.numericals m.first c_enum
          offered.total_collateral sk script value txs.cets 0 m.info m.sigs m.made in
      let (sigs, signed) =
        get_adaptor_signatures-get out.bitcoin out.secp out.numericals m.first c_enum hashing
          offered.total_collateral sk own script value txs.cets s.cets 0 m.info m.sigs
          (Covers-length txs.cets s.cets longer have') m.made in
      let (infos, grown, all_enum, (sigs', signed_all)) =
        own_loop m.cet_input s.cets have' rest start s sigs rest_enums (le_refl (length s.cets))
          m.looped in
      let own_first =
        ap
          (λ i.
            get_adaptor_signatures out.bitcoin out.secp out.numericals m.first i own script value
              s.cets)
          is
        ∙ signed in
      (
        subst (All (λ i. i ≡ enum)) (sym grown) (is, all_enum),
        (
          sigs',
          ap
                (λ (p : List ContractInfo × List AdaptorInfo).
                  for_each (add_own_signatures out own script value s.cets) (zip p.0 p.1) [])
                (pair_eq (at_index-cons offered.contract_info m.first m.has_first) grown)
              ∙ >>=-ok _ (>>=-ok _ own_first refl) signed_all,
        ),
      )

-- The accepting party finds every signature of the answer.
module _ (out : Outside) (sound : IsSound out.secp) (own script : Bytes) (value : ℕ)
    (cets : List Transaction) where
  -- A condition that is an enumeration, and whose info says so.
  abbrev AreEnums : ContractInfo × AdaptorInfo → Type 0
  AreEnums p = IsEnum p.0 × (p.1 ≡ enum)

  abbrev swap : ContractInfo × AdaptorInfo → AdaptorInfo × ContractInfo
  swap p = (p.1, p.0)

  zip-swap :
      (cs : List ContractInfo) (infos : List AdaptorInfo) → zip infos cs ≡ map swap (zip cs infos)
  zip-swap [] [] = refl
  zip-swap [] (i ∷ is) = refl
  zip-swap (c ∷ cs) [] = refl
  zip-swap (c ∷ cs) (i ∷ is) = ap (λ r. (i, c) ∷ r) (zip-swap cs is)

  zip-AreEnums :
      (cs : List ContractInfo) (infos : List AdaptorInfo)
      → All IsEnum cs
      → All (λ i. i ≡ enum) infos
      → All AreEnums (zip cs infos)
  zip-AreEnums [] infos h h' = tt
  zip-AreEnums (c ∷ cs) [] h h' = tt
  zip-AreEnums (c ∷ cs) (i ∷ is) (h, hs) (h', hs') = ((h, h'), zip-AreEnums cs is hs hs')

  module _ (all : List Bytes) where
    answer_back :
        (p : ContractInfo × AdaptorInfo) (s s' : List Bytes)
        → add_own_signatures out own script value cets p s ≡ ok s'
        → SitsAt all 0 s'
        → SitsAt all 0 s
    unfolding add_own_signatures
    answer_back p s s' e h =
        let (sigs, made, e1) =
          >>=-eq-ok
            (get_adaptor_signatures out.bitcoin out.secp out.numericals p.0 p.1 own script value
              cets)
            _ e in
        SitsAt-front all 0 s sigs (subst (SitsAt all 0) (sym (ok-inj _ refl e1)) h)

    answer_follows :
        (p : ContractInfo × AdaptorInfo) (s s' : List Bytes) (n : ℕ)
        → AreEnums p
        → n ≡ length s
        → SitsAt all 0 s'
        → add_own_signatures out own script value cets p s ≡ ok s'
        → (n' : ℕ) × (check_answer out (out.secp.public_key own) script value cets all (swap p) n
            ≡ ok n')
          × (n' ≡ length s')
    unfolding add_own_signatures check_answer
    answer_follows p s s' n (c_enum, is) en h e =
        let (sigs, made, e1) =
          >>=-eq-ok
            (get_adaptor_signatures out.bitcoin out.secp out.numericals p.0 p.1 own script value
              cets)
            _ e in
        let grown : s' ≡ s ++ sigs = sym (ok-inj _ refl e1) in
        let sits = SitsAt-back all s sigs (subst (SitsAt all 0) grown h) in
        let made' =
          sym (
            ap
              (λ i.
                get_adaptor_signatures out.bitcoin out.secp out.numericals p.0 i own script value
                  cets)
              is)
          ∙ made in
        let checked =
          verify_adaptor_info-get out.bitcoin out.secp out.numericals p.0 c_enum sound own script
            value cets sigs all (length s) made' sits in
        (
          length s + length sigs,
          ap
                (λ i.
                  verify_adaptor_info out.bitcoin out.secp out.numericals p.0
                    (out.secp.public_key own) script value cets all n i)
                is
              ∙ ap
                  (λ n.
                    verify_adaptor_info out.bitcoin out.secp out.numericals p.0
                      (out.secp.public_key own) script value cets all n enum)
                  en
              ∙ checked,
          sym (ap length grown ∙ length-append s sigs),
        )

  pub check_answer-own_signatures :
      (cs : List ContractInfo) (infos : List AdaptorInfo) (sigs : List Bytes)
      → All IsEnum cs
      → All (λ i. i ≡ enum) infos
      → for_each (add_own_signatures out own script value cets) (zip cs infos) [] ≡ ok sigs
      → for_each
          (check_answer out (out.secp.public_key own) script value cets sigs)
          (zip infos cs)
          0
        ≡ ok (length sigs)
  check_answer-own_signatures cs infos sigs enums infos_enum e =
      let (n, checked, en) =
        for_each-follows AreEnums (λ (s : List Bytes) (n : ℕ). n ≡ length s) (SitsAt sigs 0)
          (answer_back sigs) (answer_follows sigs) (zip cs infos) [] sigs 0
          (zip-AreEnums cs infos enums infos_enum) refl (SitsAt-whole sigs) e in
      ap (λ r. for_each (check_answer out (out.secp.public_key own) script value cets sigs) r 0)
        (zip-swap cs infos)
      ∙ for_each-map _ swap (zip cs infos) 0
      ∙ checked
      ∙ ap ok en
