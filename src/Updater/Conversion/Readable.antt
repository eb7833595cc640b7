-- ===== src/Updater/Conversion/Readable.antt =====
-- What is read of the conditions of a contract that were sent.
use p2p_btc_lending.Prelude.{
  ℕ, ◌+◌, ◌<◌, ◌≡◌, refl, ap, sym, ◌∙◌, List, [], ◌∷◌, All, map, all, true, ok, Result, >>=-ok,
  collect, arith, Bool, ensure, ◌>>◌,
}
use p2p_btc_lending.Dlc.Checked.{amount_sub}
use p2p_btc_lending.Messages.{OracleAnnouncement, ContractInfoInner, enumerated_contract_descriptor}
use p2p_btc_lending.Contract.Types.{
  Error, conversion, ContractDescriptor, EnumerationPayout, enum_descriptor, ContractInfo,
}
use p2p_btc_lending.Contract.Info.{of_dlc}
use p2p_btc_lending.Updater.Conversion.{
  Curves, ser_outcome, ser_oracles, ser_descriptor, ser_info, ser_of, read_outcome,
  announcements_of, threshold_of, is_enum_event, read_descriptor, read_info,
  get_contract_info_and_announcements, get_total_collateral,
}

-- An enumeration whose payouts add up, with oracles of enumerated events.
pub record IsReadable (total : ℕ) (c : ContractInfo) : Type 0 where
  pub payouts : List EnumerationPayout
  pub is_enum : c.contract_descriptor ≡ enum_descriptor payouts
  pub add_up : All (λ e. e.payout.offer + e.payout.accept ≡ total) payouts
  pub events :
      all (λ x. is_enum_event x.oracle_event.event_descriptor) c.oracle_announcements ≡ true
  pub small : c.threshold < 65536
  pub alone : (x : OracleAnnouncement) → c.oracle_announcements ≡ x ∷ [] → c.threshold ≡ 1

amount_sub-rest : (o a total : ℕ) → o + a ≡ total → amount_sub total o ≡ ok a
unfolding amount_sub
amount_sub-rest o a total h = grind arith

collect-read_outcome :
    (total : ℕ) (e : List EnumerationPayout)
    → All (λ e. e.payout.offer + e.payout.accept ≡ total) e
    → collect (read_outcome total) (map ser_outcome e) ≡ ok e
unfolding collect read_outcome ser_outcome
collect-read_outcome total [] h = refl
collect-read_outcome total (x ∷ xs) (h, hs) =
    let rest = ap of_dlc (amount_sub-rest x.payout.offer x.payout.accept total h) in
    >>=-ok _ (>>=-ok _ rest refl) (>>=-ok _ (collect-read_outcome total xs hs) refl)

module _ (cu : Curves) where
  announcements_of-ser_oracles :
      (c : ContractInfo) (xs : List OracleAnnouncement)
      → announcements_of (ser_oracles cu c xs) ≡ xs
  unfolding announcements_of ser_oracles
  announcements_of-ser_oracles c [] = refl
  announcements_of-ser_oracles c (x ∷ []) = refl
  announcements_of-ser_oracles c (x ∷ y ∷ xs) = refl

  threshold_of-ser_oracles :
      (c : ContractInfo) (xs : List OracleAnnouncement)
      → c.threshold < 65536
      → ((x : OracleAnnouncement) → xs ≡ x ∷ [] → c.threshold ≡ 1)
      → threshold_of (ser_oracles cu c xs) ≡ c.threshold
  unfolding threshold_of ser_oracles
  threshold_of-ser_oracles c [] small alone = omega (arith, small)
  threshold_of-ser_oracles c (x ∷ []) small alone = sym (alone x refl)
  threshold_of-ser_oracles c (x ∷ y ∷ xs) small alone = omega (arith, small)

  -- One condition is sent and read.
  read_info-ser_info :
      (total : ℕ) (c : ContractInfo)
      → IsReadable total c
      → (i : ContractInfoInner) × (ser_info cu c ≡ ok i) × (read_info cu total i ≡ ok c)
  unfolding ser_info ser_descriptor read_info read_descriptor
  read_info-ser_info total c r =
      let xs = c.oracle_announcements in
      let sent = ser_oracles cu c xs in
      let same = announcements_of-ser_oracles c xs in
      let thr = threshold_of-ser_oracles c xs r.small r.alone in
      let p = r.payouts in
      let build : ContractDescriptor → List OracleAnnouncement → ℕ → Result Error ContractInfo =
        λ d a t. ok (record { contract_descriptor = d; oracle_announcements = a; threshold = t }) in
      let all_enum : List OracleAnnouncement → Bool =
        all (λ x. is_enum_event x.oracle_event.event_descriptor) in
      let checked : Bool → Result Error ContractDescriptor =
        λ b. ensure b conversion >> ok (enum_descriptor p) in
      let descriptor_read : read_descriptor cu total
            (enumerated_contract_descriptor (map ser_outcome p)) sent
          ≡ ok (enum_descriptor p) =
        >>=-ok _ (collect-read_outcome total p r.add_up)
          (ap (λ ys. checked (all_enum ys)) same ∙ ap checked r.events) in
      (
        record {
          contract_descriptor = enumerated_contract_descriptor (map ser_outcome p);
          oracle_info = sent;
        },
        >>=-ok _ (ap (ser_descriptor cu) r.is_enum) refl,
        >>=-ok _ descriptor_read (
            ap (λ d. build d (announcements_of sent) (threshold_of sent)) (sym r.is_enum)
            ∙ ap (λ a. build c.contract_descriptor a (threshold_of sent)) same
            ∙ ap (λ t. build c.contract_descriptor xs t) thr),
      )

  pub collect-ser_info :
      (total : ℕ) (cs : List ContractInfo)
      → All (IsReadable total) cs
      → (is : List ContractInfoInner) × (collect (ser_info cu) cs ≡ ok is)
        × (collect (read_info cu total) is ≡ ok cs)
  unfolding collect
  collect-ser_info total [] h = ([], refl, refl)
  collect-ser_info total (c ∷ cs) (h, hs) =
      let (i, sent, read) = read_info-ser_info total c h in
      let (is, all_sent, all_read) = collect-ser_info total cs hs in
      (i ∷ is, >>=-ok _ sent (>>=-ok _ all_sent refl), >>=-ok _ read (>>=-ok _ all_read refl))

  pub read-ser_of :
      (total : ℕ) (is : List ContractInfoInner)
      → get_contract_info_and_announcements cu (ser_of total is) ≡ collect (read_info cu total) is
  unfolding get_contract_info_and_announcements get_total_collateral
  read-ser_of total [] = refl
  read-ser_of total (x ∷ []) = refl
  read-ser_of total (x ∷ y ∷ is) = refl

  pub total-ser_of :
      (total : ℕ) (is : List ContractInfoInner) → get_total_collateral (ser_of total is) ≡ total
  unfolding get_total_collateral
  total-ser_of total [] = refl
  total-ser_of total (x ∷ []) = refl
  total-ser_of total (x ∷ y ∷ is) = refl
