-- ===== src/Contract/Enum/Agreement.antt =====
-- The party that verifies the adaptor signatures of an enumeration runs through them as the party
-- that made them did.
use p2p_btc_lending.Prelude.{
  ℕ, ◌+◌, ◌≡◌, refl, ap, ◌∙◌, unwrap, List, [], ◌∷◌, ◌++◌, some, get_elem?, length, Result, ok,
  for_each, at_index, >>=-eq-ok, >>=-ok, unwrap-eq-ok, arith,
}
use p2p_btc_lending.Prelude.Loops.{
  All-trivial, for_each-back, for_each-follows, get_elem?-append, get_elem?-append_last,
  get_elem?-append_at, zero_add, length-snoc,
}
use p2p_btc_lending.Dlc.Types.{Bytes, TxIn, Transaction, Bitcoin, Error}
use p2p_btc_lending.Dlc.Signing.{
  Secp, OracleInfo, get_adaptor_point_from_oracle_info, create_cet_adaptor_sig_from_point,
  verify_cet_adaptor_sig_from_point, get_sig_hash_msg,
}
use p2p_btc_lending.Dlc.Signing.Schemes.{IsSound, IsHashing, verify_adaptor-create}
use p2p_btc_lending.Trie.{combinations}
use p2p_btc_lending.Contract.Types.{EnumerationPayout}
use p2p_btc_lending.Contract.Enum.{
  Spending, at_selector, select_from, collected, iter_outcomes, push_signature, check_signature,
  get_adaptor_signatures, verify_adaptor_info,
}

module _ (b : Bitcoin) (k : Secp) {S T : Type 0} {f : Bytes → ℕ → S → Result Error S}
    {g : Bytes → ℕ → T → Result Error T} (R : S → T → Type 0) (P : S → Type 0)
    (back : (point : Bytes) (i : ℕ) (s s' : S) → f point i s ≡ ok s' → P s' → P s)
    (step : (point : Bytes) (i : ℕ) (s s' : S) (t : T)
      → R s t
      → P s'
      → f point i s ≡ ok s'
      → (t' : T) × (g point i t ≡ ok t') × R s' t') where
  selector-back :
      (infos : List OracleInfo) (m : ℕ × List (List Bytes)) (x : List ℕ) (s s' : S)
      → at_selector b k infos f m x s ≡ ok s'
      → P s'
      → P s
  unfolding at_selector
  selector-back infos m x s s' e p =
      let (point, found, called) =
        >>=-eq-ok (get_adaptor_point_from_oracle_info k (select_from 0 x infos) m.1)
          (λ point. f point m.0 s) e in
      back point m.0 s s' called p

  selector-follows :
      (infos : List OracleInfo) (m : ℕ × List (List Bytes)) (x : List ℕ) (s s' : S) (t : T)
      → R s t
      → P s'
      → at_selector b k infos f m x s ≡ ok s'
      → (t' : T) × (at_selector b k infos g m x t ≡ ok t') × R s' t'
  unfolding at_selector
  selector-follows infos m x s s' t r p e =
      let (point, found, called) =
        >>=-eq-ok (get_adaptor_point_from_oracle_info k (select_from 0 x infos) m.1)
          (λ point. f point m.0 s) e in
      let (t', called', r') = step point m.0 s s' t r p called in (t', >>=-ok _ found called', r')

  -- Where a run over the outcomes returns, one whose callback follows the first's does.
  pub iter_outcomes-follows :
      (payouts : List EnumerationPayout) (infos : List OracleInfo) (threshold : ℕ) (s s' : S)
      (t : T)
      → R s t
      → P s'
      → iter_outcomes b k payouts infos threshold f s ≡ ok s'
      → (t' : T) × (iter_outcomes b k payouts infos threshold g t ≡ ok t') × R s' t'
  unfolding iter_outcomes
  iter_outcomes-follows payouts infos threshold s s' t r p e =
      let (found, e1, e2) = >>=-eq-ok (combinations (length infos) threshold) _ e in
      let (selectors, e3, e4) = >>=-eq-ok (collected found) _ e2 in
      let inner_back : (m : ℕ × List (List Bytes)) (s s' : S)
          → for_each (at_selector b k infos f m) selectors s ≡ ok s'
          → P s'
          → P s =
        λ m. for_each-back P (selector-back infos m) selectors in
      let (t', e', r') =
        for_each-follows (λ _. Unit) R P inner_back
          (λ m s s' t _ r p e.
            for_each-follows (λ _. Unit) R P (selector-back infos m)
              (λ x s s' t _. selector-follows infos m x s s' t) selectors s s' t
              (All-trivial selectors) r p e)
          _ s s' t (All-trivial _) r p e4 in
      (t', >>=-ok _ e1 (>>=-ok _ e3 e'), r')

-- The items of `xs` stand in `all` from index `start` on.
pub record SitsAt {A : Type 0} (all : List A) (start : ℕ) (xs : List A) : Type 0 where
  pub found : (i : ℕ) (x : A) → get_elem? xs i ≡ some x → get_elem? all (start + i) ≡ some x

module _ {A : Type 0} where
  pub SitsAt-whole : (all : List A) → SitsAt all 0 all
  SitsAt-whole all = record { found = λ i x e. rw (zero_add i) e }

  pub SitsAt-front :
      (all : List A) (start : ℕ) (xs ys : List A)
      → SitsAt all start (xs ++ ys)
      → SitsAt all start xs
  SitsAt-front all start xs ys h = record {
    found = λ i x e. h.found i x (get_elem?-append xs ys i x e);
  }

  pub SitsAt-back :
      (all : List A) (xs ys : List A) → SitsAt all 0 (xs ++ ys) → SitsAt all (length xs) ys
  SitsAt-back all xs ys h = record {
    found = λ i x e.
        rw (zero_add (length xs + i)) at
          (h.found (length xs + i) x (get_elem?-append_at xs ys i ∙ e));
  }

module _ (b : Bitcoin) (k : Secp) (sound : IsSound k) (spending : Spending)
    (cets : List Transaction) (sk : Bytes) (all : List Bytes) (start : ℕ) where
  signed_back :
      (point : Bytes) (i : ℕ) (s s' : List Bytes)
      → push_signature b k spending cets sk point i s ≡ ok s'
      → SitsAt all start s'
      → SitsAt all start s
  unfolding push_signature
  signed_back point i s s' e h =
      let (cet, _, e1) = >>=-eq-ok (at_index cets i) _ e in
      let (sig, _, e2) =
        >>=-eq-ok
          (create_cet_adaptor_sig_from_point k cet point sk spending.funding_script_pubkey
            spending.fund_output_value)
          (λ sig. ok (s ++ sig ∷ [])) e1 in
      let pushed : s' ≡ s ++ sig ∷ [] = cc in SitsAt-front all start s (sig ∷ []) (rw pushed at h)

  signed_step :
      (point : Bytes) (i : ℕ) (s s' : List Bytes) (n : ℕ)
      → n ≡ start + length s
      → SitsAt all start s'
      → push_signature b k spending cets sk point i s ≡ ok s'
      → (n' : ℕ) × (check_signature b k spending cets all (k.public_key sk) point i n ≡ ok n')
        × (n' ≡ start + length s')
  unfolding push_signature check_signature
  signed_step point i s s' n en h e =
      let (cet, read, e1) = >>=-eq-ok (at_index cets i) _ e in
      let (sig, made, e2) =
        >>=-eq-ok
          (create_cet_adaptor_sig_from_point k cet point sk spending.funding_script_pubkey
            spending.fund_output_value)
          (λ sig. ok (s ++ sig ∷ [])) e1 in
      let pushed : s' ≡ s ++ sig ∷ [] = cc in
      let sits : get_elem? all n ≡ some sig =
        rw en (h.found (length s) sig (rw pushed (get_elem?-append_last s [] sig))) in
      let accepted : verify_cet_adaptor_sig_from_point k sig cet point (k.public_key sk)
            spending.funding_script_pubkey spending.fund_output_value
          ≡ ok tt =
        verify_adaptor-create k sound cet point sk spending.funding_script_pubkey
          spending.fund_output_value sig made in
      (
        n + 1,
        >>=-ok _ (ap unwrap sits) (>>=-ok _ read (>>=-ok _ accepted refl)),
        rw pushed (omega (arith, length-snoc s sig, en)),
      )

  -- Under a sound scheme, the adaptor signatures that one party makes for an enumeration are accepted
  -- under its key wherever they stand in a list from the start index on, and the verification goes on
  -- exactly behind the last of them.
  pub verify_adaptor_info-signatures :
      (payouts : List EnumerationPayout) (sigs : List Bytes)
      → get_adaptor_signatures b k payouts spending cets sk ≡ ok sigs
      → SitsAt all start sigs
      → verify_adaptor_info b k payouts spending cets all (k.public_key sk) start
        ≡ ok (start + length sigs)
  unfolding get_adaptor_signatures verify_adaptor_info
  verify_adaptor_info-signatures payouts sigs e h =
      let (n, checked, en) =
        iter_outcomes-follows b k (λ (s : List Bytes) (n : ℕ). n ≡ start + length s)
          (SitsAt all start) signed_back signed_step payouts spending.oracle_infos
          spending.threshold [] sigs start (omega arith) h e in
      rw en at checked

-- Every transaction of `cets` has one at its index in `whole`, which has an input.
abbrev pub Covers : List Transaction → List Transaction → Type 0
Covers cets whole =
    (i : ℕ) (t : Transaction)
    → get_elem? cets i ≡ some t
    → (t' : Transaction) × (get_elem? whole i ≡ some t')
      × ((x : TxIn) × (get_elem? t'.input 0 ≡ some x))

module _ (b : Bitcoin) (k : Secp) (hashing : IsHashing k) (spending : Spending)
    (cets whole : List Transaction) (covers : Covers cets whole) (sk own : Bytes) where
  again_step :
      (point : Bytes) (i : ℕ) (s s' t : List Bytes)
      → Unit {0}
      → Unit {0}
      → push_signature b k spending cets sk point i s ≡ ok s'
      → (t' : List Bytes) × (push_signature b k spending whole own point i t ≡ ok t') × Unit {0}
  unfolding push_signature create_cet_adaptor_sig_from_point get_sig_hash_msg
  again_step point i s s' t _ _ e =
      let (cet, read, _) = >>=-eq-ok (at_index cets i) _ e in
      let (cet', read', (x, input)) = covers i cet (unwrap-eq-ok (get_elem? cets i) read) in
      let (h, hashed) =
        hashing.hashes cet' 0 x spending.funding_script_pubkey spending.fund_output_value input in
      (t ++ k.encrypt h own point ∷ [], >>=-ok _ (ap unwrap read') (rw hashed refl), tt)

  -- A party that signs further transactions of an enumeration is not stopped where another was not.
  pub get_adaptor_signatures_again :
      (payouts : List EnumerationPayout) (sigs : List Bytes)
      → get_adaptor_signatures b k payouts spending cets sk ≡ ok sigs
      → (sigs' : List Bytes) × (get_adaptor_signatures b k payouts spending whole own ≡ ok sigs')
  unfolding get_adaptor_signatures
  get_adaptor_signatures_again payouts sigs e =
      let (sigs', made, _) =
        iter_outcomes-follows b k (λ s t. Unit {0}) (λ s. Unit {0}) (λ point i s s' _ _. tt)
          again_step payouts spending.oracle_infos spending.threshold [] sigs [] tt tt e in
      (sigs', made)
