-- ===== src/Sanctions/Addresses.antt =====
-- What `tx_sanctioned_addresses` returns.
use miningpool_observer.Prelude.{
  ◌≡◌, refl, ◌∙◌, sym, Bool, true, false, ◌&&◌, ◌||◌, none, some, List, [], ◌∷◌, ◌++◌, map, any,
  contains, contains-set_insert, beq_test, beq_refl, ◌==◌, lookup, is_some, Strict,
  dedup-sort-Strict, contains-dedup-sort, Strict-ext, any-append, Bool-cases, Option-cases, inl,
  inr, arith, list_eq, nat_eq, pair_eq,
}
use miningpool_observer.Bitcoin.{Text, TxIn, TxOut, Tx, Libraries}
use miningpool_observer.Sanctions.{
  UtxoMap, outpoint_key, is_sanctioned_output, is_tx_to_sanctioned, is_tx_from_sanctioned,
  is_tx_sanctioned, add_output_address, output_addresses, tx_sanctioned_addresses_to,
  add_input_address, input_addresses, tx_sanctioned_addresses_from, tx_sanctioned_addresses,
}

join : (x y z r : Bool) → x ≡ (y || z) → (r || x) ≡ ((y || r) || z)
join x y z r h = ground arith

module _ (lib : Libraries) where
  open lib use {address_from_script, bytes_order}

  -- The output pays to this address, and the address is sanctioned.
  abbrev pub output_pays : List Text → Text → TxOut → Bool
  output_pays sanctioned a out = elim (address_from_script out.script_pubkey) [
    | none ↦ false
    | some address ↦ a == address && contains a sanctioned
  ]

  -- The input spends a watched output that pays to this address.
  abbrev pub input_spends : UtxoMap → Text → TxIn → Bool
  input_spends utxos a input = elim (lookup (outpoint_key input.previous_output) utxos) [
    | none ↦ false
    | some utxo ↦ elim (address_from_script utxo.script_pubkey) [
      | none ↦ false
      | some address ↦ a == address
    ]
  ]

  contains-add_output :
      (sanctioned acc : List Text) (a : Text) (out : TxOut)
      → contains a (add_output_address lib sanctioned out acc)
        ≡ output_pays sanctioned a out || contains a acc
  contains-add_output sanctioned acc a out =
      elim (Option-cases (address_from_script out.script_pubkey)) [
        | inl h ↦ ground arith
        | inr (b, h) ↦ elim (Bool-cases (a == b)) [
          | inl q ↦
              ground
                (arith, contains-set_insert a b acc, beq_test (λ x. contains x sanctioned) a b q)
          | inr q ↦ ground (arith, contains-set_insert a b acc)
        ]
      ]

  contains-output_addresses :
      (sanctioned : List Text) (a : Text) (outs : List TxOut) (acc : List Text)
      → contains a (output_addresses lib sanctioned outs acc)
        ≡ any (output_pays sanctioned a) outs || contains a acc
  unfolding output_addresses
  contains-output_addresses sanctioned a [] acc = refl
  contains-output_addresses sanctioned a (out ∷ outs) acc =
      contains-output_addresses sanctioned a outs (add_output_address lib sanctioned out acc)
      ∙ join _ _ _ (any (output_pays sanctioned a) outs) (contains-add_output sanctioned acc a out)

  contains-add_input :
      (utxos : UtxoMap) (acc : List Text) (a : Text) (input : TxIn)
      → contains a (add_input_address lib utxos input acc)
        ≡ input_spends utxos a input || contains a acc
  contains-add_input utxos acc a input =
      elim (Option-cases (lookup (outpoint_key input.previous_output) utxos)) [
        | inl h ↦ ground arith
        | inr (u, h) ↦ elim (Option-cases (address_from_script u.script_pubkey)) [
          | inl k ↦ ground arith
          | inr (b, k) ↦ ground (arith, contains-set_insert a b acc)
        ]
      ]

  contains-input_addresses :
      (utxos : UtxoMap) (a : Text) (inputs : List TxIn) (acc : List Text)
      → contains a (input_addresses lib utxos inputs acc)
        ≡ any (input_spends utxos a) inputs || contains a acc
  unfolding input_addresses
  contains-input_addresses utxos a [] acc = refl
  contains-input_addresses utxos a (input ∷ inputs) acc =
      contains-input_addresses utxos a inputs (add_input_address lib utxos input acc)
      ∙ join _ _ _ (any (input_spends utxos a) inputs) (contains-add_input utxos acc a input)

  module _ (tx : Tx) (utxos : UtxoMap) (sanctioned : List Text) where
    addresses_to :
        (a : Text)
        → contains a (tx_sanctioned_addresses_to lib tx sanctioned)
          ≡ any (output_pays sanctioned a) tx.output
    unfolding tx_sanctioned_addresses_to
    addresses_to a = ground (arith, contains-output_addresses sanctioned a tx.output [])

    addresses_from :
        (a : Text)
        → contains a (tx_sanctioned_addresses_from lib tx utxos)
          ≡ any (input_spends utxos a) tx.input
    unfolding tx_sanctioned_addresses_from
    addresses_from a = ground (arith, contains-input_addresses utxos a tx.input [])

    -- The addresses reported for a transaction are exactly the sanctioned ones that an output pays
    -- to and those of the watched outputs that an input spends.
    pub contains-tx_sanctioned_addresses :
        (a : Text)
        → contains a (tx_sanctioned_addresses lib tx utxos sanctioned)
          ≡ any (output_pays sanctioned a) tx.output || any (input_spends utxos a) tx.input
    unfolding tx_sanctioned_addresses
    contains-tx_sanctioned_addresses a =
        rw (contains-dedup-sort ⦃o = bytes_order⦄, any-append, addresses_to a, addresses_from a)

    tx_sanctioned_addresses-Strict :
        Strict ⦃o = bytes_order⦄ (tx_sanctioned_addresses lib tx utxos sanctioned)
    unfolding tx_sanctioned_addresses
    tx_sanctioned_addresses-Strict =
        dedup-sort-Strict ⦃o = bytes_order⦄ (
          tx_sanctioned_addresses_to lib tx sanctioned ++ tx_sanctioned_addresses_from lib tx utxos)

    -- A strictly ascending list of the addresses that an output pays to or an input spends from is
    -- the list that is returned: the iteration order of the hash sets on the way does not show.
    tx_sanctioned_addresses_unique :
        (other : List Text)
        → Strict ⦃o = bytes_order⦄ other
        → ((a : Text)
            → contains a other
              ≡ any (output_pays sanctioned a) tx.output || any (input_spends utxos a) tx.input)
        → other ≡ tx_sanctioned_addresses lib tx utxos sanctioned
    tx_sanctioned_addresses_unique other s h =
        Strict-ext ⦃o = bytes_order⦄ other _ s tx_sanctioned_addresses-Strict
          (λ a. h a ∙ sym (contains-tx_sanctioned_addresses a))

  -- The scan for any address stops where the scan for one address would.
  any-output_pays :
      (sanctioned : List Text) (a : Text) (outs : List TxOut)
      → any (is_sanctioned_output lib sanctioned) outs ≡ false
      → any (output_pays sanctioned a) outs ≡ false
  any-output_pays sanctioned a [] h = refl
  any-output_pays sanctioned a (out ∷ outs) h =
      elim (Option-cases (address_from_script out.script_pubkey)) [
        | inl k ↦ ground (arith, any-output_pays sanctioned a outs)
        | inr (b, k) ↦ elim (Bool-cases (a == b)) [
          | inl q ↦ ground (
            arith,
            any-output_pays sanctioned a outs,
            beq_test (λ x. contains x sanctioned) a b q,
          )
          | inr q ↦ ground (arith, any-output_pays sanctioned a outs)
        ]
      ]

  any-input_spends :
      (utxos : UtxoMap) (a : Text) (inputs : List TxIn)
      → any (λ o. is_some (lookup (outpoint_key o) utxos)) (map (λ i. i.previous_output) inputs)
        ≡ false
      → any (input_spends utxos a) inputs ≡ false
  any-input_spends utxos a [] h = refl
  any-input_spends utxos a (input ∷ inputs) h =
      elim (Option-cases (lookup (outpoint_key input.previous_output) utxos)) [
        | inl k ↦ ground (arith, any-input_spends utxos a inputs)
        | inr (u, k) ↦ absurd (ground arith)
      ]

  paying_output :
      (sanctioned : List Text) (outs : List TxOut)
      → any (is_sanctioned_output lib sanctioned) outs ≡ true
      → (a : Text) × (any (output_pays sanctioned a) outs ≡ true) × (contains a sanctioned ≡ true)
  paying_output sanctioned [] h = cc
  paying_output sanctioned (out ∷ outs) h =
      elim (Bool-cases (is_sanctioned_output lib sanctioned out)) [
        | inl k ↦ elim (Option-cases (address_from_script out.script_pubkey)) [
          | inl q ↦ absurd (ground arith)
          | inr (a, q) ↦ (a, ground (arith, beq_refl a), ground arith)
        ]
        | inr k ↦
            let (a, p, q) = paying_output sanctioned outs (ground arith) in (a, ground arith, q)
      ]

  nil_of_contains : (xs : List Text) → ((a : Text) → contains a xs ≡ false) → xs ≡ []
  nil_of_contains [] h = refl
  nil_of_contains (x ∷ xs) h = absurd (ground (arith, h x, beq_refl x))

  -- A transaction that is not sanctioned reports no address, and one that pays to a sanctioned
  -- address reports at least one, which is sanctioned.
  tx_sanctioned_addresses_agrees :
      (tx : Tx) (utxos : UtxoMap) (sanctioned : List Text)
      → (is_tx_sanctioned lib tx utxos sanctioned ≡ false
          → tx_sanctioned_addresses lib tx utxos sanctioned ≡ [])
        × (is_tx_to_sanctioned lib tx sanctioned ≡ true
            → (a : Text) × (contains a (tx_sanctioned_addresses lib tx utxos sanctioned) ≡ true)
              × (contains a sanctioned ≡ true))
  unfolding is_tx_sanctioned
  tx_sanctioned_addresses_agrees tx utxos sanctioned = (clean, paying)
    where
      exact :
          (a : Text)
          → contains a (tx_sanctioned_addresses lib tx utxos sanctioned)
            ≡ any (output_pays sanctioned a) tx.output || any (input_spends utxos a) tx.input
      exact = contains-tx_sanctioned_addresses tx utxos sanctioned

      clean :
          (is_tx_to_sanctioned lib tx sanctioned || is_tx_from_sanctioned tx utxos) ≡ false
          → tx_sanctioned_addresses lib tx utxos sanctioned ≡ []
      clean h = nil_of_contains _ λ a.
          exact a
          ∙ ground
              (arith, any-output_pays sanctioned a tx.output, any-input_spends utxos a tx.input)

      paying :
          is_tx_to_sanctioned lib tx sanctioned ≡ true
          → (a : Text) × (contains a (tx_sanctioned_addresses lib tx utxos sanctioned) ≡ true)
            × (contains a sanctioned ≡ true)
      paying h =
          let (a, p, q) = paying_output sanctioned tx.output h in (a, exact a ∙ ground arith, q)
