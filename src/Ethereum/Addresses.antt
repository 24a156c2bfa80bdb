-- ===== src/Ethereum/Addresses.antt =====
-- Which contract addresses the transaction manager gets.
use mathlib.Core.Path.{subst}
use subfile_data_service.Prelude.{
  ℕ, zero, suc, Bytes, bytes_eq, bytes_eq_iff, codes, List, [], ◌∷◌, none, some, Bool-cases, inl,
  inr, ◌⊎◌, Option-cases, ◌≡◌, refl, sym, ap, ◌∙◌, get_elem?, arith,
}
use subfile_data_service.Rust.Result.{done, Io-cases}
use subfile_data_service.HashMap.{get, insert}
use subfile_data_service.HashMap.Laws.{get-insert}
use subfile_data_service.Ethereum.Crates.{Ethers, Json}
use subfile_data_service.Ethereum.Transactions.{
  panicked, ContractAddresses, address_of, contracts_of, insert_addresses, addresses_in,
  network_contract_addresses, new,
}

module _ (ethers : Ethers) (json : Json) where
  -- A contract of the list has that address.
  pub record IsListed (contracts : List (Bytes × json.Value)) (name : Bytes) (a : ethers.H160)
      : Type 0 where
    pub position : ℕ
    pub info : json.Value
    pub address : Bytes
    pub there : get_elem? contracts position ≡ some (name, info)
    pub text : address_of ethers json info ≡ some address
    pub parsed : ethers.h160_from_str address ≡ done a

  later :
      (c : Bytes × json.Value) (contracts : List (Bytes × json.Value)) (name : Bytes)
      (a : ethers.H160)
      → IsListed contracts name a
      → IsListed (c ∷ contracts) name a
  later c contracts name a l = record {
    position = suc l.position;
    info = l.info;
    address = l.address;
    there = l.there;
    text = l.text;
    parsed = l.parsed;
  }

  -- What one contract does to the addresses.
  insert_one :
      (c : Bytes × json.Value) (contracts : List (Bytes × json.Value))
      (m m' : ContractAddresses ethers json)
      → insert_addresses ethers json (c ∷ contracts) m ≡ done m'
      → ((address_of ethers json c.1 ≡ none) × (insert_addresses ethers json contracts m ≡ done m'))
        ⊎ ((address : Bytes) × (a : ethers.H160) × (address_of ethers json c.1 ≡ some address)
            × (ethers.h160_from_str address ≡ done a)
            × (insert_addresses ethers json contracts (insert c.0 a m) ≡ done m'))
  unfolding insert_addresses
  insert_one c contracts m m' e = elim (Option-cases (address_of ethers json c.1)) [
    | inl n ↦ inl (n, rw (n, insert_addresses) at e)
    | inr (address, s) ↦ elim (Io-cases (ethers.h160_from_str address)) [
      | inl (a, p) ↦ inr (address, a, s, p, rw (s, p, insert_addresses) at e)
      | inr (x, p) ↦ absurd (cc (rw (s, p, insert_addresses) at e))
    ]
  ]

  insert_addresses_sound :
      (contracts : List (Bytes × json.Value)) (m m' : ContractAddresses ethers json) (name : Bytes)
      (a : ethers.H160)
      → insert_addresses ethers json contracts m ≡ done m'
      → get name m' ≡ some a
      → (get name m ≡ some a) ⊎ IsListed contracts name a
  unfolding insert_addresses
  insert_addresses_sound [] m m' name a e found = inl (let same : m ≡ m' = cc in rw same found)
  insert_addresses_sound ((n, info) ∷ contracts) m m' name a e found =
      elim (insert_one (n, info) contracts m m' e) [
        | inl (skip, rest) ↦ elim (insert_addresses_sound contracts m m' name a rest found) [
          | inl before ↦ inl before
          | inr l ↦ inr (later (n, info) contracts name a l)
        ]
        | inr (address, b, text, parsed, rest) ↦
            elim (insert_addresses_sound contracts (insert n b m) m' name a rest found) [
              | inl before ↦ elim (Bool-cases (bytes_eq n name)) [
                | inl same ↦
                    let of_b : b ≡ a = ground (arith, get-insert n name b m) in
                    inr (record {
                      position = 0;
                      info = info;
                      address = address;
                      there = ap (λ (k : Bytes). some (k, info)) ((bytes_eq_iff n name).0 same);
                      text = text;
                      parsed = parsed ∙ ap done of_b;
                    })
                | inr other ↦ inl (ground (arith, get-insert n name b m))
              ]
              | inr l ↦ inr (later (n, info) contracts name a l)
            ]
      ]

  -- A name that has an address keeps one.
  insert_addresses-kept :
      (contracts : List (Bytes × json.Value)) (m m' : ContractAddresses ethers json) (name : Bytes)
      (a : ethers.H160)
      → insert_addresses ethers json contracts m ≡ done m'
      → get name m ≡ some a
      → (b : ethers.H160) × (get name m' ≡ some b)
  unfolding insert_addresses
  insert_addresses-kept [] m m' name a e found = (a, let same : m ≡ m' = cc in rw (← same) found)
  insert_addresses-kept ((n, info) ∷ contracts) m m' name a e found =
      elim (insert_one (n, info) contracts m m' e) [
        | inl (skip, rest) ↦ insert_addresses-kept contracts m m' name a rest found
        | inr (address, b, text, parsed, rest) ↦ elim (Bool-cases (bytes_eq n name)) [
          | inl same ↦
              insert_addresses-kept contracts (insert n b m) m' name b rest
                (get-insert n name b m ∙ rw same refl)
          | inr other ↦
              insert_addresses-kept contracts (insert n b m) m' name a rest
                (get-insert n name b m ∙ rw other found)
        ]
      ]

  insert_addresses_complete :
      (contracts : List (Bytes × json.Value)) (m m' : ContractAddresses ethers json) (k : ℕ)
      (name : Bytes) (info : json.Value) (address : Bytes)
      → insert_addresses ethers json contracts m ≡ done m'
      → get_elem? contracts k ≡ some (name, info)
      → address_of ethers json info ≡ some address
      → (b : ethers.H160) × (get name m' ≡ some b)
  unfolding insert_addresses
  insert_addresses_complete [] m m' k name info address e found text = absurd cc
  insert_addresses_complete ((n, i) ∷ contracts) m m' zero name info address e found text =
      let same : n ≡ name = cc in
      let same_info : i ≡ info = cc in
      elim (insert_one (n, i) contracts m m' e) [
        | inl (skip, rest) ↦
            let skip' : address_of ethers json info ≡ none =
              subst (λ x. address_of ethers json x ≡ none) same_info skip in
            let clash : none ≡ some address = sym skip' ∙ text in absurd cc
        | inr (address', b, text', parsed, rest) ↦
            insert_addresses-kept contracts (insert n b m) m' name b rest
              (get-insert n name b m ∙ rw ((bytes_eq_iff n name).1 same) refl)
      ]
  insert_addresses_complete ((n, i) ∷ contracts) m m' (suc k) name info address e found text =
      elim (insert_one (n, i) contracts m m' e) [
        | inl (skip, rest) ↦
            insert_addresses_complete contracts m m' k name info address rest found text
        | inr (address', b, text', parsed, rest) ↦
            insert_addresses_complete contracts (insert n b m) m' k name info address rest found
              text
      ]

  read-addresses :
      (file_path chain_id text : Bytes) (value : json.Value)
      → json.read_to_string file_path ≡ done text
      → json.from_str text ≡ done value
      → network_contract_addresses ethers json file_path chain_id
        ≡ addresses_in ethers json value chain_id
  unfolding network_contract_addresses
  read-addresses file_path chain_id text value read parsed =
      rw (read, parsed, network_contract_addresses) refl

  chosen-addresses :
      (value : json.Value) (chain_id : Bytes) (contracts : List (Bytes × json.Value))
      → contracts_of ethers json value chain_id ≡ some contracts
      → addresses_in ethers json value chain_id ≡ insert_addresses ethers json contracts []
  unfolding addresses_in
  chosen-addresses value chain_id contracts chain = rw (chain, addresses_in) refl

  no_addresses :
      (value : json.Value) (chain_id : Bytes)
      → contracts_of ethers json value chain_id ≡ none
      → addresses_in ethers json value chain_id ≡ done []
  unfolding addresses_in
  no_addresses value chain_id chain = rw (chain, addresses_in) refl

  -- When the file of addresses is read and parsed, has contracts for the chain, and
  -- network_contract_addresses succeeds: every address that it returns is that of an entry of
  -- the chain with the same name, and every entry with an address text has an address in what
  -- is returned.
  pub network_contract_addresses-exact :
      (file_path chain_id text : Bytes) (value : json.Value) (contracts : List (Bytes × json.Value))
      (m : ContractAddresses ethers json)
      → json.read_to_string file_path ≡ done text
      → json.from_str text ≡ done value
      → contracts_of ethers json value chain_id ≡ some contracts
      → network_contract_addresses ethers json file_path chain_id ≡ done m
      → ((name : Bytes) (a : ethers.H160) → get name m ≡ some a → IsListed contracts name a)
        × ((k : ℕ) (name : Bytes) (info : json.Value) (address : Bytes)
            → get_elem? contracts k ≡ some (name, info)
            → address_of ethers json info ≡ some address
            → (a : ethers.H160) × (get name m ≡ some a))
  unfolding get
  network_contract_addresses-exact file_path chain_id text value contracts m read parsed chain e =
      let inserted : insert_addresses ethers json contracts [] ≡ done m =
        sym (chosen-addresses value chain_id contracts chain)
        ∙ sym (read-addresses file_path chain_id text value read parsed)
        ∙ e in
      (
        λ name a found. elim (insert_addresses_sound contracts [] m name a inserted found) [
          | inl before ↦ absurd (cc before)
          | inr l ↦ l
        ],
        λ k name info address found text'.
            insert_addresses_complete contracts [] m k name info address inserted found text',
      )

  -- No contracts of the chain: the lookup of the staking contract panics.
  pub new_unknown_chain :
      (provider_url chain_id text : Bytes) (wallet : ethers.Wallet) (provider : ethers.Provider)
      (value : json.Value)
      → ethers.provider provider_url ≡ done provider
      → ethers.get_chainid provider ≡ done chain_id
      → json.read_to_string (codes "addresses.json") ≡ done text
      → json.from_str text ≡ done value
      → contracts_of ethers json value chain_id ≡ none
      → new ethers json provider_url wallet ≡ panicked
  unfolding new get
  new_unknown_chain provider_url chain_id text wallet provider value p c read parsed chain =
      let none_there : network_contract_addresses ethers json (codes "addresses.json") chain_id
          ≡ done [] =
        read-addresses (codes "addresses.json") chain_id text value read parsed
        ∙ no_addresses value chain_id chain in
      rw (p, c, none_there) refl
