-- ===== src/Wallet/Recipients.antt =====
-- wallet/src/builder.rs, `Builder::prepare_all`: the outputs of the transaction that commits to the
-- requests, in their order. The addresses of the wallet and the smallest amount that a script may
-- receive are parameters; bdk_wallet keeps the order and appends the change.
use spaced.Wallet.Amounts.{connector_dust, space_dust, magic_dust}
use spaced.Wallet.Requests.{SpaceTransfer, CoinTransfer}
use spaced.Bitcoin.{TxOut}
use spaced.Base.{
  zero, some, ◌==◌, [], ◌*◌, ◌+◌, ◌%◌, suc, none, if◌then◌else◌, ◌∷◌, ◌++◌, Option, ℕ, List,
}

-- The outputs so far, their number, and where the commitments are.
pub record Layout : Type 0 where
  pub outputs : List TxOut
  pub vout : ℕ
  pub tap_outputs : List ℕ

-- `builder.add_recipient(…); vout += 1`
abbrev pub add_recipient : List ℕ → ℕ → Layout → Layout
add_recipient script_pubkey value l = record l {
  outputs = l.outputs ++ ((record { value = value; script_pubkey = script_pubkey }) ∷ []);
  vout = l.vout + 1;
}

module _ (minimal_non_dust : List ℕ → ℕ) (dust : Option ℕ) where
  -- The dust of a script: what is configured, or twice the smallest amount.
  abbrev pub dust_for : List ℕ → ℕ
  dust_for script = elim dust [ none ↦ 2 * minimal_non_dust script | some d ↦ d ]

  -- The outputs for auctions: a connector and the output that is auctioned, from round `i` on.
  unfoldable pub add_placeholders : (ℕ → List ℕ) → (ℕ → List ℕ) → ℕ → ℕ → Layout → Layout
  add_placeholders addr1 addr2 i zero l = l
  add_placeholders addr1 addr2 i (suc left) l = add_placeholders addr1 addr2 (i + 1) left (
      add_recipient (addr2 i) (magic_dust (dust_for (addr1 i)))
        (add_recipient (addr1 i) (connector_dust (dust_for (addr1 i))) l))

  -- The commitments to scripts, by their addresses.
  abbrev pub add_commitment : List ℕ → Layout → Layout
  add_commitment address l = record (add_recipient address (magic_dust (dust_for address)) l) {
    tap_outputs = l.tap_outputs ++ (l.vout ∷ []);
  }

  unfoldable pub add_commitments : List (List ℕ) → Layout → Layout
  add_commitments [] l = l
  add_commitments (a ∷ rest) l = add_commitments rest (add_commitment a l)

  unfoldable pub add_coins : List CoinTransfer → Layout → Layout
  add_coins [] l = l
  add_coins (c ∷ cs) l = add_coins cs (add_recipient c.recipient c.amount l)

  -- `add_transfer` of a space; the counter is not needed any more.
  unfoldable pub add_spaces : List SpaceTransfer → Layout → Layout
  add_spaces [] l = l
  add_spaces (t ∷ ts) l = add_spaces ts (record l {
    outputs =
        l.outputs
        ++ ((record {
          value = space_dust (2 * minimal_non_dust t.space.spaceout.script_pubkey);
          script_pubkey = t.recipient;
        })
            ∷ []);
  })

  -- An output that makes the number of outputs odd, before the transfers of spaces.
  unfoldable pub add_padding : List ℕ → Layout → Layout
  add_padding change_address l =
      if l.vout % 2 == 0
      then record l {
        outputs =
            l.outputs
            ++ ((record { value = dust_for change_address; script_pubkey = change_address }) ∷ []);
      }
      else l

  -- The outputs before the transfers of spaces, and all of them.
  unfoldable pub layout_before :
      (ℕ → List ℕ) → (ℕ → List ℕ) → Option ℕ → List (List ℕ) → List CoinTransfer → Layout
  layout_before addr1 addr2 auction_outputs reveals coins =
      let start : Layout = record { outputs = []; vout = 0; tap_outputs = [] } in
      let placed : Layout = elim auction_outputs [
        | none ↦ start
        | some count ↦ add_placeholders addr1 addr2 0 count start
      ] in
      add_coins coins (add_commitments reveals placed)

  unfoldable pub prepare_layout :
      (ℕ → List ℕ)
      → (ℕ → List ℕ)
      → List ℕ
      → Option ℕ
      → List (List ℕ)
      → List CoinTransfer
      → List SpaceTransfer
      → Layout
  prepare_layout addr1 addr2 change_address auction_outputs reveals coins [] =
      layout_before addr1 addr2 auction_outputs reveals coins
  prepare_layout addr1 addr2 change_address auction_outputs reveals coins (t ∷ ts) =
      add_spaces (t ∷ ts)
        (add_padding change_address (layout_before addr1 addr2 auction_outputs reveals coins))
