-- ===== src/Wallet/Selection.antt =====
-- wallet/src/builder.rs and wallet/src/lib.rs: the selection of coins. The default algorithm of
-- bdk_wallet and the equality of its outputs are parameters.
use spaced.Wallet.{dust_threshold, SpacesAwareCoinSelection}
use spaced.Bitcoin.{outpoint_eq, TxOut, OutPoint}
use spaced.Base.{
  none, ◌++◌, ok, ltb, ◌>>◌, length, ◌&&◌, not, leb, some, assert, any, if◌then◌else◌, ◌>>=◌, [],
  false, ◌∷◌, Result, Option, ℕ, List, Bool,
}

-- What the code reads of a `Utxo`: `confirmation` is that of a local output.
pub record Utxo : Type 0 where
  pub outpoint : OutPoint
  pub txout : TxOut
  pub confirmation : Option Bool

pub record WeightedUtxo : Type 0 where
  pub satisfaction_weight : ℕ
  pub utxo : Utxo

-- `Excess`: an amount that is left and the fee and the threshold for an output that takes it.
pub data Excess : Type 0 where
  no_change change : ℕ → ℕ → ℕ → Excess

pub record CoinSelectionResult : Type 0 where
  pub selected : List Utxo
  pub fee_amount : ℕ
  pub excess : Excess

-- The utxos of weighted ones.
abbrev pub utxos : List WeightedUtxo → List Utxo
utxos [] = []
utxos (w ∷ ws) = w.utxo ∷ utxos ws

-- `!local.confirmation_time.is_confirmed()`, of a local output.
abbrev pub is_unconfirmed : Option Bool → Bool
is_unconfirmed none = false
is_unconfirmed (some confirmed) = not confirmed

-- The test of `retain` in `SpacesAwareCoinSelection::coin_select`.
unfoldable pub may_fund : SpacesAwareCoinSelection → Utxo → Bool
may_fund selection utxo =
    if selection.confirmed_only && is_unconfirmed utxo.confirmation
    then false
    else ltb dust_threshold utxo.txout.value
      && not (any (λ o. outpoint_eq o.outpoint utxo.outpoint) selection.exclude_outputs)

unfoldable pub retain : (WeightedUtxo → Bool) → List WeightedUtxo → List WeightedUtxo
retain p [] = []
retain p (w ∷ ws) = let rest = retain p ws in if p w then w ∷ rest else rest

module _ (utxo_eq : Utxo → Utxo → Bool)
    (default_select : List WeightedUtxo → List WeightedUtxo → Result CoinSelectionResult) where
  -- The loop over the selected outputs.
  unfoldable pub not_required : List Utxo → List Utxo → List Utxo
  not_required required [] = []
  not_required required (u ∷ us) =
      let rest = not_required required us in
      if any (λ r. utxo_eq r u) required then rest else u ∷ rest

  -- `SpacesAwareCoinSelection::coin_select`, with the fee rate, the target and the drain script inside
  -- the default algorithm. The capacity of the vector is out of range when fewer outputs are selected
  -- than are required.
  unfoldable pub coin_select :
      SpacesAwareCoinSelection → List WeightedUtxo → List WeightedUtxo → Result CoinSelectionResult
  coin_select selection required_utxos optional_utxos =
      default_select required_utxos (retain (λ w. may_fund selection w.utxo) optional_utxos)
      >>= λ result.
          assert (leb (length (utxos required_utxos)) (length result.selected))
          >> ok (record {
            selected = utxos required_utxos ++ not_required (utxos required_utxos) result.selected;
            fee_amount = result.fee_amount;
            excess = result.excess;
          })

-- `RequiredUtxosOnlyCoinSelectionAlgorithm::coin_select`
abbrev pub required_only : List WeightedUtxo → CoinSelectionResult
required_only required_utxos = record {
  selected = utxos required_utxos;
  fee_amount = 0;
  excess = no_change 0 0 0;
}
