-- ===== src/Tags.antt =====
-- shared/src/tags.rs: the tags of transactions and of blocks, with their database values.
pub mod Codes
pub mod Bands
mod Tests
use miningpool_observer.Prelude.{
  ℕ, ◌*◌, Bool, true, false, Option, none, some, List, [], ◌∷◌, ℤ, pos, if◌then◌else◌, ◌==◌, int_eq,
}

abbrev pub coin : ℕ
coin = 100_000_000

abbrev pub sigop_limit : ℕ
sigop_limit = 80_000

abbrev pub threshold_transaction_considered_large : ℕ
threshold_transaction_considered_large = 2500

abbrev pub threshold_feerate_considered_high : ℕ
threshold_feerate_considered_high = 1000

abbrev pub threshold_output_considered_dust : ℕ
threshold_output_considered_dust = 1000

abbrev pub threshold_value_considered_high : ℕ
threshold_value_considered_high = 100 * coin

abbrev pub threshold_transaction_considered_young : ℕ
threshold_transaction_considered_young = 90

abbrev pub threshold_sigops_considered_many : ℕ
threshold_sigops_considered_many = 1000

abbrev pub threshold_sigop_limit_close : ℕ
threshold_sigop_limit_close = 70_000

pub data TxTag : Type 0 where
  from_sanctioned to_sanctioned conflicting : TxTag
  large zero_fee high_feerate high_value many_sigops : TxTag
  young : TxTag
  coinbase coinjoin seg_wit taproot multisig rbf_signaling op_return counter_party : TxTag
  rare_script_type lock_by_height lock_by_timestamp consolidation dust_output inscription : TxTag

-- `tag as i32`.
unfoldable pub discriminant : TxTag → ℤ
discriminant TxTag.from_sanctioned = pos 1099
discriminant TxTag.to_sanctioned = pos 1100
discriminant TxTag.conflicting = pos 1110
discriminant TxTag.large = pos 2100
discriminant TxTag.zero_fee = pos 2110
discriminant TxTag.high_feerate = pos 2120
discriminant TxTag.high_value = pos 2130
discriminant TxTag.many_sigops = pos 2140
discriminant TxTag.young = pos 3110
discriminant TxTag.coinbase = pos 4099
discriminant TxTag.coinjoin = pos 4100
discriminant TxTag.seg_wit = pos 4110
discriminant TxTag.taproot = pos 4111
discriminant TxTag.multisig = pos 4120
discriminant TxTag.rbf_signaling = pos 4130
discriminant TxTag.op_return = pos 4140
discriminant TxTag.counter_party = pos 4141
discriminant TxTag.rare_script_type = pos 4142
discriminant TxTag.lock_by_height = pos 4150
discriminant TxTag.lock_by_timestamp = pos 4160
discriminant TxTag.consolidation = pos 4170
discriminant TxTag.dust_output = pos 4180
discriminant TxTag.inscription = pos 4190

-- The arms of a `match v` whose guards are `x == tag as i32`, in order.
first_match : {A : Type 0} → (A → ℤ) → ℤ → List A → Option A
first_match f v [] = none
first_match f v (t ∷ ts) = if v == f t then some t else first_match f v ts

abbrev pub try_from_arms : List TxTag
try_from_arms =
    TxTag.from_sanctioned ∷ TxTag.to_sanctioned ∷ TxTag.coinbase ∷ TxTag.large ∷ TxTag.zero_fee
    ∷ TxTag.high_feerate ∷ TxTag.seg_wit ∷ TxTag.taproot ∷ TxTag.multisig ∷ TxTag.rbf_signaling
    ∷ TxTag.op_return ∷ TxTag.counter_party ∷ TxTag.rare_script_type ∷ TxTag.coinjoin
    ∷ TxTag.lock_by_height ∷ TxTag.lock_by_timestamp ∷ TxTag.consolidation ∷ TxTag.dust_output
    ∷ TxTag.high_value ∷ TxTag.conflicting ∷ TxTag.young ∷ TxTag.many_sigops ∷ TxTag.inscription
    ∷ []

-- `TxTag::try_from`.
unfoldable pub try_from : ℤ → Option TxTag
unfolding first_match discriminant
try_from v = first_match discriminant v try_from_arms

-- `TxTag::TX_TAGS`.
unfoldable pub tx_tags : List TxTag
tx_tags =
    TxTag.from_sanctioned ∷ TxTag.to_sanctioned ∷ TxTag.conflicting ∷ TxTag.large ∷ TxTag.zero_fee
    ∷ TxTag.high_feerate ∷ TxTag.high_value ∷ TxTag.many_sigops ∷ TxTag.young ∷ TxTag.coinbase
    ∷ TxTag.seg_wit ∷ TxTag.taproot ∷ TxTag.multisig ∷ TxTag.rbf_signaling ∷ TxTag.op_return
    ∷ TxTag.counter_party ∷ TxTag.rare_script_type ∷ TxTag.lock_by_height ∷ TxTag.lock_by_timestamp
    ∷ TxTag.coinjoin ∷ TxTag.consolidation ∷ TxTag.dust_output ∷ TxTag.inscription ∷ []

pub data Color : Type 0 where
  gray yellow red cyan black white : Color

-- `TxTag::value().color` and `.text_color`.
unfoldable pub colors : TxTag → Color × Color
colors TxTag.from_sanctioned = (Color.red, Color.white)
colors TxTag.to_sanctioned = (Color.red, Color.white)
colors TxTag.conflicting = (Color.red, Color.white)
colors TxTag.large = (Color.yellow, Color.black)
colors TxTag.zero_fee = (Color.yellow, Color.black)
colors TxTag.high_feerate = (Color.yellow, Color.black)
colors TxTag.high_value = (Color.yellow, Color.black)
colors TxTag.many_sigops = (Color.yellow, Color.black)
colors TxTag.young = (Color.cyan, Color.white)
colors _ = (Color.gray, Color.white)

pub data BlockTag : Type 0 where
  sigops_limit_close taproot_signaling : BlockTag

unfoldable pub block_discriminant : BlockTag → ℤ
block_discriminant BlockTag.sigops_limit_close = pos 2100
block_discriminant BlockTag.taproot_signaling = pos 3100

abbrev pub block_try_from_arms : List BlockTag
block_try_from_arms = BlockTag.taproot_signaling ∷ BlockTag.sigops_limit_close ∷ []

-- `BlockTag::try_from`.
unfoldable pub block_try_from : ℤ → Option BlockTag
unfolding first_match block_discriminant
block_try_from v = first_match block_discriminant v block_try_from_arms
