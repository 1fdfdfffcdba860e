-- ===== src/Blocks.antt =====
-- `build_block` and `get_pool_info_or_default` of daemon/src/processing.rs, with the `NewBlock` of
-- shared/src/model.rs. The field `equality`, which is always 0.0, and `block_seen_time`, the
-- current time, are left out.
use miningpool_observer.Prelude.{
  ℕ, Option, none, some, List, [], ◌∷◌, ◌++◌, reverse, filter, length, sum_by, ℤ, as_i32, as_i64,
  ltb, if◌then◌else◌, head?, ◌>>=◌,
}
use miningpool_observer.Prelude.Outcomes.{ascii}
use miningpool_observer.Bitcoin.{Bytes, Text, Txid, BitcoinBlock, GetBlockTemplateResult, Libraries}
use miningpool_observer.Model.{TxInfo}
use miningpool_observer.Tags.{BlockTag, block_discriminant, threshold_sigop_limit_close}
use miningpool_observer.Sanctions.{UtxoMap, is_tx_sanctioned}
use miningpool_observer.Tagging.{unwrap_or}

pub data IdentificationMethod : Type 0 where
  tag address : IdentificationMethod

pub record IdentificationResult : Type 0 where
  pub pool_name : Text
  pub pool_link : Text
  pub identification_method : IdentificationMethod

-- The three texts of the pool.
pub record PoolInfo : Type 0 where
  pub name : Text
  pub link : Text
  pub method : Text

abbrev show_method : IdentificationMethod → Text
show_method IdentificationMethod.tag = ascii "coinbase tag"
show_method IdentificationMethod.address = ascii "coinbase output address"

unfoldable pub get_pool_info_or_default : Option IdentificationResult → PoolInfo
get_pool_info_or_default none = record { name = ascii "Unknown"; link = []; method = [] }
get_pool_info_or_default (some result) = record {
  name = result.pool_name;
  link = result.pool_link;
  method = show_method result.identification_method;
}

pub record NewBlock (F32 Time : Type 0) : Type 0 where
  pub hash : Bytes
  pub prev_hash : Bytes
  pub height : ℤ
  pub tags : List ℤ
  pub missing_tx : ℤ
  pub extra_tx : ℤ
  pub shared_tx : ℤ
  pub sanctioned_missing_tx : ℤ
  pub block_time : Time
  pub block_tx : ℤ
  pub block_sanctioned : ℤ
  pub block_cb_value : ℤ
  pub block_cb_fees : ℤ
  pub block_weight : ℤ
  pub block_pkg_weights : List ℤ
  pub block_pkg_feerates : List F32
  pub pool : PoolInfo
  pub template_tx : ℤ
  pub template_time : Time
  pub template_sanctioned : ℤ
  pub template_cb_value : ℤ
  pub template_cb_fees : ℤ
  pub template_weight : ℤ
  pub template_pkg_weights : List ℤ
  pub template_pkg_feerates : List F32
  pub template_sigops : ℤ
  pub block_sigops : ℤ

-- The weights and feerates of the packages of a block or a template.
pub record PackageStats (F32 : Type 0) : Type 0 where
  pub weights : List ℤ
  pub feerates : List F32

-- The counts that `process` has made of the differences.
pub record DiffCounts : Type 0 where
  pub missing_tx : ℤ
  pub sanctioned_missing_tx : ℤ
  pub extra_tx : ℤ
  pub shared_tx : ℤ

abbrev version_bit_taproot : ℕ
version_bit_taproot = 2

module _ (lib : Libraries) where
  open lib use {
    F32, NaiveDateTime, block_hash, block_weight, sigops, is_signalling_soft_fork, from_timestamp,
  }

  unfoldable pub block_sigops : BitcoinBlock → ℕ
  block_sigops block = sum_by (λ tx. unwrap_or 0 (sigops tx)) block.txdata

  unfoldable pub block_tags : BitcoinBlock → List ℤ
  unfolding block_sigops block_discriminant
  block_tags block =
      (if ltb threshold_sigop_limit_close (block_sigops block)
        then block_discriminant BlockTag.sigops_limit_close ∷ []
        else [])
      ++ (if is_signalling_soft_fork block.header.version version_bit_taproot
          then block_discriminant BlockTag.taproot_signaling ∷ []
          else [])

  -- `none` stands for a panic: a block with no transaction, or a timestamp out of range.
  unfoldable pub build_block :
      BitcoinBlock
      → GetBlockTemplateResult
      → List (Txid × TxInfo)
      → PackageStats F32
      → PackageStats F32
      → DiffCounts
      → ℕ
      → ℕ
      → UtxoMap
      → List Text
      → Option IdentificationResult
      → Option (NewBlock F32 NaiveDateTime)
  unfolding block_tags get_pool_info_or_default
  build_block block template template_infos template_pkgs block_pkgs diff block_fees template_fees
        utxos addresses identified =
      do
        block_time ← from_timestamp block.header.time
        coinbase ← head? block.txdata
        template_time ← from_timestamp template.current_time
        some (record {
          hash = reverse (block_hash block);
          prev_hash = reverse block.header.prev_blockhash;
          height = as_i32 template.height;
          tags = block_tags block;
          missing_tx = diff.missing_tx;
          extra_tx = diff.extra_tx;
          shared_tx = diff.shared_tx;
          sanctioned_missing_tx = diff.sanctioned_missing_tx;
          block_time = block_time;
          block_tx = as_i32 (length block.txdata);
          block_sanctioned =
              as_i32 (length (filter (λ tx. is_tx_sanctioned lib tx utxos addresses) block.txdata));
          block_cb_value = as_i64 (sum_by (λ o. o.value) coinbase.output);
          block_cb_fees = as_i64 block_fees;
          block_weight = as_i32 (block_weight block);
          block_pkg_weights = block_pkgs.weights;
          block_pkg_feerates = block_pkgs.feerates;
          pool = get_pool_info_or_default identified;
          template_tx = as_i32 (length template.transactions);
          template_time = template_time;
          template_sanctioned =
              as_i32
                (length (filter (λ e. is_tx_sanctioned lib e.1.tx utxos addresses) template_infos));
          template_cb_value = as_i64 template.coinbase_value;
          template_cb_fees = as_i64 template_fees;
          template_weight = as_i32 (sum_by (λ tx. tx.weight) template.transactions);
          template_pkg_weights = template_pkgs.weights;
          template_pkg_feerates = template_pkgs.feerates;
          template_sigops = as_i64 (sum_by (λ tx. tx.sigops) template.transactions);
          block_sigops = as_i64 (block_sigops block);
        })
