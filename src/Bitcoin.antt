-- ===== src/Bitcoin.antt =====
-- The data of the Bitcoin crates that the daemon reads, as their public structures, and the
-- functions of those crates that it calls, as a record of parameters.
use miningpool_observer.Prelude.{
  ℕ, ◌≡◌, ◌↔◌, Bool, true, ◌&&◌, Option, List, PartialEq, ◌==◌, list_eq, nat_eq, Order, beq→eq,
  beq_refl, arith,
}

-- Bytes, and texts as their UTF-8 bytes. Hashes are in the order of `to_byte_array`.
abbrev pub Bytes : Type 0
Bytes = List ℕ

abbrev pub Text : Type 0
Text = List ℕ

abbrev pub Txid : Type 0
Txid = Bytes

abbrev pub BlockHash : Type 0
BlockHash = Bytes

pub record OutPoint : Type 0 where
  pub txid : Txid
  pub vout : ℕ

pub record TxIn : Type 0 where
  pub previous_output : OutPoint
  pub script_sig : Bytes
  pub sequence : ℕ
  pub witness : List Bytes

-- The value is in satoshi.
pub record TxOut : Type 0 where
  pub value : ℕ
  pub script_pubkey : Bytes

pub record Tx : Type 0 where
  pub version : ℕ
  pub lock_time : ℕ
  pub input : List TxIn
  pub output : List TxOut

pub record Header : Type 0 where
  pub version : ℕ
  pub prev_blockhash : BlockHash
  pub time : ℕ

pub record BitcoinBlock : Type 0 where
  pub header : Header
  pub txdata : List Tx

-- An entry of `GetBlockTemplateResult.transactions`, with the raw bytes of the transaction.
pub record TemplateTransaction : Type 0 where
  pub txid : Txid
  pub raw_tx : Bytes
  pub fee : ℕ
  pub sigops : ℕ
  pub weight : ℕ

pub record GetBlockTemplateResult : Type 0 where
  pub previous_block_hash : BlockHash
  pub height : ℕ
  pub current_time : ℕ
  pub coinbase_value : ℕ
  pub transactions : List TemplateTransaction

pub record TxFee : Type 0 where
  pub txid : Txid
  pub fee : ℕ

-- The derived `PartialEq`.
abbrev pub outpoint_beq : OutPoint → OutPoint → Bool
outpoint_beq a b = a.txid == b.txid && a.vout == b.vout

pub outpoint_beq_iff : (a b : OutPoint) → (outpoint_beq a b ≡ true) ↔ (a ≡ b)
outpoint_beq_iff a b = (
  λ h. ground (arith, beq→eq a.txid b.txid),
  λ h. rw h (ground (arith, beq_refl b.txid, beq_refl b.vout)),
)

instance abbrev pub outpoint_eq : PartialEq OutPoint
outpoint_eq = record { equal = outpoint_beq; equal_iff = outpoint_beq_iff }

-- What rawtx_rs reports about a transaction, and what the bitcoin crate computes.
pub record Libraries : Type 1 where
  -- bitcoin
  pub compute_txid : Tx → Txid
  pub is_coinbase : Tx → Bool
  pub is_lock_time_enabled : Tx → Bool
  pub vsize : Tx → ℕ
  pub weight : Tx → ℕ
  pub address_from_script : Bytes → Option Text
  pub is_op_return : Bytes → Bool
  pub block_hash : BitcoinBlock → BlockHash
  pub block_weight : BitcoinBlock → ℕ
  pub bip34_block_height : BitcoinBlock → Option ℕ
  pub is_signalling_soft_fork : ℕ → ℕ → Bool
  pub template_transaction : TemplateTransaction → Option Tx
  pub outpoint_order : Order OutPoint
  pub bytes_order : Order Bytes
  -- absolute lock times
  pub LockTime : Type 0
  pub from_consensus : ℕ → LockTime
  pub is_block_height : LockTime → Bool
  pub is_block_time : LockTime → Bool
  pub lock_time_gt : LockTime → LockTime → Bool
  -- rawtx_rs
  pub InputType : Type 0
  pub OutputType : Type 0
  pub input_type_eq : PartialEq InputType
  pub output_type_eq : PartialEq OutputType
  pub input_p2pk : InputType
  pub input_p2ms : InputType
  pub output_p2pk : OutputType
  pub output_p2ms : OutputType
  pub show_input_type : InputType → Text
  pub show_output_type : OutputType → Text
  pub RawTxInfo : Type 0
  pub raw_tx_info : Tx → Option RawTxInfo
  pub input_types : RawTxInfo → List InputType
  pub output_types : RawTxInfo → List OutputType
  pub raw_vsize : RawTxInfo → ℕ
  pub locktime : RawTxInfo → LockTime
  pub has_non_opreturn_output_smaller_than : RawTxInfo → ℕ → Bool
  pub output_value_sum : RawTxInfo → ℕ
  pub is_spending_segwit : RawTxInfo → Bool
  pub is_spending_taproot : RawTxInfo → Bool
  pub is_spending_multisig : RawTxInfo → Bool
  pub is_signaling_explicit_rbf_replicability : RawTxInfo → Bool
  pub potentially_coinjoin : RawTxInfo → Bool
  pub potentially_consolidation : RawTxInfo → Bool
  pub sigops : Tx → Option ℕ
  pub is_p2ms_counterparty : Tx → Bool
  pub is_opreturn_counterparty : Tx → Bool
  pub is_p2sh_counterparty : Tx → Bool
  pub reveals_inscription : TxIn → Option Bool
  -- f32 and f64
  pub F32 : Type 0
  pub F64 : Type 0
  pub f32_of : ℕ → F32
  pub f64_of : ℕ → F64
  pub f32_div : F32 → F32 → F32
  pub f32_ge : F32 → F32 → Bool
  pub f64_sum : List F64 → F64
  pub f64_div : F64 → F64 → F64
  pub f32_of_f64 : F64 → F32
  -- chrono, and decimal printing
  pub NaiveDateTime : Type 0
  pub from_timestamp : ℕ → Option NaiveDateTime
  pub show_count : ℕ → Text
