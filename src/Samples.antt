-- ===== src/Samples.antt =====
-- A concrete instance of the parameters, and a block and its template, for the witnesses.
pub mod Witnesses
pub mod Loop
pub mod Rows
pub mod Conflicts
pub mod Orders
pub mod Tables
pub mod Daemon
pub mod Comparisons
pub mod Server
use miningpool_observer.Prelude.{
  ◌≡◌, ap, ℕ, ◌<◌, Bool, true, false, not, ◌&&◌, Option, none, some, List, [], ◌∷◌, ◌++◌, map,
  length, ltb, leb, Order, nat_eq, sum_by, ℤ, pos, if◌then◌else◌,
}
use miningpool_observer.Bitcoin.{
  Bytes, Txid, OutPoint, TxIn, TxOut, Tx, Header, BitcoinBlock, TemplateTransaction,
  GetBlockTemplateResult, TxFee, Libraries,
}
use miningpool_observer.Samples.Orders.{list_le, list_total, list_trans, list_antisymm, list_order}
use miningpool_observer.Model.{TxInfo}

abbrev pub key_of : OutPoint → List ℕ
key_of o = o.vout ∷ o.txid

pub key_of_injective : (a b : OutPoint) → key_of a ≡ key_of b → a ≡ b
key_of_injective a b h = cc

abbrev by_key : Order OutPoint
by_key = record {
  le = λ a b. list_le (key_of a) (key_of b);
  le_total = λ a b. list_total (key_of a) (key_of b);
  le_trans = λ a b c. list_trans (key_of a) (key_of b) (key_of c);
  le_antisymm = λ a b h k. key_of_injective a b (list_antisymm (key_of a) (key_of b) h k);
}

-- A transaction that is only a version; its txid is the version.
abbrev pub tx_of : ℕ → Tx
tx_of n = record { version = n; lock_time = 0; input = []; output = [] }

abbrev decode : TemplateTransaction → Option Tx
decode t = elim t.raw_tx [ [] ↦ none | n ∷ _ ↦ some (tx_of n) ]

abbrev lower_half : ℕ → Bool
lower_half n = ltb n 500000000

-- Version 0 has no `RawTxInfo`.
abbrev raw_of : Tx → Option Tx
raw_of tx = if ltb 0 tx.version then some tx else none

abbrev pub sample : Libraries
sample = record {
  compute_txid = λ tx. tx.version ∷ [];
  is_coinbase = λ tx. false;
  is_lock_time_enabled = λ tx. true;
  vsize = λ tx. 1;
  weight = λ tx. 4;
  address_from_script = λ script. some script;
  is_op_return = λ script. false;
  block_hash = λ block. block.header.version ∷ [];
  block_weight = λ block. length block.txdata;
  bip34_block_height = λ block. none;
  is_signalling_soft_fork = λ version bit. false;
  template_transaction = decode;
  outpoint_order = by_key;
  bytes_order = list_order;
  LockTime = ℕ;
  from_consensus = λ n. n;
  is_block_height = lower_half;
  is_block_time = λ n. not (lower_half n);
  lock_time_gt = λ a b. lower_half a && lower_half b && ltb b a;
  InputType = ℕ;
  OutputType = ℕ;
  input_type_eq = nat_eq;
  output_type_eq = nat_eq;
  input_p2pk = 0;
  input_p2ms = 1;
  output_p2pk = 0;
  output_p2ms = 1;
  show_input_type = λ t. t ∷ [];
  show_output_type = λ t. t ∷ [];
  RawTxInfo = Tx;
  raw_tx_info = raw_of;
  input_types = λ raw. map (λ i. 2) raw.input;
  output_types = λ raw. map (λ o. 2) raw.output;
  raw_vsize = λ raw. 1;
  locktime = λ raw. raw.lock_time;
  has_non_opreturn_output_smaller_than = λ raw n. false;
  output_value_sum = λ raw. sum_by (λ o. o.value) raw.output;
  is_spending_segwit = λ raw. true;
  is_spending_taproot = λ raw. false;
  is_spending_multisig = λ raw. false;
  is_signaling_explicit_rbf_replicability = λ raw. false;
  potentially_coinjoin = λ raw. false;
  potentially_consolidation = λ raw. false;
  sigops = λ tx. some 1;
  is_p2ms_counterparty = λ tx. false;
  is_opreturn_counterparty = λ tx. false;
  is_p2sh_counterparty = λ tx. false;
  reveals_inscription = λ input. some false;
  F32 = ℕ;
  F64 = ℕ;
  f32_of = λ n. n;
  f64_of = λ n. n;
  f32_div = λ a b. a;
  f32_ge = λ a b. leb b a;
  f64_sum = sum_by (λ n. n);
  f64_div = λ a b. a;
  f32_of_f64 = λ a. a;
  NaiveDateTime = ℕ;
  from_timestamp = λ n. some n;
  show_count = λ n. n ∷ [];
}

-- A block on the block 7 with two transactions, the fees of both, and two templates on block 7.
abbrev pub sample_block : BitcoinBlock
sample_block = record {
  header = record { version = 8; prev_blockhash = 7 ∷ []; time = 50 };
  txdata = tx_of 1 ∷ tx_of 2 ∷ [];
}

abbrev pub sample_fees : List TxFee
sample_fees = record { txid = 1 ∷ []; fee = 0 } ∷ record { txid = 2 ∷ []; fee = 30 } ∷ []

abbrev pub template_tx : ℕ → TemplateTransaction
template_tx n = record { txid = n ∷ []; raw_tx = n ∷ []; fee = 20; sigops = 4; weight = 400 }

abbrev pub template_on : Bytes → List ℕ → GetBlockTemplateResult
template_on parent ns = record {
  previous_block_hash = parent;
  height = 100;
  current_time = 40;
  coinbase_value = 5000;
  transactions = map template_tx ns;
}

abbrev pub sample_info : ℕ → TxInfo
sample_info n = record { txid = n ∷ []; tx = tx_of n; position = pos 0; fee = 10 }
