-- ===== src/Build.antt =====
-- block_manager/block_manager.go and primitives/primitives.go: how a block of the wire becomes a
-- block of the program, without the addresses and the values of its inputs.
use gobalance.Common.{ℕ, ◌+◌, ◌%◌, String, none, some, List, [], ◌∷◌, map}
use gobalance.Primitives.{Hash, TxOut, Tx, Block, new_tx_out, new_tx, new_block}
use gobalance.Wire.{
  ScriptClass, Wire, WireTx, WireBlock, WireOut, OutPoint, pub_key_hash, pub_key, script_hash,
  other,
}

-- `PkScriptToAddr` of primitives/primitives.go
unfoldable pub first_address : ScriptClass → List String → String
first_address c [] = ""
first_address pub_key_hash (a ∷ _) = a
first_address pub_key (a ∷ _) = a
first_address script_hash (a ∷ _) = a
first_address other (a ∷ _) = ""

unfoldable pub pk_script_to_addr : Wire → List ℕ → String
unfolding first_address
pk_script_to_addr w pk_script = elim (w.extract_pk_script_addrs pk_script) [
  | none ↦ ""
  | some (c, addresses) ↦ first_address c addresses
]

module _ (w : Wire) where
  -- the two loops of `buildTx`; `uint32(nout)` wraps
  unfoldable pub build_outs : Hash → ℕ → List WireOut → List TxOut
  build_outs hash nout [] = []
  build_outs hash nout (o ∷ os) =
      new_tx_out hash (nout % 4294967296) (pk_script_to_addr w o.pk_script) o.value
      ∷ build_outs hash (nout + 1) os

  unfoldable pub build_ins : List OutPoint → List TxOut
  build_ins [] = []
  build_ins (i ∷ is) = new_tx_out i.hash i.index "" 0 ∷ build_ins is

  unfoldable pub build_tx : WireTx → Tx
  build_tx t = record (new_tx (w.tx_hash t)) {
    ins = build_ins t.tx_in;
    outs = build_outs (w.tx_hash t) 0 t.tx_out;
  }

  unfoldable pub build_block : Hash → WireBlock → ℕ → Block
  build_block hash block height = record (new_block hash block.prev_block height) {
    transactions = map build_tx block.transactions;
  }
