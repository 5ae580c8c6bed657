-- ===== src/Wire.antt =====
-- What the program uses of btcd: the message types, the hash of a transaction, and the reading of
-- scripts, which are parameters of the model.
use gobalance.Common.{Int64, ℕ, String, Option, List}
use gobalance.Primitives.{Hash}

-- the classes of scripts that the program tells apart
pub data ScriptClass : Type 0 where
  pub_key_hash pub_key script_hash other : ScriptClass

pub record OutPoint : Type 0 where
  pub hash : Hash
  pub index : ℕ

pub record WireOut : Type 0 where
  pub value : Int64
  pub pk_script : List ℕ

pub record WireTx : Type 0 where
  pub tx_in : List OutPoint
  pub tx_out : List WireOut

pub record WireBlock : Type 0 where
  pub prev_block : Hash
  pub transactions : List WireTx

pub record Wire : Type 0 where
  -- the double hash of the serialised transaction, and that of the block header
  pub tx_hash : WireTx → Hash
  pub block_hash : WireBlock → Hash
  -- the class and the encoded addresses of a script; `none` is an error
  pub extract_pk_script_addrs : List ℕ → Option (ScriptClass × List String)
