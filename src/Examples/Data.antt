-- ===== src/Examples/Data.antt =====
-- Two transactions, two blocks, and a range that meets the entries of a map as they are listed.
use gobalance.Common.{refl, [], ◌∷◌}
use gobalance.Primitives.{Tx, Block, RangeOrder, IsRangeOrder}

abbrev pub listed : RangeOrder
listed t m = m

pub listed_ranges : IsRangeOrder listed
listed_ranges t m u = record { unique = u; same = λ k. refl }

-- pays 50 to "alice"
abbrev pub mint : Tx
mint = record {
  hash = 11;
  ins = record { tx_hash = 0; nout = 4294967295; addr = ""; value = 0 } ∷ [];
  outs = record { tx_hash = 11; nout = 0; addr = "alice"; value = 50 } ∷ [];
}

-- spends it: 30 for "bob", 20 back
abbrev pub pay : Tx
pay = record {
  hash = 12;
  ins = record { tx_hash = 11; nout = 0; addr = "alice"; value = 50 } ∷ [];
  outs =
      record { tx_hash = 12; nout = 0; addr = "bob"; value = 30 }
      ∷ record { tx_hash = 12; nout = 1; addr = "alice"; value = 20 }
      ∷ [];
}

abbrev pub block_one : Block
block_one = record { hash = 1; prev_hash = 0; height = 1; transactions = mint ∷ [] }

abbrev pub block_two : Block
block_two = record { hash = 2; prev_hash = 1; height = 2; transactions = pay ∷ [] }
