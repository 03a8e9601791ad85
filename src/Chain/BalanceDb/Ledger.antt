-- ===== src/Chain/BalanceDb/Ledger.antt =====
-- The specification of the index: a ledger that every update changes at once, with no batch, no
-- cache and no encoding.
use bitcoin_toolkit.Common.{
  ℕ, ◌+◌, ◌-◌, ◌%◌, ◌^◌, ◌<◌, ◌≡◌, ◌||◌, false, Option, none, some, List, [], ◌∷◌, ◌++◌, Bytes, All,
  length, bytes_eq, ltb, ◌==◌, if◌then◌else◌, ok,
}
use bitcoin_toolkit.Chain.LevelDb.{LevelDb}
use bitcoin_toolkit.Chain.BalanceDb.{
  OutpointRef, Credit, TxEffects, Coin, key_o, get_sats, get_outpoint,
}

-- The balance of each address, and the coin behind each outpoint's key.
pub record Ledger : Type 0 where
  pub sats : Bytes → ℕ
  pub coins : Bytes → Option Coin

abbrev pub update {ℓ} : {V : Type ℓ} → (Bytes → V) → Bytes → V → Bytes → V
update f k v j = if bytes_eq k j then v else f j

abbrev pub minus : ℕ → ℕ → ℕ
minus cur amount = if ltb cur amount then 0 else cur - amount

-- The coin leaves the ledger, if there is one.
abbrev pub take_coin : Ledger → Bytes → Option Coin → Ledger
take_coin l k none = l
take_coin l k (some c) = record {
  sats = update l.sats c.address (minus (l.sats c.address) c.amount);
  coins = update l.coins k none;
}

abbrev pub key : OutpointRef → Bytes
key sp = key_o sp.txid sp.vout

unfoldable pub spend_coin : Ledger → OutpointRef → Ledger
spend_coin l sp = take_coin l (key sp) (l.coins (key sp))

abbrev pub coin : Credit → Coin
coin c = record { address = c.address; amount = c.amount }

unfoldable pub add_coin : Ledger → Credit → Ledger
add_coin l c = if (length c.address == 0) || (c.amount == 0) then l else record {
  sats = update l.sats c.address ((l.sats c.address + c.amount) % 2 ^ 64);
  coins = update l.coins (key_o c.txid c.vout) (some (coin c));
}

unfoldable pub spend_coins : Ledger → List OutpointRef → Ledger
spend_coins l [] = l
spend_coins l (sp ∷ rest) = spend_coins (spend_coin l sp) rest

unfoldable pub add_coins : Ledger → List Credit → Ledger
add_coins l [] = l
add_coins l (c ∷ rest) = add_coins (add_coin l c) rest

-- Transactions in block order; each spends before it creates.
unfoldable pub apply_block : Ledger → List TxEffects → Ledger
apply_block l [] = l
apply_block l (te ∷ rest) = apply_block (add_coins (spend_coins l te.spends) te.credits) rest

unfoldable pub block_spends : List TxEffects → List OutpointRef
block_spends [] = []
block_spends (te ∷ rest) = te.spends ++ block_spends rest

-- No outpoint is spent twice.
abbrev pub IsDistinct : List OutpointRef → Type 0
IsDistinct [] = Unit
IsDistinct (sp ∷ rest) = All (λ q. bytes_eq (key sp) (key q) ≡ false) rest × IsDistinct rest

-- Sizes that fit the encodings.
abbrev pub IsValidCredit : Credit → Type 0
IsValidCredit c = (length c.address < 2 ^ 63) × (c.amount < 2 ^ 64)

abbrev pub IsValidBlock : List TxEffects → Type 0
IsValidBlock txs =
    All (λ (te : TxEffects). All IsValidCredit te.credits) txs × IsDistinct (block_spends txs)

module _ (L : LevelDb) where
  open L use {Db}

  -- Every query of the database answers, and answers with the ledger.
  pub record Represents (db : Db) (l : Ledger) : Type 0 where
    pub sats : (a : Bytes) → get_sats L db a ≡ ok (l.sats a)
    pub coins : (t : Bytes) (v : ℕ) → get_outpoint L db t v ≡ ok (l.coins (key_o t v))
    pub bounded : (a : Bytes) → l.sats a < 2 ^ 64
