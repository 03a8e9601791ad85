-- ===== src/Lib.antt =====
-- bitcoin-toolkit: the parts of the program that read, write and index the chain.
--
-- The program fetches blocks from a node, parses them (src/chain/transaction.cpp over
-- src/chain/compactsize.cpp), reduces each to the outpoints it spends and the outputs it creates,
-- and applies those effects to two LevelDB indexes (src/chain/balance_db.cpp, inflow_db.cpp).
--
-- Common: the names that all modules share (lists over the native numbers, Boolean tests, bytes,
--   BtkError and the results of functions that may throw). Reader: functions that take the data and
--   an offset by reference, as data to result and new offset, and what it means that such a reader
--   reads given bytes. LittleEndian: the words of 2, 4 and 8 bytes that each source file writes and
--   reads in its own helpers.
-- Core/Hash (src/core/hash.cpp): sha256, ripemd160, hash256, hash160 and tagged_hash, with the
--   compression functions and hash_padded. The modules that use hash256 or hash160 take it as a
--   parameter; Core/Hash/Sizes gives the size that they ask for, Core/Hash/Blocks the padded message. Core/Hex (src/core/hex.cpp):
--   hex_encode and hex_decode.
-- Chain/CompactSize (src/chain/compactsize.cpp): write_compact_size, read_compact_size.
-- Chain/Transaction (src/chain/transaction.cpp, .hpp): the structs, the Cursor in
--   Chain/Transaction/Cursor, parse_tx with and without `consumed` (parse_tx_prefix, parse_tx) and
--   serialize_tx. Loops over counts are recursion on the count.
-- Chain/Script (src/chain/script.cpp): address_from_script, script_from_address,
--   classify_mainnet_address, is_mainnet_address and dust_sats, over the interface AddressCodec for
--   base58check and segwit addresses. Chain/Indexer (src/chain/indexer.cpp): effects_from_block.
-- Chain/InflowDb (src/chain/inflow_db.cpp, .hpp): rows, queries and apply, as for the balances, with
--   its specification in Chain/InflowDb/Inflows.
-- Chain/Block (src/chain/transaction.cpp): parse_block, serialize_block_header, txid, wtxid and
--   block_hash over any hash256. What transaction.cpp reads of a sub-range is read of the bytes from
--   the offset on.
-- Net/P2p (src/net/p2p.cpp, .hpp): the version payload, the framing of messages, and in
--   Net/P2p/Handshake the exchange of handshake_version from the connected socket on. In
--   Net/P2p/Socket, write_exact and read_exact run over a list of what the send and recv calls
--   return; a list that is too short leaves them waiting.
-- Chain/Sync (src/chain/sync.cpp): in Chain/Sync/Queue the BoundedQueue, whose calls are sequences of
--   attempts under the mutex, and in Chain/Sync/Walk the three threads of walk_rpc_blocks, as moves
--   that may come in any order; what the node answers and how `apply` ends is told by each move.
--   Chain/Sync/Start is what happens before the threads, Chain/Sync/Display the shown hashes.
-- Core/Base58, Core/Bech32, Core/Network, Core/Privkey, Core/Pubkey and Core/Address
--   (src/core/base58.cpp, bech32.cpp, network.hpp, privkey.cpp, pubkey.cpp, address.cpp), over the
--   functions of libsecp256k1 that Core/Secp lists. encode_secret_dec has a bound on its rounds, 78,
--   the digits of 256 ^ 32, and the inner loop of convertbits one, the bits that there are.
--   Core/Bech32/Groups follows the bits that convertbits keeps, Core/Bech32/Checksum the checksum, by
--   the laws of `^` in Common/Xor.
-- Chain/Sign (src/chain/sign.cpp, .hpp): the transaction of a sweep, its estimated size, the three
--   signature hashes and sign_sweep. Cmd/Sweep (src/cmd/sweep.cpp): sweep_one, from the answers of the
--   node to what is sent.
-- Chain/BalanceDb (src/chain/balance_db.cpp, .hpp): the keys and encodings, the queries, and apply
--   with its batch and its maps balances and created (Pending). Chain/LevelDb is the interface of the
--   database (Get, Write of a batch in order) and Chain/HashMap the unordered maps, whose iteration
--   order is a parameter. Chain/BalanceDb/Ledger is the specification that apply implements.
--
-- Bytes are numbers below 256; signed integers are kept as their bit patterns; sums that can wrap
-- are written with their modulus. All other loops are bounded by a count or a list, of items or of
-- system calls.
--
-- Not modelled: opening the database and the directory names (file system, environment), name
-- resolution and connect, printing (system calls and output). Scripts and addresses take the
-- encodings through AddressCodec. JSON-RPC, the parsing of options and the other commands have no
-- model yet; picojson, libsecp256k1 and LevelDB are other projects.
pub mod Common
pub mod Reader
pub mod LittleEndian
pub mod Chain
pub mod Net
pub mod Core
pub mod Cmd
