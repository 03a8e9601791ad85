-- ===== src/Core/Network.antt =====
-- src/core/network.hpp.
use bitcoin_toolkit.Common.{true, ◌||◌, false, if◌then◌else◌, Bool}
use Prim.Native.String.{String}
use bitcoin_toolkit.Common.Texts.{text_eq}

pub data Network : Type 0 where
  main test : Network

unfoldable pub is_test : Network → Bool
is_test main = false
is_test test = true

pub network_name : Network → String
network_name main = "mainnet"
network_name test = "testnet"

pub parse_network : String → Network
parse_network s = if text_eq s "mainnet" then main else if text_eq s "testnet" then test else main

pub is_network_name : String → Bool
is_network_name s = text_eq s "mainnet" || text_eq s "testnet"
