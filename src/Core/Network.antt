-- ===== src/Core/Network.antt =====
-- soulon-wallet/src/config/network.ts: the three networks.
use soulon_wallet.Prelude.{codes}
use soulon_wallet.Core.Types.{ChainEnvironment, dev, testnet, mainnet, NetworkConfig}

unfoldable pub get_network_config : ChainEnvironment → NetworkConfig
get_network_config dev = record {
  chain_id = codes "soulon-dev-1";
  bech32_prefix = codes "soulon";
  rpc_endpoint = codes "http://127.0.0.1:26657";
  rest_endpoint = codes "http://127.0.0.1:1317";
  grpc_endpoint = codes "http://127.0.0.1:9090";
  denom = codes "usoul";
  gas_price = codes "0.025usoul";
}
get_network_config testnet = record {
  chain_id = codes "soulon-testnet-1";
  bech32_prefix = codes "soulon";
  rpc_endpoint = codes "https://rpc-testnet.soulon.io";
  rest_endpoint = codes "https://api-testnet.soulon.io";
  grpc_endpoint = codes "https://grpc-testnet.soulon.io";
  denom = codes "usoul";
  gas_price = codes "0.025usoul";
}
get_network_config mainnet = record {
  chain_id = codes "soulon-mainnet-1";
  bech32_prefix = codes "soulon";
  rpc_endpoint = codes "https://rpc.soulon.io";
  rest_endpoint = codes "https://api.soulon.io";
  grpc_endpoint = codes "https://grpc.soulon.io";
  denom = codes "usoul";
  gas_price = codes "0.025usoul";
}
