-- ===== src/Oracle.antt =====
-- scripts/update-vns-oracle.js, which reads the price of the token and writes it to the oracle
-- contract. The children follow the script: the endpoints, the prices, the update, and the broadcast.
pub mod Rpc
pub mod Price
pub mod Update
pub mod Broadcast
pub mod Run
