-- ===== src/Lib.antt =====
-- The scripts of the VinuChain registry of tokens and contracts: the checks that a pull request
-- has to pass before an entry is listed, the capture of the hashes that these checks compare, and
-- the updater of the price oracle of the name service. The scripts stand in scripts/, with helpers
-- in scripts/utils and one validator per file in scripts/validators. The registry script reads
-- each entry with the safe JSON reader, checks its address, URLs, email and logo, reads sources
-- and ABIs of contracts, and a second run compares the entries with the chain.
--
-- Prelude holds the shared names: Boolean tests on native numbers, lists, texts as lists of UTF-16
-- code units, and Outcome, the result of code that may throw or that returns early with an error.
-- Regex has regular expressions as data, matched by derivatives, so that each literal of the
-- scripts is written down as it stands. Case mapping is that of ASCII, but where a symbol is
-- compared with the one on the chain: there toUpperCase is a parameter. Numbers has the numbers of
-- JavaScript as far as parseInt gives them, and Json the parsed values. FileSystem is the part of
-- fs that is called, as a record of functions. FilePath models path.join and path.resolve of Node
-- on POSIX.
--
-- SafeJson models scripts/utils/safe-json.js (safeParse, safeReadJSON, loadSchema,
-- sanitizeForTerminal). Files, Address and Url model scripts/utils/file-utils.js, address-
-- validator.js and url-validator.js beside it; Abi, Email and Logo model the validators of these
-- names in scripts/validators. The names of the functions are those of the source in snake case.
-- An error or a warning is a constructor; the text of its message is left out, with the context
-- that it names.
--
-- Registry models validateTokens of scripts/validate.js, with the tables of the module as a record
-- and the error and warning counters of scripts/utils/logger.js in it. An entry that is passed
-- over counts its errors and warnings. Registry.Invariant is about the tables, Registry.Keys about
-- their keys, Registry.Entry the checks of one directory, and Registry.Complete the loop.
-- Registry.References models validateCrossReferences, and Registry.Contracts
-- validateContractFiles, validateContracts and main, whose result is the exit code. The exit of
-- the process over a ceiling is none.
--
-- Solidity models scripts/validators/solidity-validator.js; the warnings and errors are
-- constructors.
--
-- Onchain models scripts/validators/onchain-validator.js: Onchain.Rpc the requests, the endpoint
-- lists and the probing of endpoints (rawJsonRpc, rpcUrlsForChain, probeEndpoint,
-- resolveCheckedRpc), Onchain.Strings the decoding of ABI strings (decodeAbiString),
-- Onchain.Checks the two checks of an entry (checkToken, checkContractCode), and Onchain.Run the
-- loop over chains and its counters (runOnchainChecks). Platform is what these functions call:
-- fetch, keccak256, the UTF-8 decoder, toUpperCase and the environment. The chain does not change
-- during a run, so a request is a function of the endpoint and the call.
--
-- Oracle models scripts/update-vns-oracle.js. Oracle.Rpc has the lists of endpoints and their
-- health check (parseRpcUrls, parseQuantity, probeRpcEndpoint, resolveCheckedProvider),
-- Oracle.Price the reads of the pools and the reconciliation of the prices (divFloor,
-- readPoolTwap, fetchPoolPrice, reconcileVnsPrice, toOracleAnswer), Oracle.Update the checks
-- before an update (toOracleSourceTag, verifyOracleForUpdate) with setLatestAnswer of
-- contracts/vns/VinuUsdOracle.sol beside them, Oracle.Broadcast the attempts
-- (assertNoStuckPendingTx, feeOverrides, broadcastWithRetries), and Oracle.Run fetchCoinGeckoPrice
-- and main. A floating-point number is of a type with its operations, both parameters. The node is
-- a machine with opaque states, and the transactions that are handed to it are kept in a list.
--
-- Capture models scripts/capture-codehashes.js, over the endpoints and the entries of Onchain: the
-- pins that it writes (applyPin), and main with its exit code. A target is a token or a contract.
--
-- Parameters stand for what is not in the repository: JSON.parse, the WHATWG URL parser, the
-- compiled JSON schema, getAddress and keccak256 of ethers, fetch and fs, the floating-point
-- arithmetic, the number of bytes of a text and the node. One theorem assumes that a text in ASCII
-- has as many bytes as code units, the one on fees that the factor of an attempt is at least one,
-- the one on captured pins that a hash is not the empty text, and the two on the contract of the
-- oracle that its bound on a change is within the contract's ceiling and that its stored answer is
-- below 2 ^ 240.
--
-- Two functions take fuel. The check of an ABI parameter, whose components nest, is given one more
-- than the depth of the value, which is enough because each component has less depth than its
-- parameter. The printing of a number in base ten takes the number and one as fuel, and a number
-- has at most that many digits. All else is structural recursion.
--
-- Not modelled: loadCollisionAllowlist of scripts/validate.js, collectTargets of scripts/capture-
-- codehashes.js, the output of the logger, the loading of the entries in scripts/validate-
-- onchain.js, the marketplace and token list builders, the scripts of the quota contracts, and
-- those that deploy contracts or hand over their ownership. Registered sources and generated type
-- declarations are data of the registry and not part of the program.
pub mod Prelude
pub mod Numbers
pub mod Regex
pub mod Json
pub mod FileSystem
pub mod SafeJson
pub mod Abi
pub mod FilePath
pub mod Files
pub mod Address
pub mod Url
pub mod Email
pub mod Logo
pub mod Solidity
pub mod Registry
pub mod Onchain
pub mod Oracle
pub mod Capture
pub mod Examples
