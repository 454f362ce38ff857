-- ===== src/Lib.antt =====
-- risk-sentinel: verification of the core of a monitor that reads event logs from blockchains,
-- evaluates risk rules on them and sends alerts.
--
-- The parts of the program. An event source polls a chain adapter for ranges of blocks, turns each
-- raw log into a signal and puts it into a ring buffer; a risk engine takes the signals out, routes
-- each by its type to the rules that are interested, and hands the alerts that the rules append to a
-- dispatcher, which drops repetitions by a deduplicator and sends the rest to its channels.
--
-- Which file models which part:
--   Common               shared names; `Common/Assoc` is std::unordered_map as an association list,
--                        `Common/Results` an outcome of a call that may throw, `Common/Digits`
--                        std::to_string, `Common/Bits` the bitwise or of disjoint bits,
--                        `Common/Splits` texts taken apart at a separator.
--   Hex                  include/sentinel/events/utils/hex.hpp: hex_nibble, parse_hex_uint64,
--                        parse_hex_bytes, validate_hex, to_hex_quantity, to_be_256, greater_be_256,
--                        uint256_be_to_decimal and decimal_to_be_256 under their names; its
--                        children are about values, order, printing and parsing.
--   Signal               include/sentinel/risk/signal.hpp, and Alert of
--                        include/sentinel/risk/alert_dispatcher.hpp.
--   Rules                what the rules share: the loop over a bucket of configurations, the guard
--                        on raw logs, the address in hex. Rules/LargeTransfer, Rules/Approval,
--                        Rules/MintBurn, Rules/Governance, Rules/BridgeTransfer and
--                        Rules/OracleUpdate are the rules of src/risk/rules/ and
--                        include/sentinel/risk/rules/, each with its `evaluate`.
--   Dedup                src/risk/alert_deduplicator.cpp: should_suppress and
--                        cleanup_stale_entries, with build_key; its children are about keys, the
--                        clean-up, one call, and runs of calls.
--   Normalize            src/events/normalize.cpp: normalize, with classify_topic0; its topics
--                        are in Topics.
--   EventSource          src/events/EventSource.cpp: poll_once and run; the adapter's answers and the
--                        clocks of a poll are a record `Surroundings`.
--   Engine               src/risk/risk_engine.cpp: register_rule and run, over an interface of rules
--                        that Engine/AnyRule fills with the rules above.
--   Formatter            src/risk/alert_formatter.cpp: format_telegram and format_console.
--   Health               src/health/health_checks.cpp: evaluate_readiness.
--   Pipeline             src/events/normalize.cpp before the rules: from a log to an alert.
--   Dispatcher           src/risk/alert_dispatcher.cpp: its calls and the rounds of its loop as steps.
--   Backtest             src/backtest/backtest_config.cpp and src/backtest/backtest_app.cpp: the YAML
--                        library is the interface Backtest/Yaml; Backtest/Fields reads single
--                        fields, Backtest/Sections, Backtest/Feeds and Backtest/Load the sections
--                        and the file, Backtest/Customers is validate_customer_ids, and Backtest/App
--                        the parts of a run; its other children are about these.
--   Security             src/security/crypto.cpp: the functions on keys, encryption and signatures; what
--                        the calls of OpenSSL return is the record `Openssl`, and what is documented
--                        of AES-256-GCM the record `IsGcm` of Security/Seal.
--   Admin                src/admin/encrypt_secret.cpp: encrypt_secret_command, with std::stoull in
--                        Common/Stoull.
--   App                  src/app/app.cpp: App/Rows and App/Loaders read the rows of the database, an
--                        interface, App/Database the tables and register_rules_, App/Webhooks
--                        load_webhook_channels_, and App/Lifecycle is run with what it calls to start
--                        and to stop; App/Provision is about the secrets of webhooks, App/Stops and
--                        App/Ends about the shutdown, App/Agrees about both kinds of configuration.
--   Rpc                  src/rpc/JsonRpcClient.cpp: call; the JSON library is the interface `JsonValue`.
--   Chains               src/chains/arbitrum/ArbitrumAdapter.cpp, which
--                        src/chains/ethereum/EthereumAdapter.cpp repeats: the requests; Chains/Quantity
--                        is about parseHexU64, and Chains/Node about a node's answers.
--   Webhook              src/risk/webhook_alert_channel.cpp: send, with its signature.
--
-- State is passed on: an operation takes the record of a class's members and returns the new one.
-- `out`, to which a rule appends, is an argument and a result. Unsigned integers are native numbers
-- below the power of two of their width; where an operation of the source can wrap around, the
-- remainder is written out. Byte arrays and strings are lists of bytes. An exception is the value
-- `err` with its text. A std::unordered_map is an association list with one entry for each key that
-- was inserted, and no result depends on its order.
--
-- Bounds and fuel. The retry loop of a poll has the range of blocks as fuel and one round more,
-- since each retry makes the range smaller. The decimal printer runs on 78 rounds, since a number of
-- 32 bytes is below 10 ^ 78. The hex printer has 16 digits for 64 bits.
--
-- The application tries 15 times to connect to its database. Its run is the sequence of the calls that it
-- makes; where it waits for a thread or for `request_stop`, the calls behind are those that follow if the
-- wait ends.
--
-- Not modelled: metrics, logging, the output of the other channels, HTTP, the statements to the
-- database, the ciphers themselves, threads and the flags of the entry point, which are input and
-- output or calls of third-party libraries; and the members of the classes that only carry them.
pub mod Common
pub mod Hex
pub mod Signal
pub mod Rules
pub mod Dedup
pub mod Topics
pub mod Normalize
pub mod EventSource
pub mod Engine
pub mod Dispatcher
pub mod Pipeline
pub mod Formatter
pub mod Health
pub mod Backtest
pub mod Security
pub mod Admin
pub mod App
pub mod Rpc
pub mod Chains
pub mod Webhook
