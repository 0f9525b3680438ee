-- ===== src/Lib.antt =====
-- The services of this repository: auth-service (an OAuth 2.0 server), user-service (users behind a
-- cache), the crate they share, and two tools: one that generates a Postman collection from the services'
-- OpenAPI texts, and one that measures their test coverage. auth-service registers users and clients,
-- issues authorization codes and tokens, and publishes each registration to Kafka; user-service
-- consumes registrations and serves the users to requests that carry one of those tokens.
--
-- How it is modelled. A handler is a tree of calls (Effects): each database statement, Redis command,
-- clock reading, random draw and Kafka call is a node, and its reply chooses the way on. A machine
-- answers the calls from a state, and lets an arbitrary function of the state, the interference, run
-- before each: other requests, replication from the master to the replica, the expiry of cache
-- entries. A property of a handler is first proved for all replies (Ensures) by walking its steps, and
-- then holds of every run on every machine. No fuel is needed: handlers have no loops but the
-- consumer's, which is modelled on the finite sequence of what it receives. The two tools run once, on
-- files, paths and command answers that are given: they are functions to what they print and write, and
-- a panic is `none`. Their loops recurse on their lists; printing a number in decimal takes at most as
-- many rounds as the number, and it has fewer digits.
--
-- The files:
--   Prelude, Json, Http     shared notation, Rust's results, texts and integers; JSON values; responses
--   Database                tables with serial keys, sqlx errors, faults of statements
--   Effects                 trees of calls, machines, traces, and the rules that walk a handler
--   Jwt, Events             claims of a token; the event both services share, with its JSON
--   Auth                    auth-service/src: Models (models, config.rs), Errors (errors.rs), Tables
--                           (migrations), Config (config.rs), Repositories (repositories), External
--                           (the crates it calls), Calls (the calls of a handler and the machine that
--                           answers them), Cache (cache.rs), Services (services), KafkaService,
--                           Controllers (controllers/v1)
--   Shared                  shared/src: Errors, JwtAuth (middleware), Health (health.rs), Pools (db.rs)
--   User                    user-service/src: Models, UserRepository, Calls, Cache (cache.rs and
--                           shared/src/cache.rs), UserService, Consumer (kafka.rs), UserController;
--                           Coherence and Transparency relate the cache to the table
--   Postman                 postman/generator/src/main.rs: Value (serde_json's values), Text (Rust's str),
--                           Overlay (the overlay and HashMap), Operations (parse_specs), Script
--                           (build_test_script), Requests, Collection (folders and items), Specs
--                           (load_specs and main)
--   Coverage                tools/coverage/src/main.rs: Types, Paths (the root of the project), Lines,
--                           Commands (cargo llvm-cov and its reports), Print, Main
--   Tests                   concrete instances of the parameters, and the theorems at concrete inputs
--
-- A function of the source keeps its name: `OAuthService::exchange_refresh_token` is
-- `exchange_refresh_token` in Auth/Services/OAuthService/Exchange.antt, and so on.
--
-- Choices. The crates argon2, sha2, base64, hex, jsonwebtoken, serde_json and chrono are parameters
-- (External) without laws; where a theorem needs one, as that reading JSON undoes printing it, it is
-- among its hypotheses. An i32 id is a natural number, read back from JSON only below 2^31; usize is
-- 64 bits wide and wraps; the i64 of the configuration is an integer. A time is a number on one
-- clock; an f64 of the coverage tool is a parameter with its comparisons. A HashMap is iterated in an
-- arbitrary order, the one of its list, which may differ between two runs. A file is what a path
-- leads to, by a parameter of the generator's model; names that are not UTF-8 are kept apart from texts
-- in the coverage tool, where the code asks for them. A panic in a handler of auth-service (chrono's, on
-- a date out of range) ends it there as an error does. A refused or faulty INSERT may still advance the
-- serial counter. A Redis that fails is a miss or a dropped write, as in the source. Logging is left out.
--
-- Not modelled: start-up, routing tables, opening Redis and creating the Kafka clients (all wiring or
-- I/O), the parsing of command lines, tests and deployment.
pub mod Prelude
pub mod Json
pub mod Http
pub mod Database
pub mod Effects
pub mod Jwt
pub mod Auth
pub mod Events
pub mod Shared
pub mod User
pub mod Postman
pub mod Coverage
pub mod Tests
