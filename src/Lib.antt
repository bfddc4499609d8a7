-- ===== src/Lib.antt =====
-- The OoO provider oracle of xFUND Router, go-ooo: a node that watches the router contract for data
-- requests, fetches each price from an API and fulfils the request with a signed transaction.
--
-- The program and its model:
--   Models, Database      go-ooo/database: models, queries.go, transactions.go and migrations.go: the
--                         rows, the queries and the transactions over them
--   Gorm                  the database library, an interface with its laws; Gorm.Memory is an
--                         instance, Gorm.Available what a database that never fails adds
--   Chain.Env             the Ethereum client, the contract binding, hashes, signatures and the
--                         price API, as parameters; the node's state, `OoORouterService`
--   Chain.Monad           handlers as programs over the node that may return early
--   Chain.Caller          go-ooo/chain/caller.go: setNextTxNonce, RenewTransactOpts
--   Chain.Events          go-ooo/chain/chain.go: the event handlers and the last block
--   Chain.Start           go-ooo/chain/chain.go: NewOoORouter
--   Chain.Fulfil, Jobs    go-ooo/chain/jobs.go: fetching, sending and the queue
--   Chain.Admin           go-ooo/chain/admin_tasks.go and go-ooo/types/types.go
--   Chain.Schedule        go-ooo/service/service.go, Run and Stop: the handlers as steps in any
--                         order; a goroutine of the queue is a task that runs at any later step
--   Service.Loop          go-ooo/service/service.go, Run: the loop, its channels and the HTTP handlers,
--                         each turn of which is at most one such step
--   Service.Server, Serve go-ooo/service/echo.go: the key, the handlers and their answers
--   Cmd                   go-ooo/cmd/admin.go, analytics.go and the commands below them: the tasks, the
--                         requests that carry them and what is printed
--   Cmd.Init, Start       go-ooo/cmd/init.go and start.go: the configuration of a new node, and the
--                         start of a node from its configuration
--   OooApi                go-ooo/ooo_api/api.go: endpoint texts, Finchains queries, and the table of
--                         supported pairs
--   OooApi.Adhoc          go-ooo/ooo_api/adhoc.go: the prices of exchanges, by subgraph queries, and
--                         the tables of their tokens and pairs
--   Keystore              go-ooo/keystore: the private keys, encrypted in a file
--   App                   go-ooo/app/app.go, auth.go and go-ooo/cmd/init.go: the dialogue that makes a
--                         key store, and its unlocking at the start of the node
--   App.Server            go-ooo/app/app.go and service.go, initServer and NewService: the whole start,
--                         of the database (Database.Connection), the key store and the service
--   Service.Analytics     go-ooo/service/analytics.go: statistics and the search for a fee
--   Utils                 go-ooo/utils/utils.go: hexadecimal prefixes, ether in wei
-- The proofs: Chain.Keeps and Chain.Closed carry a property of the requests table through every
-- handler, from a proof for an inserted row and for each kind of update; Chain.Invariant gives the
-- properties; Chain.Outcome says what one handler leaves for one request, and Chain.Isolation what
-- it leaves for the others.
--
-- A handler has the source's name in snake_case, and each call of the database, the chain and the
-- API stands where the source has it, errors and early returns included. uint64 arithmetic wraps
-- (Common.Words), and int64(n) is `to_int64`. Loops run over lists. Fuel is for the
-- digits of a number, where 20 is enough for 64 bits and 400 for a total of float64 prices in wei;
-- for the pages of an exchange, as many as it has; for the rounds of the dialogue of init,
-- one more than the answers that start it over; and for the search for a fee, which may not end.
-- float64 and big.Float are an interface without laws (Utils.Floats, Service.Analytics.Types), so a
-- result about them says which operations are applied to what; where an order of them is needed it
-- is a hypothesis (Cmd.Suggestion). A panic is `none`.
--
-- Not modelled: logging, time stamps and time-outs; the interleaving inside a handler, since each
-- handler and each goroutine runs to its end; the subscriptions and their back-off; the
-- opening of the database, which is gorm's; viper, the logger, the signals and the server of metrics,
-- which are input and output; the generated binding, the contracts and the JavaScript oracle.
pub mod Common
pub mod Models
pub mod Gorm
pub mod Database
pub mod Utils
pub mod Keystore
pub mod App
pub mod OooApi
pub mod Chain
pub mod Service
pub mod Cmd
