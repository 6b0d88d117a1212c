-- ===== src/Lib.antt =====
-- Verification of zeroxyz, a bridge between REST or Kafka clients and an Ethereum node.
--
-- A client posts a transaction to the REST side (internal/maidenlanerest). Its message goes over Kafka
-- to the bridge (internal/maidenlanekafka), or straight on, to the transaction processor
-- (internal/maidenlanetx), which gives it a nonce, sends it to the node, waits for its receipt and
-- replies. The reply becomes a receipt that the client can query. Event streams
-- (internal/maidenlaneevents) deliver the events of contracts to webhooks in batches. Calls may be
-- authorised by a plugin (internal/maidenlaneauth). Arguments become Go values of the types that an
-- ABI asks for, and transactions are built and sent, in internal/maidenlaneeth. An address book
-- (internal/maidenlanetx) may say which node signs for an address.
--
-- Which file models which code:
--   Prelude            lists, maps as association lists, int64 as ℤ, decimal texts and
--                      strconv.ParseInt; Go's maps give no order, so every use of one here is by key
--                      or sorts what it reads
--   Errors             the identifiers of internal/maidenlaneerrors/errors.go
--   Auth               internal/maidenlaneauth/auth.go: WithAuthContext and the five Auth… calls. The
--                      security module is a parameter
--   Kafka              internal/maidenlanekafka/kafkabridge.go: addInflightMsg, setInFlightComplete and
--                      one round of the consumer loop (consume) and of the success loop
--                      (producer_success). Kafka.Runs has their interleavings as a step relation
--   Txn                internal/maidenlanetx/txnprocessor.go: State and Env have the processor and what
--                      it asks of the wallet, the address book and the node; Add is addInflightWrapper,
--                      Cancel is cancelInFlight and submitGapFillTX, Reply the receipt that
--                      waitForCompletion builds, Flow is OnMessage up to Send, and waitForCompletion.
--                      A call that would wait for a lock that nobody will free gives `blocked`;
--                      the calls that build and send transactions may panic
--   Eth                internal/maidenlaneeth/txn.go and send.go: Types has ABI types, JSON values and Go
--                      values with their reflect types, Numbers and Args generateTypedArg, Params
--                      generateTypedArgs and flattenParams, Outputs mapOutput and ProcessRLPBytes,
--                      Methods the ABI of a message (internal/maidenlanebind/typeutils.go), Build
--                      genEthTransaction and NewNilTX, Messages NewSendTxn, NewContractDeployTxn and
--                      CallMethod, Send Send and Call. Run has values, errors and panics. HexText and
--                      Tests have a library that fills what is asked of go-ethereum
--   Address            internal/maidenlanetx/addressbook.go: Hosts is the file of hosts of
--                      internal/maidenlaneutils/hostsfile.go, Book the lookup with its two caches
--   Stream             internal/maidenlaneevents/eventstream.go: Spec has newEventStream and update,
--                      Steps one step each of batchDispatcher and batchProcessor, of suspend, resume,
--                      stop and update, and the callbacks of logprocessor.go. Poll is a round of
--                      eventPoller with subscription.go, Subscriptions and Manager are submanager.go
--                      over a store (Kv, internal/maidenlanekvstore), whose one in memory fills the
--                      interface
--   Rest               internal/maidenlanerest: Memory is memreceipts.go, Store is receiptstore.go,
--                      Direct is webhooks.go and webhooksdirect.go, Posting is webhookskafka.go with
--                      the reports of its producer, and Traces what it keeps of one request. Json has the
--                      values that Go decodes JSON into
--
-- State is passed explicitly: a method of a Go struct is a function from the record of the struct to
-- its result and the record after it. A method that runs under a mutex is one step, and goroutines are
-- sequences of such steps in any order. Errors are values; a panic is a result of its own.
--
-- Bounds: no function runs on fuel. The loops over lists are recursive in the list. The loop of
-- waitForCompletion, which may poll for ever, is recursive in the list of the polls that are made, and
-- the theorem about it covers every list that has a poll that ends the wait. Nonces are int64 and wrap
-- as Go's do; the in-flight count of a stream is a uint64 and wraps. Numbers of receipts, and the ids
-- of transactions in flight (highestID of the package), are native numbers that do not wrap.
--
-- Not modelled: writing JSON and HTTP, logging, time (delays and elapsed times are inputs), the
-- encoding and signing that go-ethereum does, the sarama client, MongoDB and LevelDB. What the
-- code asks of these is a parameter: records of functions (SecurityModule, Env, Texts, Library, Abi,
-- Node, FilterNode, KvStore, Outside), or the answers themselves (Sending, Poll). A float64 of JSON is
-- its sign, its integer part and whether there is a fraction; in receipts, where no number is read, it
-- is an integer. Messages of errors are not modelled, so the names and paths of arguments are left out.
-- The wait for one of the concurrency slots is left out of sends by goroutines. The contract gateway,
-- the remote registry and the OpenAPI documents are not modelled either. An event stream has one
-- dispatcher here; the code starts a second one when a stream is updated after it was resumed.
mod Prelude
mod Errors
mod Auth
mod Address
mod Eth
mod Kafka
mod Rest
mod Stream
mod Txn
