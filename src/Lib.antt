-- ===== src/Lib.antt =====
-- Xianyu manager: the back end that answers, ships and confirms for the accounts of a second-hand
-- seller. The Python code under app/ and utils/ is modelled as functions on values: a method of a
-- stateful object takes the object's state and returns it with its result, an exception is a value,
-- and a dictionary is the list of its entries.
--
-- The parts, and the files that model them:
--   Prelude, Dict, Text      numbers, lists and Booleans; Python's `dict` and `str`.
--   Runtime/Dedupe           app/runtime/dedupe.py: ids of messages that were seen in a window of time.
--   Runtime/MessagePipeline  app/runtime/message_pipeline.py: the texts of an event (Texts), its fields
--                            and route (Routes, Parse), and the queue by priority, from which messages
--                            are handled once (Queue), with the deduplicator above.
--   Runtime/WsClient         app/runtime/ws_client.py: the connection of an account, its loop (Loop), and the
--                            task that runs it in the background (Background).
--   Runtime/AccountRegistry  app/runtime/account_registry.py: the accounts that run.
--   Runtime/TokenRefresh     app/runtime/token_refresh.py: the protected merge of cookies, the token.
--   Services/ReplyPolicy     app/services/reply_policy.py: the reply by the seller's rules.
--   Services/AiReply         app/services/ai_reply.py: providers, and the context of a conversation.
--   Services/Shipping        app/services/shipping.py: the delivery that a rule gives (Choice).
--   Services/LoginService    app/services/login_service.py: QR and password logins of accounts; Verdict
--                            is what the browser's result makes of a session, Tasks the background
--                            login in every interleaving with cancellations.
--   Services/AutoConfirm     app/services/auto_confirm.py: statuses of orders, and their transitions.
--   Auth/RateLimiter         app/auth/rate_limiter.py: failures of logins, blocks, locks, delays; its
--                            records are in Auth/Records.
--   Auth/Sessions            app/auth/sessions.py: sessions of the administrator.
--   Auth/Credentials         app/auth/service.py: the check of the administrator's name and password.
--   Auth/Tokens              app/api/dependencies.py: the token that a request shows.
--   Auth/ClientAddress       app/api/routers/auth.py: the address that a login counts for.
--   Auth/Login               app/api/routers/auth.py: the handlers of login and logout, which use both.
--   Db                       app/db/schema.py: the table of accounts, which logins and requests change.
--   Api/Accounts             app/api/routers/accounts.py, account_compat.py, runtime.py: the requests on
--                            accounts; Running starts and stops them, Logins is over Services/LoginService;
--                            Sync keeps the table and the
--                            registry in step.
--   Api/RiskLogs             app/api/routers/runtime.py: the logs of risks, by pages.
--   Api/Shipping             app/api/routers/shipping.py: the requests on delivery cards and rules
--                            (Requests), over tables with primary keys (Api/Table) that the delivery
--                            of Services/Shipping reads.
--   Api/Replies              app/api/routers/replies.py: the requests on keywords and replies, over the
--                            tables that Services/ReplyPolicy reads, with export and import.
--   Utils/MessagePack        utils/xianyu_utils.py: the decoder of the platform's binary messages; Utf8
--                            is the decoding of its texts, Encode a writer that is its specification.
-- A module's children hold its proofs; Examples holds its tests and the theorems at concrete values. A
-- definition has the name of the function or the class of the source that it models.
--
-- Time is a number that each call is given: ticks for the deduplicator, milliseconds in Auth. Code that
-- holds a lock, or that no other coroutine can interrupt, is one step. Numbers that the source keeps as
-- unbounded integers are unbounded; a 64-bit field of a binary message is a sum of its bytes.
-- The decoder recurses on fuel, one more than the number of bytes; each value takes a byte, so this
-- is enough. The collection of texts takes as fuel the depth in which texts of JSON stand in each
-- other, at most the characters of the longest; with less, the parser's `except` clause is taken. The
-- digits of a number take the number as fuel.
-- Tables of SQLite are lists of rows in the order in which a query without an order reads them.
--
-- Parameters: bcrypt and PBKDF2; the parsing of an address; Python's `int` of a text, lower case,
-- regular expressions, `json.loads`, `str.isdigit` and the text of a list or dict; the comparison of a
-- number with a float; the outcome of a handler or of the start of a task; the renewal of cookies by the
-- platform.
-- Not modelled: the browser automation of utils/, HTTP, SQL beyond the queries of the services, the
-- routers other than login, accounts, risk logs, shipping and replies, the front end, and logging.
pub mod Prelude
pub mod Dict
pub mod Runtime
pub mod Utils
pub mod Api
pub mod Db
pub mod Auth
pub mod Text
pub mod Services
