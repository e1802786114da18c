-- ===== src/Lib.antt =====
-- virgo-fleet: the fleet server of Virgo nodes, a Node.js program. Browsers and nodes hold sockets
-- to it; users sign in, own nodes, share them with other users and with groups, and reach a node's
-- pages and its WebRTC channel through the server.
--
-- The parts and how they act on each other:
--   * Accounts is src/services/data_service.js (sessions, TOTP, recovery codes, passwords) and
--     src/controllers/auth.js, with the revocations of src/modules/user/sessions.js. State holds the
--     rows, Sessions and Totp the operations, Requests the HTTP handlers and the step over them. A
--     store is passed on; what the code emits is a list in it. Times, fresh tokens and ids are
--     arguments; bcrypt, the TOTP check and the encryption are the record Crypto. Signup holds the
--     pending accounts, where a sign-up and a confirmation are two steps each, and Passkeys the WebAuthn
--     challenges and credentials, each with the store.
--   * Access is the rest of that service that decides who reaches which node, the handlers of
--     src/modules/node/proxy.js (node:invite, node:revoke, node:delete, group:node:add and
--     group:node:remove) and of src/modules/group/, and the sweeps of src/utils/node_proxy.js. Store
--     holds the tables; the join tables are Sequelize's and are the record Links, operations and
--     laws, which Tables fills with a list of rows. Queries and Changes follow the service's methods,
--     NodeEvents and GroupEvents the handlers, Events the step over them. A handler's outcome is
--     the store, what it makes other parts do, and its answer. Registration holds upsertNode and
--     the node tokens.
--   * SessionSockets is src/utils/session_sockets.js, the live sockets of a signed-in session.
--     Revocation in Accounts is reported to it, and its sweep runs its own listener.
--   * Webrtc is src/utils/webrtc_signal.js: State holds the module's maps, Index its reverse
--     indexes, Sessions the helpers, NodeSide and ClientSide the socket handlers, Teardown the hooks
--     that access control, a node's disconnect and revocation call, Events the step relation. A
--     session request is two events, before and after the database is asked, so that others may
--     come between.
--   * NodeAssets is src/utils/node_assets.js, HTTP requests carried over a node's control socket:
--     Requests the pending requests and the messages, Buffering the collected document.
--   * NodeControl is src/modules/node/index.js with the peering rows of src/services/data_service.js.
--     State holds the module's maps and the rows, Peers the machine ids and the peering (node:peers,
--     initialize, forgetNodePeering), Reports the other reports of a node (node:updates, node:update,
--     node:app:update:job, node:storage, node:ups, node:capabilities), Notifications what is pushed of
--     updates and of storage, Events the admission and the end of a node's socket and the step. A
--     report may come from any socket of its node, registered or not.
--   * NodeProxy is src/utils/node_proxy.js: State holds the tracked clients, the calls that wait and
--     their timers, Handlers the events of the node's and the browser's side and the disconnects.
--   * Domains is src/services/domain_service.js. Names holds the texts, which are lists of character
--     codes there, State the clusters, members and challenges, Records the DNS records, Claims
--     isAvailable and claim, Challenges the certificate challenges, the probe after them and the release
--     of names, Events the steps of src/modules/node/domain.js and src/modules/node/acme.js. The DNS
--     provider and the TLS probe are the record World; what is asked of the provider is a list.
--   * RateLimit is src/utils/socket_rate_limit.js, Connectivity is src/utils/connectivity.js.
--   * Base holds the tests, lists and maps that all of them use.
--
-- Conventions: ids, names, emails, tokens, hashes and texts that are only compared are numbers, and 0 is
-- the empty string or null where the code tests for it; a JavaScript Map is an association list in
-- insertion order and a Set a list without repetitions; a timer is a Boolean that is true while it is
-- armed, and its body a function; what a handler emits is a list of effects, and what it throws a
-- value. No function runs on fuel: every loop of the code goes over a list. A node is joined by its
-- public id, which is unique, where the database uses its primary key. A handler that awaits runs as
-- one step, where it is not split as a session request, a sign-up and a confirmation are, so two that overlap are not
-- represented: two attempts at one passkey challenge come one after the other.
--
-- Not modelled: Express and Socket.IO themselves, the database engine, mail, cookies and headers, the
-- cryptography, the DNS provider and the TLS probe, the loading of plugins, the handler around
-- upsertNode, the inventory of src/modules/node/proxy.js (buildClusters, emitNodes), and the copy of a
-- transfer to an HTTP response. The request limiter in front of a session request is modelled on its
-- own and not composed with the handler.
pub mod Base
pub mod RateLimit
pub mod Webrtc
pub mod NodeAssets
pub mod Access
pub mod SessionSockets
pub mod Accounts
pub mod Connectivity
pub mod NodeControl
pub mod NodeProxy
pub mod Domains
