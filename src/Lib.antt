-- ===== src/Lib.antt =====
-- Verification library of the block-chain platform's TypeScript code.
--
-- Parts and files, with paths from the repository's root:
-- - Common: Boolean tests, lists and case splits that all parts share.
-- - Js: the values that `JSON.parse` makes, truthiness, property access, template texts, and
--   statements that may throw (Js/Effects). The digits of a number and the wording of a TypeError are
--   the engine's and a parameter. Text is a sequence of code points, so `slice` is exact on the
--   basic plane. Keys of an object are distinct.
-- - Fetch: requests, and replies of the network, which are inputs.
-- - AuditApi: apps/web/src/lib/api.ts. `api_base_url`, `list_audit_events` and the checks are
--   `apiBaseUrl`, `listAuditEvents` and `isAuditResponse`, `isAuditEvent`, `isHex` and the rest;
--   `URLSearchParams` is a parameter.
-- - OpenBanking: apps/web/src/pages/OpenBankingDashboard.tsx. `Page` holds the `useState` variables
--   and what is under way: the jobs that wait for a reply, the timeouts, the requests sent. A handler
--   is cut at its `await`s: OpenBanking/Handlers is the part before, OpenBanking/Replies the part
--   after; a `fetch` and the `json()` of its response are one reply, since nothing is assigned between
--   them. `step` is one event of the browser, `page_after` a whole session, so replies may come in
--   any order and between any clicks.
-- - Home: apps/web/src/pages/Home.tsx in the same manner: Home/Page, Home/Handlers, Home/Replies and
--   Home/Events, where a form's button is disabled while its request is under way. A scroll
--   position is in whole pixels.
-- - AccessConsole: apps/web/src/components/AccessControlConsole.tsx, its state, buttons and handler.
-- - AuditStream: apps/web/src/components/AuditStream.tsx. AuditStream/Table renders the rows;
--   AuditStream/Typed describes them by typed events; AuditStream/Feed is a stream of typed events, under
--   the contract of AuditApi, that AuditStream/Session sets beside the component's.
-- - Forms: apps/web/src/components/IdentityModule.tsx and AssetVaultModule.tsx, two kinds of one form.
-- - Dashboard: apps/web/src/pages/Dashboard.tsx, with the copy buttons of components/WalletCard.tsx and
--   the label of the button in components/Header.tsx.
-- - Dialog: apps/web/src/components/ManusDialog.tsx over renders and changes of its own.
-- - LogCollector: `vitePluginManusDebugCollector` of vite.config.ts: `trim_log_file` is
--   `trimLogFile`, `write_to_log_file` is `writeToLogFile`, `collect_logs` the middleware. Sizes are
--   in bytes of UTF-8. Disk operations succeed; the clock and `JSON` are parameters.
-- - DebugCollector: apps/web/public/__manus__/debug-collector.js. `Store` is the script's `store`; each
--   recording is a function of the store, `step` one event of the page or one answer of the network, and
--   `collector_after` a whole session. DebugCollector/Recordings and
--   DebugCollector/Kept are the frame for properties that every step keeps;
--   DebugCollector/Redacted is about the entries of the user's actions; DebugCollector/Delivered
--   hands a report to LogCollector.
-- - StorageProxy: `vitePluginStorageProxy` of vite.config.ts. `new URL` and the headers that
--   `writeHead` takes are parameters.
-- - Deploy: contracts/scripts/deploy.ts. `main` is the script's; each call outside of it is a field of
--   `World`, and what it does to the network and the disk is a list of actions, the newest first.
--   Deploy/Told describes the settings that a manifest tells of.
-- - AssetVerifier: scripts/verify_asset.mjs and scripts/lib/asset_verifier.mjs. `verify_asset` is the
--   command as far as what it prints and its exit code; what the library ethers tests and reads is a
--   parameter.
-- - IndexerAbi: scripts/validate_indexer_abi.mjs, with the match of its regular expression written out;
--   Js/Map is `Map`. What ethers reads of the contract is a parameter.
-- - Readiness and BundleBudget: scripts/check_local_readiness.mjs and check_web_bundle_budget.mjs.
-- - Composition: apps/web/src/hooks/useComposition.ts, with the timeouts that are due as a list.
-- - Theme: apps/web/src/contexts/ThemeContext.tsx, with the storage and the root element's class.
--
-- Not modelled: the JSX beside the guards of Home's forms (its effect is to call the handlers), the
-- other pages, components and hooks (useIsMobile, usePersistFn), components/ui (copies of a library), the
-- copies of the web client in client and block, the servers, the Python services and the Solidity
-- contracts (other languages).
--
-- No function takes fuel: each recursion is structural.
pub mod Common
pub mod Js
pub mod Fetch
pub mod AuditApi
pub mod AuditStream
pub mod Forms
pub mod Dashboard
pub mod Dialog
pub mod IndexerAbi
pub mod Readiness
pub mod BundleBudget
pub mod OpenBanking
pub mod LogCollector
pub mod StorageProxy
pub mod Home
pub mod Deploy
pub mod Composition
pub mod Theme
pub mod AccessConsole
pub mod AssetVerifier
pub mod DebugCollector
