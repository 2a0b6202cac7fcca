-- ===== src/Lib.antt =====
-- XDCID: names on the XDC Network, their prices, and payments to them across networks.
--
-- The files under frontend/ are a web application. Its server routes and pages call a layer of
-- libraries in frontend/lib, which this development models:
--
-- * Names (frontend/lib/names.ts): parseXnsName and parseResolvableXnsName, on lists of UTF-16 code
--   units.
-- * Pricing (frontend/lib/pricingPolicy.ts): prices in millionths of a dollar and in wei.
-- * Discounts (frontend/lib/domainDiscounts.ts): the grants that are signed and the prices they leave.
-- * Networks (frontend/config/paymentNetworks.ts), Networks/Routing (frontend/lib/paymentRouting.ts)
--   and Networks/Capabilities (frontend/lib/paymentRouteCapabilities.ts): the networks of payments.
-- * Cctp and Cctp/Requests (frontend/lib/cctpMainnet.ts): amounts, fees and the contract calls of a
--   transfer; Cctp/Logs (frontend/lib/forwardingFeeVerification.ts and
--   frontend/lib/forwardingBurnVerification.ts): what the logs of a transaction prove.
-- * Recovery (frontend/lib/forwardingRecovery.ts), Recovery/Store
--   (frontend/lib/forwardingRecoveryStore.ts), Recovery/Route and Recovery/Route/Post
--   (frontend/app/api/cctp/forwarding-recovery/route.ts): a fee that was paid for an automatic
--   transfer is registered once its transaction is verified, and consumed for one burn;
--   Recovery/Monitor (frontend/lib/forwardingFailureMonitor.ts): the report of the fees that have
--   no burn yet.
-- * Pay (frontend/lib/paylinks.ts), Pay/Requests (frontend/lib/paymentRequests.ts), Pay/Cancellation
--   (frontend/lib/paymentCancellation.ts), Pay/Settlement (frontend/lib/payLinkSettlement.ts),
--   Pay/Links and Pay/Links/Settling (frontend/lib/payLinkStore.ts): signed payment requests, and the
--   links that store them until they are paid, cancelled, revoked or expired.
-- * Pending (frontend/lib/pendingCctpTransfers.ts): the transfers that a browser remembers.
-- * Completions (frontend/lib/paymentCompletionQueue.ts): the completed payments that a browser
--   remembers until the server has recorded them.
-- * Archive (frontend/lib/archiveEntitlements.ts), Archive/Purchases and Archive/Challenges
--   (frontend/lib/archiveSubscriptionPurchases.ts): the right to read the payment archive, and the
--   transactions that buy it.
-- * HistoryPolicy (frontend/lib/historyAccessPolicy.ts): how long payments are kept and what the
--   archive costs.
-- * GasFees (frontend/lib/gasFeePolicy.ts): the fees of a transaction.
-- * Sdk (sdk/src/index.ts): the names and checks of the package for other programs.
-- * ShortCache (frontend/lib/shortCache.ts): the promises of slow loaders, shared for a short time.
-- * Admin and Admin/RateLimits (frontend/lib/adminSecurity.ts): the clients of the administration and
--   their rate limits; Admin/Sessions and Admin/Sessions/Permissions (frontend/lib/adminAuth.ts,
--   frontend/lib/treasuryAuthorization.ts): the signed session of a wallet and what it may do;
--   Admin/Logins/Challenges and Admin/Logins/Verify (frontend/app/api/admin/auth): a login by a
--   challenge that the wallet signs.
--
-- A function of the source is a definition of the same name in snake case. A function that throws
-- returns a Result; a table of the database is a list of rows, and one statement of SQL is one step on
-- it. An operation that runs several statements takes as an argument what other requests do to the
-- tables between them, and its theorems hold whatever that is; only the creation of an administrator's
-- challenge (Admin/Logins/Challenges) is one step. Times are arguments. A number is a natural number,
-- but where the source's doubles round (Common/Doubles). What comes from viem, Node and the network
-- (addresses, hashes, parseUnits, receipts, decoded events, JSON) is an
-- argument too; no law of it is assumed but those that a theorem names among its hypotheses.
--
-- Numbers: a JavaScript number is an integer of either sign or `other`; a bigint is an integer, or a
-- natural number where the code has excluded the others; nothing wraps around. The recursions are
-- structural on texts, lists and attempts; on fuel run only `decimal`, with one more than the number that
-- it prints, which its digits never exceed, and the loop that evicts from the short cache, with one more
-- than its entries, one of which each turn deletes.
--
-- Not modelled: the pages, components and clients of the browser, the smart contracts and their
-- scripts, the other administration routes, the payment history, the analytics, the
-- wording of messages to the user, the schema migrations, and the cryptography of signatures.
pub mod Common
pub mod Names
pub mod Pricing
pub mod Discounts
pub mod Networks
pub mod Cctp
pub mod Recovery
pub mod ShortCache
pub mod Admin
pub mod Completions
pub mod GasFees
pub mod Archive
pub mod HistoryPolicy
pub mod Sdk
pub mod Pay
pub mod Pending
