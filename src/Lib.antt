-- ===== src/Lib.antt =====
-- FloppyGuard decides on a hub what the packet filters of WireGuard gateways let through. This
-- library models the pure rule modules of backend/internal, in which these decisions are made
-- before anything is written to a database or sent to a gateway.
--
-- The parts and how they meet:
--   * Cidr models the IPv4 blocks of backend/internal/agent-ingress-rules.js (ipToInt, intToIp,
--     canonicalCidr, cidrContains) and cidrOverlaps of backend/internal/site-isolation-rules.js.
--     All other parts compare networks through it. Cidr/Contains gives a text the addresses that
--     it stands for; Cidr/Order treats containment as an order.
--   * Ingress models the ingress rules of backend/internal/agent-ingress-rules.js: the rule object
--     and the constants in Ingress, sanitizeIngressRule and its parts and the caps on the number
--     of lines in Ingress/Sanitize, buildIngressRestore in Ingress/Restore, ruleCovers in
--     Ingress/Cover, and when a rule was armed and hit (armedOnPatch, nextHitState) in
--     Ingress/Hits. A filter line is a value of Ingress.Restore.Line, which line_text prints; the
--     payload is the text of its lines.
--   * SiteIsolation models backend/internal/site-isolation-rules.js: the networks of a site
--     (siteNetworks) in SiteIsolation, the pair list of a request (sanitizePairs) in Pairs, the
--     plan with its sites and warnings (planSiteIsolation) in Plan, siteIsolationVerdict in
--     Verdict, the nftables script (buildSiteIsolationNft) in Script, and the verdict on drop
--     rules that somebody added by hand (manualDropVerdict, manualSitePairs) in Foreign. The
--     map of sites that planSiteIsolation changes is a field of the record Plan that each round
--     passes on.
--   * DirectLink models the tunnel subnet, the checks of a link and the partner's networks of
--     backend/internal/agent-direct-link-rules.js (canonicalTunnelSubnet, tunnelAddresses,
--     directNetConflict, assertNoLinkClash, natRestrictedConflict, assertDirectLinkFits, and
--     directPeerNets in DirectLink/Peers), with the input of a request (sanitizeDirectLinkInput) in
--     Input and the hooks and the config of a side (buildDirectHooks, buildDirectConfig,
--     directPayloadEntry) in Config. What the checks ask of the agents and the site
--     isolation are functions in the record Context, as the callers pass them.
--   * Catalog models backend/internal/agent-ingress-catalog.js: the flow tester (sanitizeFlowQuery,
--     evaluateFlow) in Bulk and Evaluate, the rules that may be disabled (pruneCandidates) in Prune,
--     the lists of ids and of rules of the bulk operations (sanitizeRuleIds, sanitizeBulkList,
--     bulkDedupe) in Bulk, the destinations that proxy hosts and services suggest
--     (upstreamDestinations, serviceDestinations) in Upstreams, and the picker (buildCatalog) in
--     Sources and Build. It reads the rules of Ingress through ruleCovers and the site isolation verdict. The
--     date parser, localeCompare and the URL parser of the runtime are arguments.
--   * Service models the pure parts of backend/internal/agent-ingress.js: the link that an agent is
--     bound to (resolveBoundStatusLink, agentSiteLink, boundLinkMissingHint) in Binding, the VPN
--     clients and the gaps in the rules for them (vpnClientsFromStatus, clientIngressGaps) in
--     Clients, what the check shows (upstreamSuggestion, broadHubRules, hubConnectedNets) in
--     Reports, the state of a rule set (ingressAppliedState) with the guards of a change in
--     Applied, and the readers of egress flows, peer sections and the hosts file
--     (parseHubEgressFlows, peerTunnelHosts, parseHostsFile) in Files.
--   * WireGuard models parts of backend/internal/wireguard.js and wireguard-plan.js: the renaming of
--     links (cascadeLinkRenames, with renameLinkBinding of backend/internal/agent.js) in Renames,
--     the networks of the metadata and their conflicts (sanitizeNetworkArray,
--     checkAllowedIPsConflicts, findLinkNetworkConflicts) in Networks, the patches of the metadata
--     and their merge (sanitizeLinkMetadataPatch, mergeMetadataStorePatch) in Metadata, parseDump
--     in Dump, the diff and the apply contract of a plan (buildDiffEntries, buildApplyContract) in
--     Plan, and the renames and the merge of a backup (diffLinkRenames, mergeBackupIntoLive) in
--     Restore. The cascade runs over any database: the rename of one name is an
--     argument that changes a state and may fail, and IsRenaming says what is asked of it.
--   * Json holds the values of a request body and their String and Boolean conversions; Result has
--     ValidationError and Error as values. Base has the shared names, list lemmas, and JavaScript
--     strings as lists of UTF-16 code units.
--   * Tests runs the code at concrete inputs and applies the theorems there.
--   * AgentConfig models the config of an agent that the hub keeps, in backend/internal/agent.js:
--     the AllowedIPs of the hub peer (_parseHubPeerAllowedIPs, _rewriteHubPeerAllowedIPs) in
--     Sections, its endpoint (_rewriteHubPeerEndpoint, with _sanitizeHubHost of
--     backend/internal/wireguard.js) in Endpoint, the hooks (buildHubPostUp, buildHubPostDown) in
--     Hooks, deriveTunnelSubnet in Tunnel, normalizeAgentConfig in Normalize, the networks that an
--     agent may reach (_meshIndex, _computeOtherSiteNets) in Reach, and the step that puts them
--     together (_syncOneAgent, stripToTunnelOnly) in Sync. The row that is written is part of the
--     result of a step. JSON.parse, the digest and toLowerCase are fields of Env.
--
-- Conventions. An exception is a value of Failure and a loop that may throw is for_each. Numbers
-- are the native natural numbers; the 32-bit masks of cidrContains are written as division and
-- multiplication by powers of two, which agree with them on addresses below 2 ^ 32. A JavaScript
-- number in a request body is the text that String gives of it. The only fuel is that of decimal,
-- n + 1 rounds for a number n, which has at most that many digits. The SHA-256 digest of
-- node:crypto and the Unicode normalisation of the runtime are arguments of the definitions that
-- use them.
--
-- A JavaScript object is the list of its entries in their order, each key once, and the numbers of
-- a dump are those without a sign and below 2 ^ 53. isIP of node:net and JSON.stringify are arguments
-- of the definitions that use them.
--
-- Not modelled: the row codec and the tunnel addresses of
-- backend/internal/agent-ingress-rules.js; the table of port presets, tunnelSubnets and the stored
-- services column of backend/internal/agent-ingress-catalog.js; the readers of nginx files
-- in backend/internal/agent-ingress.js; the preview and
-- the files of backend/internal/wireguard-plan.js; parseConfig, the classification of links and the
-- rewriting of configs in backend/internal/wireguard.js; the route warnings, the reading of nft's
-- JSON output and the boot include of backend/internal/site-isolation-rules.js; the status of a
-- heartbeat and the public host in backend/internal/agent-direct-link-rules.js; the sanitizers of
-- the access lists, the guards of a deletion and the heartbeats in backend/internal/agent.js; the
-- database, HTTP and process code of the backend; the frontend.
pub mod Base
pub mod Json
pub mod Cidr
pub mod Result
pub mod Ingress
pub mod SiteIsolation
pub mod DirectLink
pub mod Catalog
pub mod Service
pub mod WireGuard
pub mod AgentConfig
mod Tests
