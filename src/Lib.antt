-- ===== src/Lib.antt =====
-- The browser sandbox of the MCP Apps feature, web/src: the JavaScript that shows an app's View
-- in a window of another origin and lets it talk to its host, and the HTTP service that hands it
-- out.
--
-- The parts, and how they interact. The command (Cli, web/src/sandbox-cli.js) reads a deployment,
-- takes the packaged files whose hashes hold (Assets, web/src/sandbox-assets.js) and opens the
-- service. The service (Service, web/src/sandbox-service.js) validates a configuration (Config,
-- web/src/sandbox-config.js and `validateDeploymentConfig` of web/src/sandbox-cli.js) and serves
-- it inside a page. In that page the proxy (Proxy, `startSandboxProxy` of
-- web/src/sandbox-proxy.js) hears the host and the View, and validates every message as the
-- transport does (Transport, web/src/origin-transport.js, which the host uses to reach the
-- proxy). What a View is granted, and the texts of its Content-Security-Policy and of the
-- service's Permissions-Policy, are computed by Policy (`approveSandboxPolicy`, `sandboxCsp` and
-- `sandboxPermissionsPolicy` of web/src/sandbox-proxy.js).
--
-- The entry module of the page (SandboxEntry, web/src/sandbox-entry.js) starts the proxy with the
-- page's configuration. The build of the packaged files (AssetBuild, web/build-assets.mjs)
-- bundles the modules, checks and changes its directory, and writes a manifest (AssetManifest)
-- with the licences of the installed packages (AssetLicenses). AssetCheck compares the shipped
-- files with a clean build (`verifySandboxBuild`, and web/build.mjs). The build finds the
-- packages that a distribution embeds with Notices (`embeddedPackageReferences` of
-- web/build-notices.mjs), and their notices with NoticeFiles (`collectEmbeddedNotices`). In the
-- console, the panel of the connectors is OauthPanel (`mountOAuthPanel` of
-- web/src/oauth-panel.js), with OauthPage for its elements when it is mounted and OauthReply for
-- what it reads and shows: it begins authorizations, sends the browser to the issuer, and lists,
-- connects and removes connections for one actor at a time. In the chat, the button that opens
-- and closes an app is Launcher (web/src/parent-entry.js). The View itself is AppView
-- (`mountMCPApp` of web/src/parent-view.js): it asks the host for an opening, reads the answer
-- (AppReply), shows the frame of the sandbox, connects a bridge over a Transport, passes the
-- View's tool calls to the host, and closes all of it.
--
-- How the code is read. Value holds the values that JSON and the structured clone make, with
-- `undefined` and functions, as trees: the identity of objects, cycles and BigInts are outside
-- it, and so are lone surrogates in strings. Json is `JSON.stringify` on them, and their
-- conversion to a string; its decimal digits run on as much fuel as the number itself, and a
-- number has no more digits than that; the numbers from 10^21 on, which JavaScript prints with an
-- exponent, and -0 are outside it. An exception is a value of Outcome, told apart by its class;
-- the rejection of an `async` method is one too. Window, frame and listener are states: a
-- function of the code that is called back is a step from a state and an event to a state and a
-- list of effects, in the order in which the code has them. A sequence of events or calls is a
-- list. Lists and texts end, so no function needs a bound of its own, but for the climb of
-- AssetLicenses from a folder to the folders above it: it runs on as much fuel as the length of
-- the folder's path, and each turn shortens the path. A build is the list of the changes that it
-- makes to its directory.
--
-- What is a parameter. The URL parser, the schemas of the MCP SDK and the serialization of a
-- `meta` element are the fields of Platform; `buildAllowAttribute` of the SDK is a function from
-- the granted permissions, and Policy.Features states what is relied on of it. The files,
-- `JSON.parse`, SHA-256, the UTF-8 decoder, `parseArgs` and the listening of a server are the
-- fields of Files, Node, Disk and Tree, the bundler and the paths those of Builder, and what the
-- page gives to its entry module those of Page; what the panel takes from the browser and the
-- console's API is Console, and what `mountMCPApp` returns comes with the click that calls it.
-- Examples has a platform that runs.
--
-- What is not modelled: a build that fails while it writes, files that change while they are
-- read, where a sort of packages calls `localeCompare` (a name that is no text fails each sort of
-- two), the classes and the attributes of the elements that answers bring to the page, the focus,
-- the browser's own cleaning of what is typed into them, and all of the Python package, which
-- runs outside the browser.
--
-- Each file under a component's folder is named for what it proves: Policy has Grants,
-- Acceptance, Directives and Features; Config has Validity and Listening; Assets has Integrity;
-- Cli has Startup, and Stopping for its Process; SandboxEntry has Enforcement; AssetLicenses has
-- Termination; AssetBuild has Changes, Contents, Bundling (what it relies on of the bundler),
-- Ordering, Reading, Delivery and Completeness; AssetManifest has Listing; AssetCheck has
-- Verification; Json has Reading, and its Names (the JSON text of an array of names determines
-- them); Launcher has Lifetime; AppView has Soundness (its invariant), Bridging (the steps that
-- leave the bridge), Approval, Ownership and Retirement; Notices has Identity (what a path names)
-- and References, and NoticeFiles has Gathering and Completeness; OauthPanel has Outcomes (what
-- one operation does to the state), Turns (its invariant), Isolation, Lanes, Consent and
-- Progress; Service has Access, Headers and Inert; Transport has Limit and Lifecycle; Proxy has
-- Start, Steps (its step relation), Handshake, Errors, Closing, Progress and Relay (the traffic
-- after a start). AppState and OauthState hold the states, events and effects of AppView and
-- OauthPanel. Prelude holds what they share.
pub mod Prelude
pub mod Value
pub mod Json
pub mod Platform
pub mod Policy
pub mod Config
pub mod Assets
pub mod Service
pub mod Cli
pub mod Launcher
pub mod Transport
pub mod AppReply
pub mod AppState
pub mod AppView
pub mod Notices
pub mod NoticeFiles
pub mod SandboxEntry
pub mod AssetLicenses
pub mod AssetManifest
pub mod AssetBuild
pub mod AssetCheck
pub mod OauthPage
pub mod OauthReply
pub mod OauthState
pub mod OauthPanel
pub mod Proxy
pub mod Examples
