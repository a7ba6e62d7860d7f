-- ===== src/Lib.antt =====
-- Verification of the Cluster API IPAM provider for NetBox.
--
-- The provider is a set of Kubernetes controllers. A claim (IPAddressClaim) refers to a pool; the claim
-- reconciler asks the provider's handler for an address, which the handler allocates in NetBox from one
-- of the pool's prefixes and the reconciler writes into an IPAddress object; a claim that is deleted has
-- its address released in NetBox first. The pool reconcilers keep a pool's status: how many addresses
-- are in use, which prefixes its references stand for, and the gateway of each.
--
-- The parts, with the files here and those of the repository:
--   Api                     api/v1alpha1/common_types.go, netboxippool_types.go, globalnetboxippool_types.go: the
--                           objects; both kinds of pool are the one record Pool; Api.Scheme groupversion_info.go
--                           and the registration of the kinds
--   Netbox.Numbers          strconv.ParseInt and FormatInt at 32 bits, as internal/netbox/annotations.go uses them
--   Netbox.Metadata         internal/netbox/annotations.go: EffectivePoolMetadata, splitCSV
--   Netbox.Gateway          internal/netbox/gateway.go: ResolveGateway, CustomFieldString, firstNonEmpty
--   Netbox.Config           internal/netbox/config.go: LoadConnectionConfig, NewHTTPClient, SplitBaseURL
--   Netbox.Defaults         internal/netbox/defaults.go
--   Netbox.Slug             internal/netbox/client.go: slugifyTag
--   Netbox.Wire             internal/netbox/client.go: what is sent and received, and the interface Client
--   Netbox.Client           internal/netbox/client.go: do, get, post, listAll, and below it Tags (ensureTags,
--                           appendUnique), Prefixes (ResolvePrefixIDs, GetPrefixDetails,
--                           EnsureIPAddressCustomField), Addresses (AllocateIPAddress, the two searches,
--                           DeleteIPAddress), Interface (NewClient) and Server (what a NetBox server promises of a
--                           claim's record, and what the client makes of it); internal/version/version.go: UserAgent
--   Controller.Handler      internal/controller/ipaddressclaim_controller.go: FetchPool and EnsureAddress of
--                           netboxClaimHandler; Controller.Releasing its ReleaseAddress; Controller.ClaimHandler makes
--                           the reconciler's interface of them; Controller.Ledger sets both operations against an
--                           abstract ledger of at most one address for each claim, over any client that keeps
--                           certain laws, and Controller.Ledger.Implementation is about the API client and them
--   Controller.ResolvedPrefixes  buildResolvedPrefixes of internal/controller/pool_controller.go, and the searches
--                           gatewayForPrefixID and gatewayForAddress
--   Controller.Pools        internal/controller/pool_controller.go; Controller.Pools.Reconciling is Reconcile of
--                           netboxippool_controller.go and globalnetboxippool_controller.go
--   Ipamutil.Address        pkg/ipamutil/address.go
--   Ipamutil.Reconciler     pkg/ipamutil/reconciler.go: conditions, labels, the linked cluster; Ipamutil.Assigning
--                           ensureAddress, Ipamutil.Releasing reconcileDelete, and Ipamutil.Reconcile the rest
--   Predicates              pkg/predicates/references.go, and the predicate of clusters' events
--   Index                   internal/index/index.go
--   Cluster                 the Kubernetes API and the helpers of controller-runtime, as records of operations;
--                           recordEvent of pkg/reconcileutil/controller.go
--   Manager                 cmd/main.go: Config the flags, Options the options of the manager, Builder the manager and
--                           its builder of controllers, Setup each SetupWithManager and SetupIndexes, and Main
--   Base                    lists, results, dictionaries, integers, errors and texts, as the parts share them; Base.Hoare
--                           the rules for what a chain of calls ensures
--   Tests                   examples on which the theorems are applied
--
-- State. Whatever is outside a function, NetBox or the cluster, is a type W of states of the world; a call
-- takes a state and returns one, with an error too, so that what happened before the error stays done.
-- Errors are values of Base.Errors, which keep what errors.Is and errors.As look for. A deferred function
-- is applied to what the rest of its function returns. Where Go dereferences a nil pointer the model
-- returns the error nil_dereference.
--
-- Parameters, for code that is not in the repository: the Kubernetes client, controllerutil (finalizers,
-- owner references, CreateOrPatch), patch.Helper, wait.PollUntilContextTimeout, the network, encoding/json,
-- net/url, net/netip, crypto/x509, pflag and the flags of Cluster API, the manager and the scheme of
-- controller-runtime, and the tables of unicode for characters that are not ASCII.
--
-- Bounds. listAll follows the pages of NetBox for as long as it gives a next one. The model reads at most
-- `fuel` pages: Netbox.Client.Pages treats a number of pages up to it, and Netbox.Client.Termination a server
-- that leaves fewer pages after each page. The search through the prefixes and all other loops end by themselves.
--
-- Simplifications: logging is left out; the texts of errors leave out the quotation marks of %q; a query is
-- kept as pairs, before url.Values.Encode; of the conditions of a claim only Ready is kept; time stamps of
-- conditions are left out; iteration over a Go map, whose order is open, is in one fixed order.
--
-- Not modelled: generated deep copies, which the compiler of the types writes; manifests; the end-to-end
-- tests under test/e2e, which set up containers; version.Get, whose result is only logged.
pub mod Base
pub mod Api
pub mod Netbox
pub mod Index
pub mod Cluster
pub mod Controller
pub mod Ipamutil
pub mod Predicates
pub mod Manager
pub mod Tests
