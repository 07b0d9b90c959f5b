-- ===== src/Lib.antt =====
-- Cozyplane: a model of the decisions that keep tenants apart.
--
-- Cozyplane gives the tenants of a Kubernetes cluster VPCs of their own. An aggregated API server
-- stores VPCs, Ports and bindings; controllers reconcile them; an agent on each node programs the
-- datapath; a resolver answers the DNS queries of the Pods; appliances connect VPCs by VPN. The
-- development models the pure code and the state machines that these parts decide by, and takes the
-- libraries and services that they call as parameters.
--
-- Base: bytes, lists, signed integers, `net.IP` and the tests that the other modules share. A string
-- is the list of its bytes. Numbers are natural, and a signed value is an integer of Base/Int.antt;
-- subtraction of naturals stands where the code's own check keeps it from going below zero.
--
-- Grants: api/sdn/v1alpha1/binding_grants.go. `binding_grants_with_budget` folds the bindings of a
-- VPC into its grants with the accumulator `BindingGrantAccumulator`; `cidr_ok` stands for
-- `net.ParseCIDR`. Grants/Exact.antt describes the grants with no state.
--
-- NetId: pkg/netid/netid.go, over signed integers.
--
-- Claim: a claim's name, and its storage. Claim/Name.antt and Claim/Decimal.antt are
-- api/sdn/names.go, with `strconv.ParseInt` and the decimal format written out. Claim/Guard.antt is
-- `persistentGuard` of pkg/registry/sdn/claim/persistent.go: the scan of a VNI's Ports page by page;
-- the answers of etcd are an argument, a function of the key and the revision that are asked for.
-- Claim/Store.antt is what etcd holds and the transaction, and Claim/Create.antt is
-- `atomicStorage.Create` of pkg/registry/sdn/claim/atomic.go with its retries. Two clients meet in the
-- transaction: Create/Unique.antt takes creates, deletes and updates of any clients in any order, and
-- Claim/Update.antt is what `ValidateUpdate` of pkg/registry/sdn/port/strategy.go and
-- pkg/registry/sdn/servicevip/strategy.go lets an update change. Create/Nic.antt takes any writes at
-- all between a scan and the transaction. Rows are those of the aggregated API server; claims that are
-- kept as custom resources have no such transaction. The scan's
-- fuel is 65537 pages, one more than its limit on entries: a page that does not end the scan has an
-- entry, so the limit ends it first.
--
-- Responder: internal/responder/responder.go. `serve_dns` takes a query from its arrival to its reply;
-- `acquire_query` and `release_query` hold its slot; `authoritative` answers names of the cluster from
-- the querying VPC's view, and `add` spends the budget of a reply. The DNS library is the record `Dns`,
-- the informers are the record `State`, and an exchange with an upstream is a function. A budget that
-- is spent is `none`, which every caller turns into a failure reply. Truncating and writing the
-- message, and the metrics, are left out.
--
-- VpnLimits: internal/vpnlimits and internal/controller/sdn/vpngateway_limits.go, the limits on VPN
-- specifications and the routes that are kept while authorization is drained. The validation of names,
-- base64 and netip are the record `Library`; a message is a constructor of `Problem`, and the empty
-- string is `none`.
--
-- PolicyLimits: cmd/agent/policy_limits.go, the preflight bounds on compiling policies, and
-- `hfIsolation` of cmd/agent/hostfirewall.go. Objects are reduced to the lengths that are counted.
-- The code's 64-bit counters stay far below their width at these limits and are natural numbers.
--
-- FabricIp: internal/controller/localsdn/fabricip_controller.go, `Reconcile` from what it reads to its
-- delete with preconditions. Durations are integers of nanoseconds.
--
-- ApiGate: internal/apigate/gate.go. The loop of `Start` runs over the answers of the prober, which
-- end when the context is done; what it logs and does is a list of events.
--
-- JsonBudget: internal/admission/budget.go, over the tokens of the JSON decoder.
--
-- SgIdentity: internal/sgidentity/membership.go. A 64-bit word is the function from a place to its
-- bit, and the index of an agent's snapshot is a list of entries.
--
-- Ipam: internal/ipam/claims.go, the scan of every claim that comes before an allocation. What the API
-- server answers for a page, and whether the context is done each time it is asked, are an argument; a
-- visitor is a function on the state that it gathers. The loop's 512 rounds are its own limit.
--
-- VniAllocator: internal/controller/sdn/vpc_controller.go, how a VPC gets its network identifier from the
-- counter and which of two VPCs with one identifier yields. An attempt is what it reads and what the
-- API server answers to its write; VniAllocator/Store.antt is the counter as the API server keeps it,
-- with its versions, where any allocators write on any version that they once read. Nobody deletes or
-- edits the counter there.
--
-- GroupIds: internal/controller/sdn/securitygroup_controller.go, how a SecurityGroup gets its identifier in
-- its VPC. Ipam/Repair.antt is what this repair of duplicates and that of VNIs share.
--
-- Membership: the same file, which groups a Port is in. The controller writes a Port's status, and an agent
-- reads it with `bitmap` of SgIdentity; Membership/Refined.antt joins the two. What `Reconcile` reads is
-- the record `Inputs`, and a label selector is its test.
--
-- HostFirewalls: cmd/agent/hostfirewall.go, the rows that firewalls are compiled to once the preflight of
-- PolicyLimits passes. `net.ParseCIDR` is a parameter, and warnings are left out.
--
-- Cidr: api/sdn/v1alpha1/cidr.go, whether two lists of ranges overlap. Cidr/Blocks.antt puts the addresses
-- of both families on one line. `slices.SortFunc` and `slices.BinarySearchFunc` are written by what they
-- document: a sorted list, and the place of an address in one.
--
-- VpcPeering: internal/controller/sdn/vpcpeering_controller.go, when a half of a peering is ready, with
-- `LocalRef` and `Matches` of api/sdn/v1alpha1/vpcpeering_types.go and api/sdn/v1alpha1/vpc_cidrs.go. What
-- the controller reads is the record `Cluster`; a condition is its truth. `net.ParseCIDR`, which validates
-- a range, and `netip.ParsePrefix`, which the overlap reads, are two parameters: they differ on a length
-- with leading zeros.
--
-- FlowEvent: datapath/flowevent.go, with `addr128ToIP` of datapath/datapath.go.
--
-- Dhcp6: `buildDHCP6Reply` and `appendOpt` of datapath/dhcpv6.go, for a message of four bytes or more,
-- which its caller checks. The loop over the options has the message's length as fuel; each round
-- takes four bytes or more. Dhcp6/Wire.antt describes options and their bytes apart from the loop.
--
-- Not modelled: the BPF programs and the calls that load and fill them, netlink, the processes of the
-- appliances, the wiring of informers and servers, generated clients, and the deployment data. The
-- compilation of NetworkPolicies and SecurityGroups is outside the model.
pub mod Base
pub mod Grants
pub mod NetId
pub mod Claim
pub mod Responder
pub mod VpnLimits
pub mod FabricIp
pub mod ApiGate
pub mod JsonBudget
pub mod PolicyLimits
pub mod FlowEvent
pub mod SgIdentity
pub mod Dhcp6
pub mod Ipam
pub mod VniAllocator
pub mod Membership
pub mod GroupIds
pub mod HostFirewalls
pub mod Cidr
pub mod VpcPeering
