-- ===== src/VpnLimits/Ipsec.antt =====
-- internal/vpnlimits/ipsec.go.
use cozyplane.Base.{Bool, ◌&&◌, List, Option, Bytes, is_empty, leb, ltb, length}
use cozyplane.VpnLimits.{
  Problem, empty_pool_name, long_pool_name, too_many_proposals, long_proposal, long_address,
  long_identity, ◌then_check◌, problem_if, check_all,
}

-- `IPsecPoolNameProblem`, `IPsecProposalProblem` and `IPsecScalarProblem`.
unfoldable pub ipsec_pool_name_problem : Bytes → Bool → Option Problem
ipsec_pool_name_problem name required =
    problem_if (required && is_empty name) empty_pool_name
    then_check problem_if (ltb 255 (length name)) long_pool_name

unfoldable pub ipsec_proposal_problem : List Bytes → Option Problem
ipsec_proposal_problem proposals =
    problem_if (ltb 16 (length proposals)) too_many_proposals
    then_check check_all (λ proposal. leb (length proposal) 512) long_proposal proposals

unfoldable pub ipsec_scalar_problem : Bytes → List Bytes → Option Problem
ipsec_scalar_problem address identities =
    problem_if (ltb 512 (length address)) long_address
    then_check check_all (λ identity. leb (length identity) 4096) long_identity identities
