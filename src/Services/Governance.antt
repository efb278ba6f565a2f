-- ===== src/Services/Governance.antt =====
-- soulon-wallet/src/services/governance.ts: votes and the queries of proposals. A query is the
-- address that it fetches; `encodeURIComponent` is the parameter `encode`.
pub mod Safe
use soulon_wallet.Prelude.{
  ℕ, is_empty, trim, or_default, Text, codes, List, [], ◌∷◌, ◌++◌, Option, none, some,
  if◌then◌else◌,
}
use soulon_wallet.Prelude.Results.{Result, ok, err}
use soulon_wallet.Core.Errors.{Thrown}
use soulon_wallet.Core.Account.{fail}
use soulon_wallet.Core.Types.{
  NetworkConfig, Number, VoteInput, VoteOptionType, vote_yes, vote_no, vote_abstain,
  vote_no_with_veto,
}
use soulon_wallet.Core.Effects.{
  VoteOption, option_yes, option_no, option_abstain, option_no_with_veto, MsgValue, msg_vote,
  TxRequest, DeliverTxResponse, Node, M, lift, sign_and_broadcast, ◌>>=◌,
}
use soulon_wallet.Core.Broadcast.{broadcast_with_retry, no_options}
use soulon_wallet.Services.Checks.{validate_voter_address, validate_proposal_id}
use soulon_wallet.Services.Staking.{request_of}

unfoldable pub vote_option_map : VoteOptionType → VoteOption
vote_option_map vote_yes = option_yes
vote_option_map vote_no = option_no
vote_option_map vote_abstain = option_abstain
vote_option_map vote_no_with_veto = option_no_with_veto

module _ (lower : Text → Text) (client : Node) (network : NetworkConfig) where
  unfoldable pub vote_proposal : VoteInput → M DeliverTxResponse
  vote_proposal input = do
    voter ← lift (validate_voter_address network input.voter_address)
    proposal_id ← lift (validate_proposal_id input.proposal_id)
    broadcast_with_retry lower
        (sign_and_broadcast client (
          request_of voter "/cosmos.gov.v1beta1.MsgVote"
            (msg_vote proposal_id voter (vote_option_map input.option)) input.memo))
        no_options

abbrev pub proposals_path : NetworkConfig → Text
proposals_path network = network.rest_endpoint ++ codes "/cosmos/gov/v1beta1/proposals"

unfoldable pub query_proposals : (Text → Text) → NetworkConfig → Option Text → Result Thrown Text
query_proposals encode network none = ok (proposals_path network)
query_proposals encode network (some status) =
    if is_empty (trim status)
    then err (fail "INVALID_PROPOSAL_STATUS" (codes "Proposal status must be a non-empty string"))
    else ok (proposals_path network ++ (codes "?proposal_status=" ++ encode (trim status)))

-- A `bigint` prints in digits at every size: `digits` is that print.
module _ (digits : ℕ → Text) (network : NetworkConfig) where
  unfoldable pub query_proposal_detail : Number → M Text
  query_proposal_detail proposal_id = do
    normalized ← lift (validate_proposal_id proposal_id)
    lift (ok (proposals_path network ++ (codes "/" ++ digits normalized)))

  unfoldable pub query_proposal_votes : Number → M Text
  query_proposal_votes proposal_id = do
    normalized ← lift (validate_proposal_id proposal_id)
    lift (ok (proposals_path network ++ (codes "/" ++ (digits normalized ++ codes "/votes"))))
